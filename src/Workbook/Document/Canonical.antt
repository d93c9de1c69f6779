-- ===== src/Workbook/Document/Canonical.antt =====
-- The canonical text of a workbook is a fixed point of the normalization.
use mathlib.Core.Path.{subst}
use irnmn.Prelude.{String, ◌≡◌, refl, not, ◌||◌, ◌==◌, is_blank, ◌⊎◌, inl, inr, Bool-cases, ◌∙◌, ap}
use irnmn.Text.{strip}
use irnmn.Values.{text_or}
use irnmn.Effect.{ok}
use irnmn.Effect.Post.{Gives}
use irnmn.Workbook.Document.{
  Yaml, WorkbookText, has_workflows, check_document, check_loaded, normalize_workbook_yaml,
}

-- What is dumped loads as it was: documented for data of plain types.
abbrev pub RoundTrips : {D : Type 0} → Yaml D → Type 0
RoundTrips {D} yaml = (document : D) → yaml.safe_load (yaml.safe_dump document) ≡ inl document

module _ {D : Type 0} (yaml : Yaml D) where
  document-Gives :
      (document : D)
      → Gives (λ t. t.definition ≡ yaml.safe_dump document) (check_document yaml document)
  document-Gives document = elim (Bool-cases (yaml.is_mapping document)) [
    | inr other ↦ rw other tt
    | inl mapping ↦ elim (Bool-cases (yaml.version document == "2.0")) [
      | inr version ↦ rw (mapping, version) tt
      | inl version ↦
          elim (Bool-cases (
            is_blank (strip (text_or (yaml.name document) ""))
            || not (has_workflows (yaml.workflows document)))) [
              | inl lacks ↦ rw (mapping, version, lacks) tt
              | inr named ↦ rw (mapping, version, named) refl
            ]
    ]
  ]

  loaded-again :
      (loaded : D ⊎ String) (t : WorkbookText)
      → RoundTrips yaml
      → check_loaded yaml loaded ≡ ok t
      → check_loaded yaml (yaml.safe_load t.definition) ≡ ok t
  loaded-again (inl document) t trips given =
      let dumped : t.definition ≡ yaml.safe_dump document =
        subst (Gives (λ t. t.definition ≡ yaml.safe_dump document)) given
          (document-Gives document) in
      ap (λ s. check_loaded yaml (yaml.safe_load s)) dumped
      ∙ (ap (check_loaded yaml) (trips document) ∙ given)
  loaded-again (inr problem) t trips given = cc

-- Normalizing a normalized workbook gives it again, with the same hash.
pub normalize_workbook_yaml-again :
    {D : Type 0} (yaml : Yaml D) (definition : String) (t : WorkbookText)
    → RoundTrips yaml
    → normalize_workbook_yaml yaml definition ≡ ok t
    → normalize_workbook_yaml yaml t.definition ≡ ok t
unfolding normalize_workbook_yaml
normalize_workbook_yaml-again yaml definition t = loaded-again yaml (yaml.safe_load definition) t
