-- ===== src/Workbook/Document.antt =====
-- `normalize_workbook_yaml` of powerops_mistral_workbook.py.
pub mod Canonical
use irnmn.Prelude.{
  ℕ, String, Bool, true, false, not, ◌||◌, ◌==◌, ◌⊎◌, inl, inr, is_blank, nat_eq, ◌&◌, Option, none,
  some, if◌then◌else◌,
}
use irnmn.Text.{strip}
use irnmn.Values.{Value, text_or}
use irnmn.Effect.{Result, ok, err, reconciliation_error}

-- PyYAML and hashlib: `yaml.safe_load` with the text of a YAMLError, what the code reads of the
-- loaded data, `yaml.safe_dump` with sorted keys, and the hexadecimal SHA-256 of a text.
pub record Yaml (D : Type 0) : Type 0 where
  pub safe_load : String → D ⊎ String
  pub is_mapping : D → Bool
  -- `str(data.get("version"))`
  pub version : D → String
  pub name : D → Value
  -- The number of workflows, if they are a mapping.
  pub workflows : D → Option ℕ
  pub safe_dump : D → String
  pub sha256 : String → String

pub record WorkbookText : Type 0 where
  pub name : String
  pub definition : String
  pub sha256 : String

-- `isinstance(workflows, dict) and workflows`
abbrev pub has_workflows : Option ℕ → Bool
has_workflows none = false
has_workflows (some n) = not (nat_eq n 0)

module _ {D : Type 0} (yaml : Yaml D) where
  abbrev pub check_document : D → Result WorkbookText
  check_document document =
      let name = strip (text_or (yaml.name document) "") in
      if not (yaml.is_mapping document)
      then err (reconciliation_error "workbook document must be a mapping")
      else if not (yaml.version document == "2.0")
      then err (reconciliation_error "workbook must use Mistral DSL v2")
      else if is_blank name || not (has_workflows (yaml.workflows document))
      then err (reconciliation_error "workbook name and non-empty workflows mapping are required")
      else ok (record {
        name = name;
        definition = yaml.safe_dump document;
        sha256 = yaml.sha256 (yaml.safe_dump document);
      })

  abbrev pub check_loaded : D ⊎ String → Result WorkbookText
  check_loaded (inl document) = check_document document
  check_loaded (inr problem) = err (reconciliation_error ("invalid workbook YAML: " & problem))

  unfoldable pub normalize_workbook_yaml : String → Result WorkbookText
  normalize_workbook_yaml definition = check_loaded (yaml.safe_load definition)
