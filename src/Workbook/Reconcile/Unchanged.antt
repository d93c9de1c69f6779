-- ===== src/Workbook/Reconcile/Unchanged.antt =====
-- A workbook that is stored as the file has it is left alone.
use irnmn.Prelude.{String, ◌≡◌, refl, Bool, false, is_blank, eq_refl, List, [], ◌∷◌, select}
use irnmn.Values.{Value, text, value_eq}
use irnmn.Effect.{ok}
use irnmn.Workbook.Document.{Yaml, WorkbookText, normalize_workbook_yaml}
use irnmn.Workbook.Document.Canonical.{RoundTrips, normalize_workbook_yaml-again}
use irnmn.Workbook.Client.{Workbook, MistralClient}
use irnmn.Workbook.Reconcile.{
  current_definition, update_if, reconcile_listed, require_actions, reconcile_workbook,
}

module _ {W D : Type 0} (yaml : Yaml D) (client : MistralClient W) (check_mode : Bool) where
  -- The comparison of a workbook with the same hash.
  update_same :
      (t : WorkbookText) (w : W)
      → update_if client check_mode t t w
        ≡ (ok (record { changed = false; workbook = t.name; definition_sha256 = t.sha256 }), w)
  unfolding update_if
  update_same t w = rw (eq_refl t.sha256) refl

  listed_same :
      (t : WorkbookText) (id : Value) (w : W)
      → is_blank t.definition ≡ false
      → normalize_workbook_yaml yaml t.definition ≡ ok t
      → reconcile_listed yaml client check_mode t
          (record { name = id; definition = text t.definition } ∷ [])
          w
        ≡ (ok (record { changed = false; workbook = t.name; definition_sha256 = t.sha256 }), w)
  unfolding reconcile_listed current_definition
  listed_same t id w stored again = rw (stored, again) (update_same t w)

-- Where the service lists one workbook of the name, with the canonical text of the file, and has the
-- required actions, nothing is written and no change is reported.
pub reconcile_workbook-unchanged :
    {W D : Type 0} (yaml : Yaml D) (client : MistralClient W) (check_mode : Bool) (file : String)
    (required : List String) (t : WorkbookText) (listed : List Workbook) (id : Value) (w w' w'' : W)
    → RoundTrips yaml
    → normalize_workbook_yaml yaml file ≡ ok t
    → is_blank t.definition ≡ false
    → require_actions client required w ≡ (ok tt, w')
    → client.list_workbooks w' ≡ (ok listed, w'')
    → select (λ workbook. value_eq workbook.name (text t.name)) listed
      ≡ record { name = id; definition = text t.definition } ∷ []
    → reconcile_workbook yaml client check_mode file required w
      ≡ (ok (record { changed = false; workbook = t.name; definition_sha256 = t.sha256 }), w'')
unfolding reconcile_workbook
reconcile_workbook-unchanged yaml client check_mode file required t listed id w w' w'' trips normal
      stored allowed listing only =
    rw (normal, allowed, listing, only)
      (listed_same yaml client check_mode t id w'' stored
        (normalize_workbook_yaml-again yaml file t trips normal))
