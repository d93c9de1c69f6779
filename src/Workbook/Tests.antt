-- ===== src/Workbook/Tests.antt =====
-- Runs of the reconciliation of a workbook, with a toy parser: a document is its own text.
use irnmn.Prelude.{ℕ, suc, String, ◌≡◌, refl, true, false, [], ◌∷◌, some, inl}
use irnmn.Text.{strip, sorted}
use irnmn.Values.{text}
use irnmn.Effect.{ok, err, reconciliation_error}
use irnmn.Workbook.Document.{Yaml, WorkbookText, normalize_workbook_yaml}
use irnmn.Workbook.Document.Canonical.{normalize_workbook_yaml-again}
use irnmn.Workbook.Client.{MistralClient}
use irnmn.Workbook.Reconcile.{require_actions, reconcile_workbook}
use irnmn.Workbook.Reconcile.Unchanged.{reconcile_workbook-unchanged}

abbrev toy : Yaml String
toy = record {
  safe_load = λ s. inl s;
  is_mapping = λ s. true;
  version = λ s. "2.0";
  name = λ s. text "powerops ";
  workflows = λ s. some 2;
  safe_dump = λ s. s;
  sha256 = λ s. s;
}

-- The state: how many calls have written. The service has one workbook and one action.
abbrev client : MistralClient ℕ
client = record {
  list_workbooks =
      λ w. (ok (record { name = text "powerops"; definition = text "workbook" } ∷ []), w);
  get_workbook = λ name w. (err (reconciliation_error "down"), w);
  create_workbook = λ definition w. (ok tt, suc w);
  update_workbook = λ definition w. (ok tt, suc w);
  list_action_names = λ w. (ok ("powerops.drain_host" ∷ []), w);
}

-- A client whose writes fail.
abbrev read_only : MistralClient ℕ
read_only = record {
  list_workbooks =
      λ w. (ok (record { name = text "powerops"; definition = text "workbook" } ∷ []), w);
  get_workbook = λ name w. (err (reconciliation_error "down"), w);
  create_workbook = λ definition w. (err (reconciliation_error "down"), w);
  update_workbook = λ definition w. (err (reconciliation_error "down"), w);
  list_action_names = λ w. (ok ("powerops.drain_host" ∷ []), w);
}

abbrev stored : WorkbookText
stored = record { name = "powerops"; definition = "workbook"; sha256 = "workbook" }

other_text_updated :
    reconcile_workbook toy client false "new" ("powerops.drain_host" ∷ []) 0
    ≡ (ok (record { changed = true; workbook = "powerops"; definition_sha256 = "new" }), 1)
unfolding reconcile_workbook normalize_workbook_yaml strip sorted
other_text_updated = refl

action_missing :
    reconcile_workbook toy client false "new" ("b" ∷ "a" ∷ "b" ∷ []) 0
    ≡ (err (reconciliation_error "required Mistral actions are missing: a, b"), 0)
unfolding reconcile_workbook normalize_workbook_yaml strip sorted
action_missing = refl

stored_is_normal : normalize_workbook_yaml toy "workbook" ≡ ok stored
unfolding normalize_workbook_yaml strip
stored_is_normal = refl

normalize_workbook_yaml-again_example : normalize_workbook_yaml toy "workbook" ≡ ok stored
normalize_workbook_yaml-again_example =
    normalize_workbook_yaml-again toy "workbook" stored (λ s. refl) stored_is_normal

reconcile_workbook-unchanged_example :
    reconcile_workbook toy client false "workbook" [] 0
    ≡ (ok (record { changed = false; workbook = "powerops"; definition_sha256 = "workbook" }), 0)
unfolding require_actions
reconcile_workbook-unchanged_example =
    reconcile_workbook-unchanged toy client false "workbook" [] stored
      (record { name = text "powerops"; definition = text "workbook" } ∷ []) (text "powerops") 0 0 0
      (λ s. refl) stored_is_normal refl refl refl refl
