-- ===== src/Workbook/Reconcile.antt =====
-- `reconcile_workbook` of powerops_mistral_workbook.py. The file at `path` is given by its text.
pub mod CheckMode
pub mod Unchanged
use irnmn.Prelude.{
  ℕ, String, Bool, true, false, not, ◌||◌, ◌&&◌, ◌==◌, List, [], ◌∷◌, select, any, is_empty, ◌&◌,
  if◌then◌else◌,
}
use irnmn.Text.{sorted}
use irnmn.Values.{Value, text, value_eq, is_truthy, to_text}
use irnmn.Effect.{Exec, pure, raise, raise_if, run_if, lift, reconciliation_error, ◌>>=◌, ◌>>◌}
use irnmn.Workbook.Document.{Yaml, WorkbookText, normalize_workbook_yaml}
use irnmn.Workbook.Client.{Workbook, MistralClient}

pub record WorkbookReply : Type 0 where
  pub changed : Bool
  pub workbook : String
  pub definition_sha256 : String

-- The items of a list, once each.
unfoldable pub distinct : List String → List String
distinct [] = []
distinct (s ∷ rest) =
    let later = distinct rest in if any (λ t. t == s) later then later else s ∷ later

-- `", ".join(names)`
unfoldable pub joined : List String → String
joined [] = ""
joined (s ∷ rest) = let later = joined rest in if is_empty rest then s else s & ", " & later

-- `sorted(set(required_actions) - available)`
unfoldable pub missing_actions : List String → List String → List String
unfolding distinct
missing_actions required available =
    sorted (select (λ a. not (any (λ t. t == a) available)) (distinct required))

module _ {W : Type 0} (client : MistralClient W) where
  unfoldable pub require_actions : List String → Exec W (Unit {0})
  unfolding missing_actions joined
  require_actions [] = pure tt
  require_actions (a ∷ rest) = do
    available ← client.list_action_names
    raise_if (not (is_empty (missing_actions (a ∷ rest) available))) (
        reconciliation_error (
          "required Mistral actions are missing: " & joined (missing_actions (a ∷ rest) available)))

  -- The definition of the listed workbook, or that of the workbook fetched by name.
  unfoldable pub current_definition : String → Workbook → Exec W Value
  current_definition name listed =
      if is_truthy listed.definition then pure listed.definition else (do
        fetched ← client.get_workbook name
        raise_if (not (is_truthy fetched.definition))
            (reconciliation_error "Mistral API did not return the existing workbook definition")
        pure fetched.definition)

  unfoldable pub update_if : Bool → WorkbookText → WorkbookText → Exec W WorkbookReply
  update_if check_mode desired current = do
    run_if (not (current.sha256 == desired.sha256) && not check_mode)
        (client.update_workbook desired.definition)
    pure (record {
      changed = not (current.sha256 == desired.sha256);
      workbook = desired.name;
      definition_sha256 = desired.sha256;
    })

module _ {W D : Type 0} (yaml : Yaml D) (client : MistralClient W) (check_mode : Bool) where
  -- By the workbooks that bear the name.
  unfoldable pub reconcile_listed : WorkbookText → List Workbook → Exec W WorkbookReply
  unfolding current_definition update_if
  reconcile_listed desired [] = do
    run_if (not check_mode) (client.create_workbook desired.definition)
    pure (record { changed = true; workbook = desired.name; definition_sha256 = desired.sha256 })
  reconcile_listed desired (workbook ∷ []) = do
    definition ← current_definition client desired.name workbook
    current ← lift (normalize_workbook_yaml yaml (to_text definition))
    update_if client check_mode desired current
  reconcile_listed desired _ =
      raise (reconciliation_error ("expected exactly one Mistral workbook named " & desired.name))

  unfoldable pub reconcile_workbook : String → List String → Exec W WorkbookReply
  unfolding require_actions reconcile_listed
  reconcile_workbook file required = do
    desired ← lift (normalize_workbook_yaml yaml file)
    require_actions client required
    found ← client.list_workbooks
    reconcile_listed desired (select (λ workbook. value_eq workbook.name (text desired.name)) found)
