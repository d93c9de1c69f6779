-- ===== src/Workbook/Reconcile/CheckMode.antt =====
-- In check mode the reconciliation of a workbook calls nothing that writes: each statement of the
-- block is replaced along its path.
use irnmn.Prelude.{
  String, ◌≡◌, refl, true, not, ◌==◌, List, [], ◌∷◌, select, is_empty, ◌&◌, if◌then◌else◌,
  Bool-cases, inl, inr,
}
use irnmn.Values.{text, value_eq, is_truthy, to_text}
use irnmn.Effect.{pure, raise_if, lift, reconciliation_error, ◌>>=◌, ◌>>◌}
use irnmn.Workbook.Document.{Yaml, WorkbookText, normalize_workbook_yaml}
use irnmn.Workbook.Client.{Workbook, MistralClient}
use irnmn.Workbook.Reconcile.{
  missing_actions, joined, require_actions, current_definition, update_if, reconcile_listed,
  reconcile_workbook,
}

module _ {W D : Type 0} (yaml : Yaml D) (c c' : MistralClient W)
    (same_list : c'.list_workbooks ≡ c.list_workbooks) (same_get : c'.get_workbook ≡ c.get_workbook)
    (same_actions : c'.list_action_names ≡ c.list_action_names) where
  actions-same : (required : List String) → require_actions c' required ≡ require_actions c required
  unfolding require_actions
  actions-same [] = refl
  actions-same (a ∷ rest) = λ i.
      (same_actions i >>= λ available.
      raise_if (not (is_empty (missing_actions (a ∷ rest) available))) (
        reconciliation_error (
          "required Mistral actions are missing: "
          & joined (missing_actions (a ∷ rest) available))))

  definition-same :
      (name : String) (listed : Workbook)
      → current_definition c' name listed ≡ current_definition c name listed
  unfolding current_definition
  definition-same name listed i =
      if is_truthy listed.definition then pure listed.definition else (do
        fetched ← same_get i name
        raise_if (not (is_truthy fetched.definition))
            (reconciliation_error "Mistral API did not return the existing workbook definition")
        pure fetched.definition)

  update-same :
      (desired current : WorkbookText)
      → update_if c' true desired current ≡ update_if c true desired current
  unfolding update_if
  update-same desired current = elim (Bool-cases (current.sha256 == desired.sha256)) [
    | inl e ↦ rw e
    | inr e ↦ rw e
  ]

  listed-same :
      (desired : WorkbookText) (found : List Workbook)
      → reconcile_listed yaml c' true desired found ≡ reconcile_listed yaml c true desired found
  unfolding reconcile_listed
  listed-same desired [] = refl
  listed-same desired (workbook ∷ []) = λ i.
      (definition-same desired.name workbook i >>= λ definition.
      lift (normalize_workbook_yaml yaml (to_text definition)) >>= λ current.
      update-same desired current i)
  listed-same desired (p ∷ q ∷ r) = refl

-- In check mode the outcome depends on what the service lists and returns only: it is the same
-- whatever the calls that create and update do, as they are not made.
reconcile_workbook-check_mode :
    {W D : Type 0} (yaml : Yaml D) (c c' : MistralClient W) (file : String) (required : List String)
    (w : W)
    → c'.list_workbooks ≡ c.list_workbooks
    → c'.get_workbook ≡ c.get_workbook
    → c'.list_action_names ≡ c.list_action_names
    → reconcile_workbook yaml c' true file required w
      ≡ reconcile_workbook yaml c true file required w
unfolding reconcile_workbook
reconcile_workbook-check_mode yaml c c' file required w same_list same_get same_actions i =
    (lift (normalize_workbook_yaml yaml file) >>= λ desired.
    actions-same yaml c c' same_list same_get same_actions required i >>= λ _.
    same_list i >>= λ found.
    listed-same yaml c c' same_list same_get same_actions desired
      (select (λ workbook. value_eq workbook.name (text desired.name)) found) i)
      w
