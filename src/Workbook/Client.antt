-- ===== src/Workbook/Client.antt =====
-- `MistralRestClient` of powerops_mistral_workbook.py.
use Prim.Native.Char.{code}
use irnmn.Prelude.{String, ◌&&◌, is_blank, nat_eq, List, ◌&◌, Option, none, some, if◌then◌else◌}
use irnmn.Values.{Value}
use irnmn.Effect.{Exec, pure, raise, reconciliation_error, ◌>>=◌}

pub record Workbook : Type 0 where
  pub name : Value
  pub definition : Value

-- keystoneauth's session, with the JSON of its responses as the code reads it. A list that the JSON
-- lacks reads as the empty one. `post` and `put` send a text for the scope `private`.
pub record Session (W : Type 0) : Type 0 where
  pub get_endpoint : Exec W (Option String)
  pub get_workbooks : String → Exec W (List Workbook)
  pub get_one_workbook : String → Exec W Workbook
  pub get_actions : String → Exec W (List String)
  pub post : String → String → Exec W (Unit {0})
  pub put : String → String → Exec W (Unit {0})
  -- `parse.quote(name, safe="")`
  pub quote : String → String

-- The operations that `reconcile_workbook` calls.
pub record MistralClient (W : Type 0) : Type 0 where
  pub list_workbooks : Exec W (List Workbook)
  pub get_workbook : String → Exec W Workbook
  pub create_workbook : String → Exec W (Unit {0})
  pub update_workbook : String → Exec W (Unit {0})
  pub list_action_names : Exec W (List String)

-- `s.rstrip("/")`
unfoldable pub rstrip_slash : String → String
rstrip_slash String.[] = ""
rstrip_slash (String.◌∷◌ c s) =
    let rest = rstrip_slash s in
    if nat_eq (code c) 47 && is_blank rest then "" else String.◌∷◌ c rest

module _ {W : Type 0} (session : Session W) where
  unfoldable pub rest_client : String → MistralClient W
  rest_client endpoint = record {
    list_workbooks = session.get_workbooks (endpoint & "/workbooks");
    get_workbook = λ name. session.get_one_workbook (endpoint & "/workbooks/" & session.quote name);
    create_workbook = λ definition. session.post (endpoint & "/workbooks") definition;
    update_workbook = λ definition. session.put (endpoint & "/workbooks") definition;
    list_action_names = session.get_actions (endpoint & "/actions");
  }

  abbrev pub at_endpoint : Option String → Exec W (MistralClient W)
  at_endpoint none = raise (reconciliation_error "Mistral workflowv2 endpoint was not found")
  at_endpoint (some endpoint) =
      if is_blank endpoint
      then raise (reconciliation_error "Mistral workflowv2 endpoint was not found")
      else pure (rest_client (rstrip_slash endpoint))

  -- The constructor.
  unfoldable pub connect : Exec W (MistralClient W)
  unfolding rest_client rstrip_slash
  connect = session.get_endpoint >>= at_endpoint
