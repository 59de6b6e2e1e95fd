-- ===== src/Endpoints/Users/Bindings.antt =====
-- internal/endpoints/users/users.go: the count of users, and the groups and roles of a user.
use cxone_sdk_golang.Prelude.{
  ℕ, ◌==◌, true, not, ◌||◌, String, Option, none, some, List, [], ◌∷◌, if◌then◌else◌,
}
use cxone_sdk_golang.Prelude.Int.{pos}
use cxone_sdk_golang.Prelude.Text.{str_eq, concat, decimal}
use cxone_sdk_golang.Errors.{Error, nil, is_nil, configuration_error, response_error}
use cxone_sdk_golang.Errors.Message.{message}
use cxone_sdk_golang.Transport.Types.{Request, Response}
use cxone_sdk_golang.Transport.Json.{Query}
use cxone_sdk_golang.Endpoints.{fetch, send, as_slice}
use cxone_sdk_golang.Endpoints.Filters.{UserFilter, user_query}
use cxone_sdk_golang.Endpoints.Users.{
  UserApi, Role, users_url, ok_codes, no_content, required, both_required,
}

module _ {W : Type 0} (api : UserApi W) where
  -- appendRawQuery
  unfoldable pub append_raw_query : String → Query → String × Error
  append_raw_query url [] = (url, nil)
  append_raw_query url (q ∷ qs) = api.funnel.add_query url (q ∷ qs)

  abbrev pub count_refused : String → Response → String → Error → Error
  count_refused url resp reason cause =
      response_error
        (record {
          method = "GET";
          url = url;
          status_code = resp.status_code;
          correlation_id = resp.correlation_id;
          reason = reason;
        })
        cause

  -- what is made of the body of a count
  unfoldable pub counted : String → Response → String × Error → ℕ × Error
  counted url resp (body, e) =
      if not (is_nil e)
      then (0, count_refused url resp (concat "read count body: " (message e)) e)
      else if not (resp.status_code == 200)
      then (0, count_refused url resp (concat "unexpected status " (decimal resp.status_code)) nil)
      else (let (n, bad) = api.parse_uint body in
          if is_nil bad
          then (n, nil)
          else (0, count_refused url resp (concat "parse count body: " (message bad)) bad))

  unfoldable pub count_answer : String → (Option Response × Error) × W → (ℕ × Error) × W
  count_answer url ((none, e), w) = ((0, e), w)
  count_answer url ((some resp, e), w) =
      if is_nil e
      then (let (r, w') = api.funnel.read resp.body 1_024 w in
          (counted url resp r, api.funnel.close resp.body w'))
      else ((0, e), w)

  abbrev pub count_request : String → Request W
  count_request url = record {
    view = record { method = "GET"; url = url; header = []; content_type = ""; timeout = pos 0 };
    body = none;
  }

  unfoldable pub count_at : String × Error → W → (ℕ × Error) × W
  count_at (url, e) w =
      if is_nil e
      then count_answer url (api.funnel.do_request (count_request url) w)
      else ((0, configuration_error "url" (message e)), w)

  -- Count
  unfoldable pub count_users : UserFilter → W → (ℕ × Error) × W
  count_users filter w =
      count_at (append_raw_query (users_url api ("/count" ∷ [])) (user_query filter true)) w

  -- AssignGroup
  unfoldable pub assign_group : String → String → W → Error × W
  assign_group id group w =
      if str_eq id "" || str_eq group ""
      then (both_required "userID/groupID", w)
      else send api.funnel api.nothing "PUT" (users_url api ("/" ∷ id ∷ "/groups/" ∷ group ∷ []))
          none no_content w

  -- RemoveGroup
  unfoldable pub remove_group : String → String → W → Error × W
  remove_group id group w =
      if str_eq id "" || str_eq group ""
      then (both_required "userID/groupID", w)
      else send api.funnel api.nothing "DELETE" (users_url api ("/" ∷ id ∷ "/groups/" ∷ group ∷ []))
          none no_content w

  abbrev client_roles_url : String → String → String
  client_roles_url id client = users_url api ("/" ∷ id ∷ "/role-mappings/clients/" ∷ client ∷ [])

  abbrev realm_roles_url : String → String
  realm_roles_url id = users_url api ("/" ∷ id ∷ "/role-mappings/realm" ∷ [])

  -- GetClientRoles
  unfoldable pub get_client_roles : String → String → W → (List Role × Error) × W
  get_client_roles id client w =
      if str_eq id "" || str_eq client ""
      then (([], both_required "userID/clientID"), w)
      else as_slice
          (fetch api.funnel api.roles "GET" (client_roles_url id client) [] none ok_codes [] w)

  -- AddClientRoles
  unfoldable pub add_client_roles : String → String → List Role → W → Error × W
  add_client_roles id client roles w =
      if str_eq id "" || str_eq client ""
      then (both_required "userID/clientID", w)
      else send api.funnel api.roles "POST" (client_roles_url id client) (some roles) no_content w

  -- RemoveClientRoles
  unfoldable pub remove_client_roles : String → String → List Role → W → Error × W
  remove_client_roles id client roles w =
      if str_eq id "" || str_eq client ""
      then (both_required "userID/clientID", w)
      else send api.funnel api.roles "DELETE" (client_roles_url id client) (some roles) no_content w

  -- GetRealmRoles
  unfoldable pub get_realm_roles : String → W → (List Role × Error) × W
  get_realm_roles id w =
      if str_eq id ""
      then (([], required "userID"), w)
      else as_slice (fetch api.funnel api.roles "GET" (realm_roles_url id) [] none ok_codes [] w)

  -- AddRealmRoles
  unfoldable pub add_realm_roles : String → List Role → W → Error × W
  add_realm_roles id roles w =
      if str_eq id ""
      then (required "userID", w)
      else send api.funnel api.roles "POST" (realm_roles_url id) (some roles) no_content w

  -- RemoveRealmRoles
  unfoldable pub remove_realm_roles : String → List Role → W → Error × W
  remove_realm_roles id roles w =
      if str_eq id ""
      then (required "userID", w)
      else send api.funnel api.roles "DELETE" (realm_roles_url id) (some roles) no_content w
