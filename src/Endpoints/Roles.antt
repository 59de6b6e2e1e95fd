-- ===== src/Endpoints/Roles.antt =====
-- internal/endpoints/roles/roles.go: the roles of the tenant.
use cxone_sdk_golang.Prelude.{
  ◌||◌, String, Option, none, some, List, [], ◌∷◌, map, false, if◌then◌else◌,
}
use cxone_sdk_golang.Prelude.Text.{str_eq, concat_all}
use cxone_sdk_golang.Errors.{Error}
use cxone_sdk_golang.Transport.Json.{Query}
use cxone_sdk_golang.Endpoints.{Funnel, Codec, fetch, send, as_slice}
use cxone_sdk_golang.Endpoints.Url.{join_url}
use cxone_sdk_golang.Endpoints.Users.{Role, ok_codes, no_content, required, both_required}

-- what the package is given; the ids of a payload are texts
pub record RoleApi (W : Type 0) : Type 0 where
  pub funnel : Funnel W
  pub iam : String
  pub roles : Codec Unit (List Role)
  pub role : Codec Role Role
  pub ids : Codec (List String) Unit
  pub nothing : Codec Unit Unit
  pub path_escape : String → String

-- Role{}
abbrev pub zero_role : Role
zero_role = record { id = ""; name = ""; composite = false }

abbrev brief : String → Query
brief b = ("briefRepresentation", b ∷ []) ∷ []

-- compactRoleIDs
abbrev pub compact_role_ids : List Role → List String
compact_role_ids roles = map (λ r. r.id) roles

module _ {W : Type 0} (api : RoleApi W) where
  abbrev pub roles_url : List String → String
  roles_url path = join_url api.iam (concat_all path)

  abbrev client_roles : String → String
  client_roles client = roles_url ("clients/" ∷ client ∷ "/roles" ∷ [])

  abbrev composites_url : String → String
  composites_url id = roles_url ("roles-by-id/" ∷ id ∷ "/composites" ∷ [])

  -- ListRealm
  unfoldable pub list_realm : W → (List Role × Error) × W
  list_realm w = as_slice (
      fetch api.funnel api.roles "GET" (roles_url ("roles" ∷ [])) (brief "true") none ok_codes [] w)

  -- GetRealmByName
  unfoldable pub get_realm_by_name : String → W → (Option Role × Error) × W
  get_realm_by_name name w =
      if str_eq name ""
      then ((none, required "name"), w)
      else fetch api.funnel api.role "GET" (roles_url ("roles/" ∷ api.path_escape name ∷ [])) []
          none ok_codes zero_role w

  -- SearchRealm
  unfoldable pub search_realm : String → W → (List Role × Error) × W
  search_realm search w = as_slice (
      fetch api.funnel api.roles "GET" (roles_url ("roles" ∷ []))
        (("search", search ∷ []) ∷ brief "false") none ok_codes [] w)

  -- ListClient
  unfoldable pub list_client : String → W → (List Role × Error) × W
  list_client client w =
      if str_eq client ""
      then (([], required "clientID"), w)
      else as_slice
          (fetch api.funnel api.roles "GET" (client_roles client) (brief "true") none ok_codes [] w)

  -- GetClientByName
  unfoldable pub get_client_by_name : String → String → W → (Option Role × Error) × W
  get_client_by_name client name w =
      if str_eq client "" || str_eq name ""
      then ((none, both_required "clientID/name"), w)
      else fetch api.funnel api.role "GET"
          (roles_url ("clients/" ∷ client ∷ "/roles/" ∷ api.path_escape name ∷ [])) [] none ok_codes
          zero_role w

  -- SearchClient
  unfoldable pub search_client : String → String → W → (List Role × Error) × W
  search_client client search w =
      if str_eq client ""
      then (([], required "clientID"), w)
      else as_slice (
          fetch api.funnel api.roles "GET" (client_roles client)
            (("search", search ∷ []) ∷ brief "false") none ok_codes [] w)

  -- CreateClient
  unfoldable pub create_client_role : String → Option Role → W → Error × W
  create_client_role client none w =
      (required (if str_eq client "" then "clientID" else "role.Name"), w)
  create_client_role client (some r) w =
      if str_eq client ""
      then (required "clientID", w)
      else if str_eq r.name ""
      then (required "role.Name", w)
      else send api.funnel api.role "POST" (client_roles client) (some r) (201 ∷ 200 ∷ 204 ∷ []) w

  -- GetByID
  unfoldable pub get_role : String → W → (Option Role × Error) × W
  get_role id w =
      if str_eq id ""
      then ((none, required "roleID"), w)
      else fetch api.funnel api.role "GET" (roles_url ("roles-by-id/" ∷ id ∷ [])) [] none ok_codes
          zero_role w

  -- DeleteByID
  unfoldable pub delete_role : String → W → Error × W
  delete_role id w =
      if str_eq id ""
      then (required "roleID", w)
      else send api.funnel api.nothing "DELETE" (roles_url ("roles-by-id/" ∷ id ∷ [])) none
          no_content w

  -- GetComposites
  unfoldable pub get_composites : String → W → (List Role × Error) × W
  get_composites id w =
      if str_eq id ""
      then (([], required "roleID"), w)
      else as_slice (fetch api.funnel api.roles "GET" (composites_url id) [] none ok_codes [] w)

  -- AddComposites
  unfoldable pub add_composites : String → List Role → W → Error × W
  add_composites id subs w =
      if str_eq id ""
      then (required "roleID", w)
      else send api.funnel api.ids "POST" (composites_url id) (some (compact_role_ids subs))
          no_content w

  -- RemoveComposites
  unfoldable pub remove_composites : String → List Role → W → Error × W
  remove_composites id subs w =
      if str_eq id ""
      then (required "roleID", w)
      else send api.funnel api.ids "DELETE" (composites_url id) (some (compact_role_ids subs))
          no_content w
