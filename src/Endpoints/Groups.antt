-- ===== src/Endpoints/Groups.antt =====
-- internal/endpoints/groups/groups.go: the groups of the tenant.
use cxone_sdk_golang.Prelude.{
  ℕ, true, false, ◌||◌, String, Option, none, some, List, [], ◌∷◌, if◌then◌else◌,
}
use cxone_sdk_golang.Prelude.Int.{ℤ}
use cxone_sdk_golang.Prelude.Text.{str_eq, concat, concat_all, to_lower}
use cxone_sdk_golang.Errors.{Error, is_nil}
use cxone_sdk_golang.Endpoints.{Funnel, Codec, fetch, send, as_slice}
use cxone_sdk_golang.Endpoints.Url.{join_url}
use cxone_sdk_golang.Endpoints.Create.{create_and_extract_id}
use cxone_sdk_golang.Endpoints.Filters.{GroupFilter, group_query, set_text, set_number}
use cxone_sdk_golang.Endpoints.Users.{
  User, Role, Group, ok_codes, no_content, required, both_required,
}

-- what the package is given
pub record GroupApi (W : Type 0) : Type 0 where
  pub funnel : Funnel W
  pub base : String
  pub iam : String
  pub groups : Codec Unit (List Group)
  pub group : Codec Group Group
  pub count : Codec Unit ℕ
  pub members : Codec Unit (List User)
  pub roles : Codec (List Role) (List Role)
  pub nothing : Codec Unit Unit

-- Group{}
abbrev pub zero_group : Group
zero_group = record { id = ""; name = "" }

abbrev created_codes : List ℕ
created_codes = 201 ∷ 200 ∷ []

-- strings.TrimPrefix(s, "/")
unfoldable pub trim_slash : String → String
trim_slash String.[] = String.[]
trim_slash (String.◌∷◌ c s) = if str_eq (String.◌∷◌ c String.[]) "/" then s else String.◌∷◌ c s

module _ {W : Type 0} (api : GroupApi W) where
  abbrev pub groups_url : List String → String
  groups_url path = join_url api.iam (concat "groups" (concat_all path))

  -- List
  unfoldable pub list_tenant_groups : String → String → W → (List Group × Error) × W
  list_tenant_groups tenant name w =
      if str_eq tenant ""
      then (([], required "tenant"), w)
      else as_slice (
          fetch api.funnel api.groups "GET"
            (join_url api.base (concat "auth/realms/" (concat (to_lower tenant) "/pip/groups")))
            (set_text "groupName" name []) none ok_codes [] w)

  -- ListAdmin
  unfoldable pub list_groups : GroupFilter → W → (List Group × Error) × W
  list_groups filter w = as_slice (
      fetch api.funnel api.groups "GET" (groups_url []) (group_query filter false) none ok_codes []
        w)

  abbrev count_of : (Option ℕ × Error) × W → (ℕ × Error) × W
  count_of ((none, e), w) = ((0, e), w)
  count_of ((some n, e), w) = ((n, e), w)

  -- Count
  unfoldable pub count_groups : GroupFilter → W → (ℕ × Error) × W
  count_groups filter w = count_of (
      fetch api.funnel api.count "GET" (groups_url ("/count" ∷ [])) (group_query filter true) none
        ok_codes 0 w)

  -- GetByID
  unfoldable pub get_group : String → W → (Option Group × Error) × W
  get_group id w =
      if str_eq id ""
      then ((none, required "groupID"), w)
      else fetch api.funnel api.group "GET" (groups_url ("/" ∷ id ∷ []))
          (("briefRepresentation", "false" ∷ []) ∷ []) none ok_codes zero_group w

  -- GetByPath
  unfoldable pub get_group_by_path : String → W → (Option Group × Error) × W
  get_group_by_path path w =
      if str_eq path ""
      then ((none, required "path"), w)
      else fetch api.funnel api.group "GET"
          (join_url api.iam (concat "group-by-path/" (trim_slash path))) [] none ok_codes zero_group
          w

  -- GetChildren
  unfoldable pub get_children : String → ℤ → ℤ → W → (List Group × Error) × W
  get_children id first max w =
      if str_eq id ""
      then (([], required "groupID"), w)
      else as_slice (
          fetch api.funnel api.groups "GET" (groups_url ("/" ∷ id ∷ "/children" ∷ []))
            (set_number "max" max
              (set_number "first" first (("briefRepresentation", "false" ∷ []) ∷ [])))
            none ok_codes [] w)

  -- with the id of the new group
  unfoldable pub fetched_group : (String × Error) × W → (Option Group × Error) × W
  fetched_group ((id, e), w) = if is_nil e then get_group id w else ((none, e), w)

  -- CreateAdmin
  unfoldable pub create_group : Option Group → W → (Option Group × Error) × W
  create_group none w = ((none, required "group.Name"), w)
  create_group (some g) w =
      if str_eq g.name ""
      then ((none, required "group.Name"), w)
      else fetched_group
          (create_and_extract_id api.funnel api.group "body" "create" (groups_url []) g w)

  -- CreateChild
  unfoldable pub create_child : String → Option Group → W → (Option Group × Error) × W
  create_child parent none w =
      ((none, required (if str_eq parent "" then "parentID" else "group.Name")), w)
  create_child parent (some g) w =
      if str_eq parent ""
      then ((none, required "parentID"), w)
      else if str_eq g.name ""
      then ((none, required "group.Name"), w)
      else fetch api.funnel api.group "POST" (groups_url ("/" ∷ parent ∷ "/children" ∷ [])) []
          (some g) created_codes zero_group w

  -- UpdateAdmin
  unfoldable pub update_group : Option Group → W → Error × W
  update_group none w = (required "group.ID", w)
  update_group (some g) w =
      if str_eq g.id ""
      then (required "group.ID", w)
      else send api.funnel api.group "PUT" (groups_url ("/" ∷ g.id ∷ [])) (some g) no_content w

  -- DeleteAdmin
  unfoldable pub delete_group : String → W → Error × W
  delete_group id w =
      if str_eq id ""
      then (required "groupID", w)
      else send api.funnel api.nothing "DELETE" (groups_url ("/" ∷ id ∷ [])) none no_content w

  -- GetMembers
  unfoldable pub get_members : String → W → (List User × Error) × W
  get_members id w =
      if str_eq id ""
      then (([], required "groupID"), w)
      else as_slice (
          fetch api.funnel api.members "GET" (groups_url ("/" ∷ id ∷ "/members" ∷ [])) [] none
            ok_codes [] w)

  abbrev group_realm_url : String → String
  group_realm_url id = groups_url ("/" ∷ id ∷ "/role-mappings/realm" ∷ [])

  abbrev group_client_url : String → String → String
  group_client_url id client = groups_url ("/" ∷ id ∷ "/role-mappings/clients/" ∷ client ∷ [])

  -- GetRealmRoles
  unfoldable pub get_group_realm_roles : String → W → (List Role × Error) × W
  get_group_realm_roles id w =
      if str_eq id ""
      then (([], required "groupID"), w)
      else as_slice (fetch api.funnel api.roles "GET" (group_realm_url id) [] none ok_codes [] w)

  -- AddRealmRoles
  unfoldable pub add_group_realm_roles : String → List Role → W → Error × W
  add_group_realm_roles id roles w =
      if str_eq id ""
      then (required "groupID", w)
      else send api.funnel api.roles "POST" (group_realm_url id) (some roles) no_content w

  -- RemoveRealmRoles
  unfoldable pub remove_group_realm_roles : String → List Role → W → Error × W
  remove_group_realm_roles id roles w =
      if str_eq id ""
      then (required "groupID", w)
      else send api.funnel api.roles "DELETE" (group_realm_url id) (some roles) no_content w

  -- GetClientRoles
  unfoldable pub get_group_client_roles : String → String → W → (List Role × Error) × W
  get_group_client_roles id client w =
      if str_eq id "" || str_eq client ""
      then (([], both_required "groupID/clientID"), w)
      else as_slice
          (fetch api.funnel api.roles "GET" (group_client_url id client) [] none ok_codes [] w)

  -- AddClientRoles
  unfoldable pub add_group_client_roles : String → String → List Role → W → Error × W
  add_group_client_roles id client roles w =
      if str_eq id "" || str_eq client ""
      then (both_required "groupID/clientID", w)
      else send api.funnel api.roles "POST" (group_client_url id client) (some roles) no_content w

  -- RemoveClientRoles
  unfoldable pub remove_group_client_roles : String → String → List Role → W → Error × W
  remove_group_client_roles id client roles w =
      if str_eq id "" || str_eq client ""
      then (both_required "groupID/clientID", w)
      else send api.funnel api.roles "DELETE" (group_client_url id client) (some roles) no_content w
