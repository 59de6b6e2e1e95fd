-- ===== src/Endpoints/Users.antt =====
-- internal/endpoints/users/users.go: the users of the tenant.
pub mod Bindings
use cxone_sdk_golang.Prelude.{
  ℕ, ◌==◌, Bool, true, false, not, ◌&&◌, ◌||◌, String, Option, none, some, List, [], ◌∷◌,
  if◌then◌else◌,
}
use cxone_sdk_golang.Prelude.Text.{str_eq, concat, decimal, concat_all}
use cxone_sdk_golang.Errors.{Error, nil, is_nil, configuration_error, response_error}
use cxone_sdk_golang.Errors.Message.{message}
use cxone_sdk_golang.Transport.Types.{Request, Response}
use cxone_sdk_golang.Endpoints.{Funnel, Codec, fetch, send, as_slice}
use cxone_sdk_golang.Endpoints.Url.{join_url}
use cxone_sdk_golang.Endpoints.Create.{create_and_extract_id}
use cxone_sdk_golang.Endpoints.Filters.{UserFilter, user_query}

pub record UserFederatedIdentity : Type 0 where
  pub identity_provider : String
  pub user_id : String
  pub user_name : String

-- the fields of User that the program reads or writes
pub record User : Type 0 where
  pub id : String
  pub username : String
  pub email : String
  pub required_actions : List String
  pub federated_identities : List UserFederatedIdentity
  pub totp : Option Bool

-- User{}
abbrev pub zero_user : User
zero_user = record {
  id = "";
  username = "";
  email = "";
  required_actions = [];
  federated_identities = [];
  totp = none;
}

-- the role, with the fields that the program reads
pub record Role : Type 0 where
  pub id : String
  pub name : String
  pub composite : Bool

-- the group, with the fields that the program reads
pub record Group : Type 0 where
  pub id : String
  pub name : String

-- what the package is given: the funnel, the URL of the realm's administration, encoding/json for
-- the types it meets, and strconv.ParseUint of a text without the space around it
pub record UserApi (W : Type 0) : Type 0 where
  pub funnel : Funnel W
  pub iam : String
  pub users : Codec Unit (List User)
  pub user : Codec User User
  pub groups : Codec Unit (List Group)
  pub roles : Codec (List Role) (List Role)
  pub nothing : Codec Unit Unit
  pub parse_uint : String → ℕ × Error

abbrev pub ok_codes : List ℕ
ok_codes = 200 ∷ []

abbrev pub no_content : List ℕ
no_content = 204 ∷ 200 ∷ []

-- an argument that has to be there
abbrev pub required : String → Error
required field = configuration_error field "is required"

abbrev pub both_required : String → Error
both_required field = configuration_error field "both are required"

module _ {W : Type 0} (api : UserApi W) where
  abbrev pub users_url : List String → String
  users_url path = join_url api.iam (concat "users" (concat_all path))

  -- List
  unfoldable pub list_users : UserFilter → W → (List User × Error) × W
  list_users filter w =
      as_slice (
        fetch api.funnel api.users "GET" (users_url []) (user_query filter false) none ok_codes []
          w)

  -- Get
  unfoldable pub get_user : String → W → (Option User × Error) × W
  get_user id w =
      if str_eq id ""
      then ((none, required "userID"), w)
      else fetch api.funnel api.user "GET" (users_url ("/" ∷ id ∷ []))
          (("briefRepresentation", "false" ∷ []) ∷ []) none ok_codes zero_user w

  -- with the id of the new user
  unfoldable pub fetched_new : (String × Error) × W → (Option User × Error) × W
  fetched_new ((id, e), w) = if is_nil e then get_user id w else ((none, e), w)

  -- Create
  unfoldable pub create_user : Option User → W → (Option User × Error) × W
  create_user none w = ((none, required "user"), w)
  create_user (some u) w =
      fetched_new (create_and_extract_id api.funnel api.user "user" "Create" (users_url []) u w)

  -- Update
  unfoldable pub update_user : Option User → W → Error × W
  update_user none w = (required "user.ID", w)
  update_user (some u) w =
      if str_eq u.id ""
      then (required "user.ID", w)
      else send api.funnel api.user "PUT" (users_url ("/" ∷ u.id ∷ [])) (some u) no_content w

  -- what is posted for a SAML user
  abbrev pub saml_payload : User → String → String → String → User
  saml_payload u alias user_id user_name = record u {
    totp = some false;
    federated_identities =
        record { identity_provider = alias; user_id = user_id; user_name = user_name } ∷ [];
  }

  -- the update and the last fetch of CreateSAML
  unfoldable pub refetched : String → Error × W → (Option User × Error) × W
  refetched id (e, w) = if is_nil e then get_user id w else ((none, e), w)

  unfoldable pub scrubbed : String → (Option User × Error) × W → (Option User × Error) × W
  scrubbed id ((none, e), w) = ((none, e), w)
  scrubbed id ((some u, e), w) =
      if is_nil e
      then refetched id (update_user (some (record u { required_actions = [] })) w)
      else ((none, e), w)

  unfoldable pub saml_created : (String × Error) × W → (Option User × Error) × W
  saml_created ((id, e), w) = if is_nil e then scrubbed id (get_user id w) else ((none, e), w)

  -- CreateSAML
  unfoldable pub create_saml_user :
      Option User → String → String → String → W → (Option User × Error) × W
  create_saml_user none alias user_id user_name w = ((none, required "user"), w)
  create_saml_user (some u) alias user_id user_name w =
      if str_eq alias "" || (str_eq user_id "" || str_eq user_name "")
      then (
        (none, configuration_error "idp*" "idpAlias, idpUserID, and idpUserName are required"),
        w,
      )
      else saml_created (
          create_and_extract_id api.funnel api.user "user" "Create" (users_url [])
            (saml_payload u alias user_id user_name) w)

  -- Delete
  unfoldable pub delete_user : String → W → Error × W
  delete_user id w =
      if str_eq id ""
      then (required "userID", w)
      else send api.funnel api.nothing "DELETE" (users_url ("/" ∷ id ∷ [])) none no_content w

  -- GetGroups
  unfoldable pub get_user_groups : String → W → (List Group × Error) × W
  get_user_groups id w =
      if str_eq id ""
      then (([], required "userID"), w)
      else as_slice (
          fetch api.funnel api.groups "GET" (users_url ("/" ∷ id ∷ "/groups" ∷ [])) [] none ok_codes
            [] w)
