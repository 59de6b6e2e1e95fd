-- ===== src/GetOrCreate.antt =====
-- workflows/users/helpers.go, workflows/groups/helpers.go and workflows/clients/helpers.go: what is
-- looked up by name, and created if it is not there.
pub mod Cases
pub mod AppId
pub mod Projects
mod Examples
use cxone_sdk_golang.Prelude.{
  ◌≡◌, Bool, true, false, String, Option, none, some, List, [], ◌∷◌, if◌then◌else◌,
}
use cxone_sdk_golang.Prelude.Int.{pos}
use cxone_sdk_golang.Prelude.Text.{str_eq, concat, quoted}
use cxone_sdk_golang.Errors.{Error, nil, is_nil, wrapped}
use cxone_sdk_golang.Errors.Message.{message}
use cxone_sdk_golang.Endpoints.Filters.{UserFilter, any_user, GroupFilter, any_group}
use cxone_sdk_golang.Endpoints.Users.{User, UserApi, Group, list_users, create_user, required}
use cxone_sdk_golang.Endpoints.Groups.{GroupApi, list_groups, create_group}
use cxone_sdk_golang.Endpoints.Clients.{
  OidcClient, OidcClientFilter, ClientApi, zero_client, list_clients, create_client,
}

-- what is found, if it is, and the error
abbrev pub Found : Type 0 → Type 0 → Type 0
Found W A = (Option A × Error) × W

-- the loop over a listing that returns the first match
unfoldable pub first_match : {A : Type 0} → (A → Bool) → List A → Option A
first_match p [] = none
first_match p (x ∷ xs) = if p x then some x else first_match p xs

module _ {W A : Type 0} where
  -- the first match of a listing, or its error
  unfoldable pub found_in : (A → Bool) → (List A × Error) × W → Found W A
  found_in p ((xs, e), w) = if is_nil e then ((first_match p xs, nil), w) else ((none, e), w)

  -- what the lookup found, or what is made by `create` if there is nothing; `what` and `name` are
  -- for the message of the error
  unfoldable pub or_created : String → String → (W → Found W A) → Found W A → Found W A
  or_created what name create ((o, e), w) =
      if is_nil e then elim o [ some a ↦ ((some a, nil), w) | none ↦ create w ] else (
        (
          none,
          wrapped
              (concat "lookup "
                (concat what (concat " " (concat (quoted name) (concat ": " (message e))))))
              e,
        ),
        w,
      )

abbrev pub username_filter : String → UserFilter
username_filter name = record (any_user) { max = pos 10; username = name; exact = some false }

abbrev pub email_filter : String → UserFilter
email_filter email = record (any_user) { max = pos 10; email = email; exact = some false }

abbrev pub has_username : String → User → Bool
has_username name u = str_eq u.username name

abbrev has_email : String → User → Bool
has_email email u = str_eq u.email email

abbrev pub group_filter : String → GroupFilter
group_filter name = record (any_group) { search = name; max = pos 20 }

abbrev has_name : String → Group → Bool
has_name name g = str_eq g.name name

abbrev pub client_filter : String → OidcClientFilter
client_filter name = record {
  first = pos 0;
  max = pos 10;
  client_id = name;
  q = "";
  search = some false;
  viewable_only = none;
}

abbrev pub has_client_id : String → OidcClient → Bool
has_client_id name c = str_eq c.client_id name

-- the client that is created under the name, given the defaults
unfoldable pub client_to_create : String → Option OidcClient → OidcClient
client_to_create name none = record {
  id = "";
  client_id = name;
  protocol = "openid-connect";
  public_client = false;
  service_accounts_enabled = true;
}
client_to_create name (some c) = record {
  id = c.id;
  client_id = name;
  protocol = if str_eq c.protocol "" then "openid-connect" else c.protocol;
  public_client = false;
  service_accounts_enabled = true;
}

module _ {W : Type 0} where
  -- findByUsername
  unfoldable pub find_by_username : UserApi W → String → W → Found W User
  find_by_username api name w =
      found_in (has_username name) (list_users api (username_filter name) w)

  -- findByEmail
  unfoldable pub find_by_email : UserApi W → String → W → Found W User
  find_by_email api email w = found_in (has_email email) (list_users api (email_filter email) w)

  -- GetOrCreateByUsername
  unfoldable pub get_or_create_by_username : Option (UserApi W) → Option User → W → Found W User
  get_or_create_by_username none template w = ((none, required "backend"), w)
  get_or_create_by_username (some api) none w = ((none, required "user.Username"), w)
  get_or_create_by_username (some api) (some template) w =
      if str_eq template.username ""
      then ((none, required "user.Username"), w)
      else or_created "user" template.username (create_user api (some template))
          (find_by_username api template.username w)

  -- GetOrCreateByEmail
  unfoldable pub get_or_create_by_email : Option (UserApi W) → Option User → W → Found W User
  get_or_create_by_email none template w = ((none, required "backend"), w)
  get_or_create_by_email (some api) none w = ((none, required "user.Email"), w)
  get_or_create_by_email (some api) (some template) w =
      if str_eq template.email ""
      then ((none, required "user.Email"), w)
      else or_created "user" template.email (create_user api (some template))
          (find_by_email api template.email w)

  -- findByName of the groups
  unfoldable pub find_group : GroupApi W → String → W → Found W Group
  find_group api name w = found_in (has_name name) (list_groups api (group_filter name) w)

  -- GetOrCreateByName of the groups
  unfoldable pub get_or_create_group : Option (GroupApi W) → String → W → Found W Group
  get_or_create_group none name w = ((none, required "backend"), w)
  get_or_create_group (some api) name w =
      if str_eq name ""
      then ((none, required "name"), w)
      else or_created "group" name (create_group api (some (record { id = ""; name = name })))
          (find_group api name w)

  -- findByName of the clients
  unfoldable pub find_client : ClientApi W → String → W → Found W OidcClient
  find_client api name w = found_in (has_client_id name) (list_clients api (client_filter name) w)

  -- the lookup after a client was created
  unfoldable pub found_created : ClientApi W → String → Error × W → Found W OidcClient
  found_created api name (e, w) = if is_nil e then find_client api name w else ((none, e), w)

  -- GetOrCreateByName of the clients
  unfoldable pub get_or_create_client :
      Option (ClientApi W) → String → Option OidcClient → W → Found W OidcClient
  get_or_create_client none name defaults w = ((none, required "backend"), w)
  get_or_create_client (some api) name defaults w =
      if str_eq name ""
      then ((none, required "name"), w)
      else or_created "client" name
          (λ v.
            found_created api name (create_client api (some (client_to_create name defaults)) v))
          (find_client api name w)
