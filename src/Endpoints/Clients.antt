-- ===== src/Endpoints/Clients.antt =====
-- internal/endpoints/clients/clients.go: the OIDC clients of the tenant.
use cxone_sdk_golang.Prelude.{
  Bool, false, ◌||◌, String, Option, none, some, List, [], ◌∷◌, if◌then◌else◌,
}
use cxone_sdk_golang.Prelude.Int.{ℤ}
use cxone_sdk_golang.Prelude.Text.{str_eq, concat, concat_all}
use cxone_sdk_golang.Errors.{Error}
use cxone_sdk_golang.Transport.Json.{Query}
use cxone_sdk_golang.Endpoints.{Funnel, Codec, fetch, send, as_slice}
use cxone_sdk_golang.Endpoints.Url.{join_url}
use cxone_sdk_golang.Endpoints.Filters.{set_text, set_number, set_flag}
use cxone_sdk_golang.Endpoints.Users.{
  User, zero_user, ok_codes, no_content, required, both_required,
}

-- the fields of OIDCClient that the program reads or writes
pub record OidcClient : Type 0 where
  pub id : String
  pub client_id : String
  pub protocol : String
  pub public_client : Bool
  pub service_accounts_enabled : Bool

-- OIDCClient{}
abbrev pub zero_client : OidcClient
zero_client = record {
  id = "";
  client_id = "";
  protocol = "";
  public_client = false;
  service_accounts_enabled = false;
}

pub record OidcClientFilter : Type 0 where
  pub first : ℤ
  pub max : ℤ
  pub client_id : String
  pub q : String
  pub search : Option Bool
  pub viewable_only : Option Bool

-- ClientSecretResponse
pub record ClientSecret : Type 0 where
  pub type_name : String
  pub value : String

pub record OidcClientScope : Type 0 where
  pub id : String
  pub name : String
  pub description : String
  pub protocol : String

-- what the package is given
pub record ClientApi (W : Type 0) : Type 0 where
  pub funnel : Funnel W
  pub iam : String
  pub clients : Codec Unit (List OidcClient)
  pub client : Codec OidcClient OidcClient
  pub secret : Codec Unit ClientSecret
  pub nothing : Codec Unit Unit
  pub service_user : Codec Unit User
  pub scopes : Codec Unit (List OidcClientScope)

-- buildQuery
unfoldable pub client_query : OidcClientFilter → Query
client_query f = set_flag "viewableOnly" f.viewable_only (
    set_flag "search" f.search (
      set_text "q" f.q
        (set_text "clientId" f.client_id (set_number "max" f.max (set_number "first" f.first [])))))

module _ {W : Type 0} (api : ClientApi W) where
  abbrev pub clients_url : List String → String
  clients_url path = join_url api.iam (concat "clients" (concat_all path))

  -- List
  unfoldable pub list_clients : OidcClientFilter → W → (List OidcClient × Error) × W
  list_clients filter w =
      as_slice (
        fetch api.funnel api.clients "GET" (clients_url []) (client_query filter) none ok_codes []
          w)

  -- Get
  unfoldable pub get_client : String → W → (Option OidcClient × Error) × W
  get_client id w =
      if str_eq id ""
      then ((none, required "clientUUID"), w)
      else fetch api.funnel api.client "GET" (clients_url ("/" ∷ id ∷ [])) [] none ok_codes
          zero_client w

  -- Create
  unfoldable pub create_client : Option OidcClient → W → Error × W
  create_client none w = (required "client.ClientID", w)
  create_client (some c) w =
      if str_eq c.client_id ""
      then (required "client.ClientID", w)
      else send api.funnel api.client "POST" (clients_url []) (some c) (201 ∷ 200 ∷ 204 ∷ []) w

  -- Update
  unfoldable pub update_client : Option OidcClient → W → Error × W
  update_client none w = (required "client.ID", w)
  update_client (some c) w =
      if str_eq c.id ""
      then (required "client.ID", w)
      else send api.funnel api.client "PUT" (clients_url ("/" ∷ c.id ∷ [])) (some c) no_content w

  -- Delete
  unfoldable pub delete_client : String → W → Error × W
  delete_client id w =
      if str_eq id ""
      then (required "clientUUID", w)
      else send api.funnel api.nothing "DELETE" (clients_url ("/" ∷ id ∷ [])) none no_content w

  -- GetSecret
  unfoldable pub get_secret : String → W → (Option ClientSecret × Error) × W
  get_secret id w =
      if str_eq id ""
      then ((none, required "clientUUID"), w)
      else fetch api.funnel api.secret "GET" (clients_url ("/" ∷ id ∷ "/client-secret" ∷ [])) []
          none ok_codes (record { type_name = ""; value = "" }) w

  -- RegenerateSecret
  unfoldable pub regenerate_secret : String → W → (Option ClientSecret × Error) × W
  regenerate_secret id w =
      if str_eq id ""
      then ((none, required "clientUUID"), w)
      else fetch api.funnel api.secret "POST" (clients_url ("/" ∷ id ∷ "/client-secret" ∷ [])) []
          none ok_codes (record { type_name = ""; value = "" }) w

  -- AddDefaultScope
  unfoldable pub add_default_scope : String → String → W → Error × W
  add_default_scope id scope w =
      if str_eq id "" || str_eq scope ""
      then (both_required "clientUUID/scopeID", w)
      else send api.funnel api.nothing "PUT"
          (clients_url ("/" ∷ id ∷ "/default-client-scopes/" ∷ scope ∷ [])) none no_content w

  -- RemoveDefaultScope
  unfoldable pub remove_default_scope : String → String → W → Error × W
  remove_default_scope id scope w =
      if str_eq id "" || str_eq scope ""
      then (both_required "clientUUID/scopeID", w)
      else send api.funnel api.nothing "DELETE"
          (clients_url ("/" ∷ id ∷ "/default-client-scopes/" ∷ scope ∷ [])) none no_content w

  -- GetServiceAccountUser
  unfoldable pub get_service_account_user : String → W → (Option User × Error) × W
  get_service_account_user id w =
      if str_eq id ""
      then ((none, required "clientUUID"), w)
      else fetch api.funnel api.service_user "GET"
          (clients_url ("/" ∷ id ∷ "/service-account-user" ∷ [])) [] none ok_codes zero_user w

  -- ListScopes
  unfoldable pub list_scopes : W → (List OidcClientScope × Error) × W
  list_scopes w =
      as_slice
        (fetch api.funnel api.scopes "GET" (join_url api.iam "client-scopes") [] none ok_codes [] w)
