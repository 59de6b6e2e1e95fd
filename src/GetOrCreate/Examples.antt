-- ===== src/GetOrCreate/Examples.antt =====
-- workflows/users, workflows/clients and workflows/projects: the theorems at concrete inputs.
use cxone_sdk_golang.Prelude.{ℕ, ◌≡◌, refl, false, none, some, [], ◌∷◌}
use cxone_sdk_golang.Prelude.Maps.{put}
use cxone_sdk_golang.Errors.{nil, opaque}
use cxone_sdk_golang.Scripted.Http.{answering, decoding}
use cxone_sdk_golang.Transport.Json.{
  append_query, addressed, with_body, received, answered, decoded, do_json,
}
use cxone_sdk_golang.Endpoints.{fetch, answer}
use cxone_sdk_golang.Endpoints.Users.{User, zero_user, UserApi, list_users, create_user}
use cxone_sdk_golang.Endpoints.Clients.{
  OidcClient, zero_client, ClientApi, client_query, list_clients,
}
use cxone_sdk_golang.Prelude.Int.{pos}
use cxone_sdk_golang.Endpoints.Projects.{ProjectApi, Application, ProjectResponseModel}
use cxone_sdk_golang.Endpoints.Filters.{set_text, set_number, set_flag}
use cxone_sdk_golang.GetOrCreate.{
  first_match, found_in, username_filter, has_username, get_or_create_by_username, find_client,
  or_created, get_or_create_client,
}
use cxone_sdk_golang.GetOrCreate.Cases.{
  Provides, get_or_create_by_username-Provides, get_or_create_client-name,
}
use cxone_sdk_golang.GetOrCreate.AppId.{AstAppIdCache, get_app_id, get_app_id-twice}
use cxone_sdk_golang.GetOrCreate.Projects.{get_or_create_in_application}
use cxone_sdk_golang.GetOrCreate.Projects.Located.{Located, get_or_create_in_application-Located}

abbrev ada : User
ada = record (zero_user) { id = "u-1"; username = "ada" }

abbrev user_api : UserApi ℕ
user_api = record {
  funnel = answering (λ n. "[]");
  iam = "https://iam.example.net/auth/admin/realms/t";
  users = decoding (λ s. ada ∷ []);
  user = decoding (λ s. ada);
  groups = decoding (λ s. []);
  roles = decoding (λ s. []);
  nothing = decoding (λ s. tt);
  parse_uint = λ s. (1, nil);
}

get_or_create_by_username-Provides_example :
    Provides
      (has_username "ada")
      (list_users user_api (username_filter "ada") 0)
      (create_user user_api (some ada))
      (get_or_create_by_username (some user_api) (some ada) 0)
get_or_create_by_username-Provides_example = get_or_create_by_username-Provides user_api ada 0 refl

abbrev app : OidcClient
app = record (zero_client) { id = "c-1"; client_id = "ast-app" }

abbrev client_api : ClientApi ℕ
client_api = record {
  funnel = answering (λ n. "[]");
  iam = "https://iam.example.net/auth/admin/realms/t";
  clients = decoding (λ s. app ∷ []);
  client = decoding (λ s. app);
  secret = decoding (λ s. record { type_name = "secret"; value = "s" });
  nothing = decoding (λ s. tt);
  service_user = decoding (λ s. ada);
  scopes = decoding (λ s. []);
}

get_or_create_client-name_example : app.client_id ≡ "ast-app"
unfolding get_or_create_client or_created find_client found_in first_match list_clients fetch answer
    do_json addressed with_body received answered decoded append_query client_query set_text
    set_number set_flag put
get_or_create_client-name_example =
    get_or_create_client-name (some client_api) "ast-app" none 0 app refl

-- a cache in which a call has failed before
abbrev failed_before : AstAppIdCache
failed_before = record { id = ""; err = opaque "connection reset"; loaded = false }

get_app_id-twice_example :
    ((get_app_id (some client_api) failed_before 0).0 ≡ ("c-1", nil))
    × (get_app_id
          (some client_api)
          (get_app_id (some client_api) failed_before 0).1.0
          (get_app_id (some client_api) failed_before 0).1.1
        ≡ (("c-1", opaque "connection reset"), (get_app_id (some client_api) failed_before 0).1))
unfolding find_client found_in first_match list_clients fetch answer do_json addressed with_body
    received answered decoded append_query client_query set_text set_number set_flag put
get_app_id-twice_example = get_app_id-twice client_api failed_before 0 app refl refl

abbrev shop : ProjectResponseModel
shop = record { id = "p-1"; name = "shop"; repo_url = ""; main_branch = "main" }

abbrev store : Application
store = record { id = "a-1"; name = "store" }

abbrev project_api : ProjectApi ℕ Unit
project_api = record {
  funnel = answering (λ n. "{}");
  base = "https://ast.example.net";
  project = decoding (λ s. shop);
  collection =
      decoding (λ s. record { total_count = 1; filtered_total_count = 1; projects = shop ∷ [] });
  branches = decoding (λ s. []);
  tags = decoding (λ s. []);
  configuration = decoding (λ s. []);
  patch = decoding (λ s. tt);
  ids = decoding (λ s. tt);
  moves = decoding (λ s. tt);
  nothing = decoding (λ s. tt);
  applications = decoding (λ s. record {
    total_count = pos 1;
    filtered_total_count = pos 1;
    applications = store ∷ [];
  });
  application = decoding (λ s. store);
}

get_or_create_in_application-Located_example :
    Located project_api "shop" "store" 0
      (get_or_create_in_application (some project_api) "shop" "store" 0)
get_or_create_in_application-Located_example =
    get_or_create_in_application-Located project_api "shop" "store" 0 refl
