-- ===== src/Readers/Examples.antt =====
-- workflows/users, workflows/roles, workflows/presets and workflows/projects: the theorems at
-- concrete inputs.
use cxone_sdk_golang.Prelude.{
  ℕ, zero, suc, ◌+◌, ◌==◌, ◌≡◌, refl, arith, true, false, none, some, [], ◌∷◌, if◌then◌else◌,
}
use cxone_sdk_golang.Prelude.Int.{pos, ltb_ℤ}
use cxone_sdk_golang.Prelude.Text.{str_eq}
use cxone_sdk_golang.Prelude.Maps.{get, put}
use cxone_sdk_golang.Errors.{nil, is_nil, opaque}
use cxone_sdk_golang.Scripted.Http.{answering, decoding}
use cxone_sdk_golang.Transport.Stream.{Funnel}
use cxone_sdk_golang.Transport.Json.{
  append_query, addressed, with_body, received, answered, decoded, do_json,
}
use cxone_sdk_golang.Endpoints.{fetch, answer}
use cxone_sdk_golang.Endpoints.Filters.{
  user_query, shared_user_query, set_text, set_number, set_flag,
}
use cxone_sdk_golang.Endpoints.Users.{User, zero_user, UserApi, Role, list_users}
use cxone_sdk_golang.Endpoints.Roles.{RoleApi, list_realm}
use cxone_sdk_golang.Endpoints.Presets.{PresetApi, zero_detail, get_preset}
use cxone_sdk_golang.Endpoints.Projects.{ProjectApi, ProjectResponseModel, get_configuration}
use cxone_sdk_golang.Readers.Users.{fetch_all_users, new_reader}
use cxone_sdk_golang.Readers.Users.Pages.{drop, Serves, Complete, fetch_all_users-Complete}
use cxone_sdk_golang.Readers.Users.Refinement.{list, by_email, ask, consult, runs, runs-refinement}
use cxone_sdk_golang.Readers.Roles.{RoleReader, ensure_roles, roles_loaded, composites}
use cxone_sdk_golang.Readers.Roles.Twice.{composites-twice}
use cxone_sdk_golang.Readers.Presets.{Preset, new_preset, preset_detail, preset_detail-twice}
use cxone_sdk_golang.Readers.Project.{handle_of}
use cxone_sdk_golang.Readers.Project.Lazy.{
  configurations, until_success, configurations-until_success,
}

abbrev ada : User
ada = record (zero_user) { id = "u-1"; username = "ada"; email = "ada@example.net" }

-- the first page has one user, and every later page none; what is asked for is the address
abbrev first_page_only : Funnel ℕ
first_page_only = record (answering (λ n. if n == 0 then "first" else "later")) {
  do_request = λ req w. (
    (
      some (record {
        status_code = 200;
        header = [];
        body = some (if str_eq req.url "first" then 0 else 1);
        closes_timer = false;
        attempt = 1;
        correlation_id = "";
      }),
      nil,
    ),
    w + 1,
  );
  add_query = λ u q. (elim (get "first" q) [ none ↦ "first" | some v ↦ "later" ], nil);
}

abbrev user_api : UserApi ℕ
user_api = record {
  funnel = first_page_only;
  iam = "https://iam.example.net/auth/admin/realms/t";
  users = decoding (λ s. if str_eq s "first" then ada ∷ [] else []);
  user = decoding (λ s. ada);
  groups = decoding (λ s. []);
  roles = decoding (λ s. []);
  nothing = decoding (λ s. tt);
  parse_uint = λ s. (1, nil);
}

above_zero : (n : ℕ) → ltb_ℤ (pos 0) (pos (suc n)) ≡ true
above_zero n = ground arith

drop-nil : (n : ℕ) → drop {A = User} n [] ≡ []
drop-nil zero = refl
drop-nil (suc n) = refl

user_api-Serves : Serves user_api (ada ∷ [])
unfolding list_users fetch answer do_json addressed with_body received answered decoded append_query
    user_query shared_user_query set_text set_number set_flag get put
user_api-Serves zero w = refl
user_api-Serves (suc n) w = rw (above_zero n, drop-nil n) refl

fetch_all_users-Complete_example : Complete user_api (ada ∷ []) (fetch_all_users user_api 1 0)
fetch_all_users-Complete_example =
    fetch_all_users-Complete user_api (ada ∷ []) user_api-Serves (omega arith) 1 0 (omega arith)

runs-refinement_example :
    runs (ask 2) (by_email "ada@example.net" ∷ list ∷ []) (new_reader (some user_api)) 0
    ≡ runs (consult 2 (some user_api)) (by_email "ada@example.net" ∷ list ∷ []) none 0
runs-refinement_example =
    runs-refinement 2 (some user_api) (by_email "ada@example.net" ∷ list ∷ []) 0

abbrev admin : Role
admin = record { id = "r-1"; name = "admin"; composite = true }

abbrev role_api : RoleApi ℕ
role_api = record {
  funnel = answering (λ n. "[]");
  iam = "https://iam.example.net/auth/admin/realms/t";
  roles = decoding (λ s. admin ∷ []);
  role = decoding (λ s. admin);
  ids = decoding (λ s. tt);
  nothing = decoding (λ s. tt);
  path_escape = λ s. s;
}

abbrev role_reader : RoleReader ℕ
role_reader = record { backend = some role_api; loaded = false; all = []; by_id = []; by_name = [] }

composites-twice_example :
    composites "r-1" (composites "r-1" role_reader 0).1.0 (composites "r-1" role_reader 0).1.1
    ≡ composites "r-1" role_reader 0
unfolding ensure_roles roles_loaded list_realm fetch answer do_json addressed with_body received
    answered decoded append_query
composites-twice_example = composites-twice "r-1" role_reader 0 refl

abbrev preset_api : PresetApi ℕ
preset_api = record {
  funnel = answering (λ n. "{}");
  base = "https://ast.example.net";
  collection = decoding (λ s. []);
  detail = decoding (λ s. zero_detail);
  queries = decoding (λ s. []);
}

-- a preset whose detail could not be fetched before
abbrev preset : Preset ℕ
preset =
    record (new_preset preset_api
      (record { id = "s-1"; name = "Checkmarx Default"; description = ""; custom = false })) {
        load_err = opaque "connection reset";
      }

preset_detail-twice_example :
    ((preset_detail preset 0).0 ≡ (some zero_detail, nil))
    × ((preset_detail (preset_detail preset 0).1.0 (preset_detail preset 0).1.1).0
        ≡ (if is_nil preset.load_err then (some zero_detail, nil) else (none, preset.load_err)))
    × ((preset_detail (preset_detail preset 0).1.0 (preset_detail preset 0).1.1).1.1
        ≡ (preset_detail preset 0).1.1)
    × ((preset_detail (preset_detail preset 0).1.0 (preset_detail preset 0).1.1).1.0.loaded
        ≡ is_nil preset.load_err)
unfolding get_preset fetch answer do_json addressed with_body received answered decoded append_query
preset_detail-twice_example = preset_detail-twice preset 0 zero_detail refl refl

abbrev shop : ProjectResponseModel
shop = record { id = "p-1"; name = "shop"; repo_url = ""; main_branch = "main" }

abbrev project_api : ProjectApi ℕ Unit
project_api = record {
  funnel = answering (λ n. "[]");
  base = "https://ast.example.net";
  project = decoding (λ s. shop);
  collection = decoding (λ s. record { total_count = 0; filtered_total_count = 0; projects = [] });
  branches = decoding (λ s. []);
  tags = decoding (λ s. []);
  configuration = record {
    marshal = λ b. ("{}", nil);
    unmarshal = λ s. (record { key = "k"; value = "v"; allow_override = true } ∷ [], nil);
  };
  patch = decoding (λ s. tt);
  ids = decoding (λ s. tt);
  moves = decoding (λ s. tt);
  nothing = decoding (λ s. tt);
  applications =
      decoding
        (λ s. record { total_count = pos 0; filtered_total_count = pos 0; applications = [] });
  application = decoding (λ s. record { id = "a-1"; name = "store" });
}

configurations-until_success_example :
    configurations 3 (handle_of project_api shop) 0
    ≡ until_success (get_configuration project_api shop.id) 3 0
configurations-until_success_example = configurations-until_success project_api shop 3 0
