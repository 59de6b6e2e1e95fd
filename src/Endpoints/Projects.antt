-- ===== src/Endpoints/Projects.antt =====
-- internal/endpoints/projects/projects.go, and the types of applications that it shares a record with.
use cxone_sdk_golang.Prelude.{
  ℕ, Bool, String, Option, none, some, List, [], ◌∷◌, ltb, if◌then◌else◌,
}
use cxone_sdk_golang.Prelude.Int.{ℤ, pos, wrap_int}
use cxone_sdk_golang.Prelude.Text.{str_eq, concat, concat_all}
use cxone_sdk_golang.Prelude.Maps.{put}
use cxone_sdk_golang.Errors.{Error, is_nil}
use cxone_sdk_golang.Transport.Json.{Query}
use cxone_sdk_golang.Endpoints.{Funnel, Codec, fetch, send, send_query, as_slice}
use cxone_sdk_golang.Endpoints.Url.{join_url}
use cxone_sdk_golang.Endpoints.Users.{ok_codes, no_content, required}

-- the fields of Project that the program sets
pub record Project : Type 0 where
  pub name : String
  pub application_ids : List String

-- the fields of ProjectResponseModel that the program reads
pub record ProjectResponseModel : Type 0 where
  pub id : String
  pub name : String
  pub repo_url : String
  pub main_branch : String

-- ProjectsCollectionResponseModel
pub record ProjectsCollection : Type 0 where
  pub total_count : ℕ
  pub filtered_total_count : ℕ
  pub projects : List ProjectResponseModel

pub record ProjectConfiguration : Type 0 where
  pub key : String
  pub value : String
  pub allow_override : Bool

pub record Application : Type 0 where
  pub id : String
  pub name : String

-- ApplicationsResponseModel
pub record ApplicationsCollection : Type 0 where
  pub total_count : ℤ
  pub filtered_total_count : ℤ
  pub applications : List Application

-- ApplicationCreateRequest, with its rules as texts; a nil slice or map is `none`
pub record ApplicationRequest : Type 0 where
  pub name : String
  pub rules : Option (List String)
  pub tags : Option (List (String × String))

-- the ids that a project is moved from, and to
pub record Reassignment : Type 0 where
  pub source : List String
  pub dest : List String

-- What the packages are given. `Patch` is ProjectPatch.
pub record ProjectApi (W : Type 0) (Patch : Type 0) : Type 0 where
  pub funnel : Funnel W
  pub base : String
  pub project : Codec Project ProjectResponseModel
  pub collection : Codec Unit ProjectsCollection
  pub branches : Codec Unit (List String)
  pub tags : Codec Unit (List (String × List String))
  pub configuration : Codec (List ProjectConfiguration) (List ProjectConfiguration)
  pub patch : Codec Patch Unit
  pub ids : Codec (List String) Unit
  pub moves : Codec Reassignment Unit
  pub nothing : Codec Unit Unit
  pub applications : Codec Unit ApplicationsCollection
  pub application : Codec ApplicationRequest Application

abbrev zero_project : ProjectResponseModel
zero_project = record { id = ""; name = ""; repo_url = ""; main_branch = "" }

abbrev zero_collection : ProjectsCollection
zero_collection = record { total_count = 0; filtered_total_count = 0; projects = [] }

abbrev project_id_query : String → Query
project_id_query id = ("project-id", id ∷ []) ∷ []

module _ {W Patch : Type 0} (api : ProjectApi W Patch) where
  abbrev pub projects_url : List String → String
  projects_url path = join_url api.base (concat "api/projects" (concat_all path))

  abbrev pub configuration_url : String
  configuration_url = join_url api.base "api/configuration/project"

  -- Create
  unfoldable pub create_project : Option Project → W → (Option ProjectResponseModel × Error) × W
  create_project p w =
      fetch api.funnel api.project "POST" (projects_url []) [] p (201 ∷ []) zero_project w

  -- List
  unfoldable pub list_projects : Query → W → (Option ProjectsCollection × Error) × W
  list_projects query w =
      fetch api.funnel api.collection "GET" (projects_url []) query none ok_codes zero_collection w

  -- Get
  unfoldable pub get_project : String → W → (Option ProjectResponseModel × Error) × W
  get_project id w =
      fetch api.funnel api.project "GET" (projects_url ("/" ∷ id ∷ [])) [] none ok_codes
        zero_project w

  -- Update
  unfoldable pub update_project : String → Option Project → W → Error × W
  update_project id p w =
      send api.funnel api.project "PUT" (projects_url ("/" ∷ id ∷ [])) p (204 ∷ []) w

  -- Delete
  unfoldable pub delete_project : String → W → Error × W
  delete_project id w =
      send api.funnel api.nothing "DELETE" (projects_url ("/" ∷ id ∷ [])) none (204 ∷ []) w

  -- GetBranches
  unfoldable pub get_branches : String → Query → W → (List String × Error) × W
  get_branches id query w = as_slice (
      fetch api.funnel api.branches "GET" (projects_url ("/branches" ∷ []))
        (put "project-id" (id ∷ []) query) none ok_codes [] w)

  -- Tags
  unfoldable pub project_tags : W → (List (String × List String) × Error) × W
  project_tags w =
      as_slice (fetch api.funnel api.tags "GET" (projects_url ("/tags" ∷ [])) [] none ok_codes [] w)

  -- UpdateConfiguration
  unfoldable pub update_configuration : String → List ProjectConfiguration → W → Error × W
  update_configuration id cfg w =
      send_query api.funnel api.configuration "PATCH" configuration_url (project_id_query id)
        (some cfg) (204 ∷ []) w

  -- GetConfiguration
  unfoldable pub get_configuration : String → W → (List ProjectConfiguration × Error) × W
  get_configuration id w = as_slice (
      fetch api.funnel api.configuration "GET" configuration_url (project_id_query id) none ok_codes
        [] w)

  -- what Count makes of the listing; the totals are unsigned, and `int` wraps around
  unfoldable pub counted_projects : (Option ProjectsCollection × Error) × W → (ℤ × Error) × W
  counted_projects ((none, e), w) = ((pos 0, e), w)
  counted_projects ((some c, e), w) =
      if is_nil e
      then (
        (
          wrap_int (
              pos (if ltb 0 c.filtered_total_count then c.filtered_total_count else c.total_count)),
          e,
        ),
        w,
      )
      else ((pos 0, e), w)

  -- Count
  unfoldable pub count_projects : Query → W → (ℤ × Error) × W
  count_projects query w =
      counted_projects (list_projects (put "offset" ("0" ∷ []) (put "limit" ("1" ∷ []) query)) w)

  -- Patch
  unfoldable pub patch_project : String → Option Patch → W → Error × W
  patch_project id patch w =
      send api.funnel api.patch "PATCH" (projects_url ("/" ∷ id ∷ [])) patch no_content w

  -- SetConfigurationKey
  unfoldable pub set_configuration_key : String → String → String → Bool → W → Error × W
  set_configuration_key id key value allow w =
      update_configuration id (record { key = key; value = value; allow_override = allow } ∷ []) w

  abbrev applications_of : String → String
  applications_of id = projects_url ("/" ∷ id ∷ "/applications" ∷ [])

  -- AssignApplicationsDirect
  unfoldable pub assign_applications : String → List String → W → Error × W
  assign_applications id apps w =
      send api.funnel api.ids "POST" (applications_of id) (some apps) (201 ∷ 200 ∷ 204 ∷ []) w

  -- RemoveApplicationsDirect
  unfoldable pub remove_applications : String → List String → W → Error × W
  remove_applications id apps w =
      send api.funnel api.ids "DELETE" (applications_of id) (some apps) no_content w

  -- MoveApplications
  unfoldable pub move_applications : String → List String → List String → W → Error × W
  move_applications id source dest w =
      if str_eq id ""
      then (required "projectID", w)
      else send api.funnel api.moves "PUT" (projects_url ("/reassign/" ∷ id ∷ []))
          (some (record { source = source; dest = dest })) no_content w
