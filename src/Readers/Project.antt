-- ===== src/Readers/Project.antt =====
-- workflows/projects/repo_config.go: the handle of a project.
pub mod Lazy
use cxone_sdk_golang.Prelude.{
  Bool, true, false, String, Option, none, some, List, [], if◌then◌else◌,
}
use cxone_sdk_golang.Prelude.Text.{str_eq}
use cxone_sdk_golang.Errors.{Error, nil, is_nil}
use cxone_sdk_golang.Endpoints.Users.{required}
use cxone_sdk_golang.Endpoints.Projects.{
  ProjectApi, ProjectResponseModel, ProjectConfiguration, get_project, get_configuration,
  get_branches,
}

-- A field that is fetched at its first use: whether its sync.Once has run, the error and the value.
pub record LazyField (A : Type 0) : Type 0 where
  pub done : Bool
  pub err : Error
  pub value : List A

abbrev pub fresh_field : {A : Type 0} → LazyField A
fresh_field = record { done = false; err = nil; value = [] }

module _ {W A : Type 0} where
  -- once.Do
  unfoldable pub run_once : (W → (List A × Error) × W) → LazyField A → W → LazyField A × W
  run_once fetch f w =
      if f.done
      then (f, w)
      else (let ((v, e), w') = fetch w in (record { done = true; err = e; value = v }, w'))

  -- the error of the field, which is reset then, or its value
  unfoldable pub read_field : LazyField A × W → (List A × Error) × (LazyField A × W)
  read_field (f, w) =
      if is_nil f.err then ((f.value, nil), (f, w)) else (([], f.err), (fresh_field, w))

  unfoldable pub get_field :
      (W → (List A × Error) × W) → LazyField A → W → (List A × Error) × (LazyField A × W)
  get_field fetch f w = read_field (run_once fetch f w)

pub record ProjectRepoConfig (W Patch : Type 0) : Type 0 where
  pub backend : ProjectApi W Patch
  pub project : ProjectResponseModel
  pub config : LazyField ProjectConfiguration
  pub branches : LazyField String

module _ {W Patch : Type 0} where
  abbrev pub handle_of : ProjectApi W Patch → ProjectResponseModel → ProjectRepoConfig W Patch
  handle_of api p = record {
    backend = api;
    project = p;
    config = fresh_field;
    branches = fresh_field;
  }

  unfoldable pub handle_fetched :
      ProjectApi W Patch
      → (Option ProjectResponseModel × Error) × W
      → (Option (ProjectRepoConfig W Patch) × Error) × W
  handle_fetched api ((none, e), w) = ((none, e), w)
  handle_fetched api ((some p, e), w) =
      if is_nil e then ((some (handle_of api p), nil), w) else ((none, e), w)

  -- FromProjectID
  unfoldable pub from_project_id :
      Option (ProjectApi W Patch) → String → W → (Option (ProjectRepoConfig W Patch) × Error) × W
  from_project_id none id w = ((none, required "backend"), w)
  from_project_id (some api) id w =
      if str_eq id ""
      then ((none, required "projectID"), w)
      else handle_fetched api (get_project api id w)

  -- FromProjectModel
  unfoldable pub from_project_model :
      Option (ProjectApi W Patch)
      → Option ProjectResponseModel
      → Option (ProjectRepoConfig W Patch) × Error
  from_project_model none p = (none, required "backend")
  from_project_model (some api) none = (none, required "project")
  from_project_model (some api) (some p) = (some (handle_of api p), nil)

  -- Configuration
  unfoldable pub configuration :
      ProjectRepoConfig W Patch
      → W
      → (List ProjectConfiguration × Error) × (ProjectRepoConfig W Patch × W)
  configuration p w =
      let (r, (f, v)) = get_field (get_configuration p.backend p.project.id) p.config w in
      (r, (record p { config = f }, v))

  -- Branches
  unfoldable pub branches_of :
      ProjectRepoConfig W Patch → W → (List String × Error) × (ProjectRepoConfig W Patch × W)
  branches_of p w =
      let (r, (f, v)) = get_field (get_branches p.backend p.project.id []) p.branches w in
      (r, (record p { branches = f }, v))
