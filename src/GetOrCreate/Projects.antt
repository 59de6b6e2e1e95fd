-- ===== src/GetOrCreate/Projects.antt =====
-- workflows/projects/helpers.go: a project by its name, and a project in an application by both
-- names.
pub mod Located
use cxone_sdk_golang.Prelude.{Bool, ◌||◌, String, Option, none, some, [], ◌∷◌, if◌then◌else◌}
use cxone_sdk_golang.Prelude.Text.{str_eq, concat, quoted}
use cxone_sdk_golang.Errors.{Error, nil, is_nil, wrapped}
use cxone_sdk_golang.Errors.Message.{message}
use cxone_sdk_golang.Transport.Json.{Query}
use cxone_sdk_golang.Endpoints.Users.{required, both_required}
use cxone_sdk_golang.Endpoints.Projects.{
  Project, ProjectResponseModel, ProjectsCollection, ProjectApi, Application,
  ApplicationsCollection, list_projects, create_project,
}
use cxone_sdk_golang.Endpoints.Applications.{list_applications, create_application}
use cxone_sdk_golang.Readers.Project.{ProjectRepoConfig, handle_fetched}
use cxone_sdk_golang.GetOrCreate.{Found, first_match, or_created}

abbrev pub name_query : String → Query
name_query name = ("name", name ∷ []) ∷ ("limit", "10" ∷ []) ∷ []

abbrev pub has_project_name : String → ProjectResponseModel → Bool
has_project_name name p = str_eq p.name name

abbrev pub has_application_name : String → Application → Bool
has_application_name name a = str_eq a.name name

-- fmt.Errorf("... %q: %w")
abbrev about : String → String → Error → Error
about what name e =
    wrapped (concat what (concat " " (concat (quoted name) (concat ": " (message e))))) e

module _ {W : Type 0} where
  unfoldable pub project_in :
      String → (Option ProjectsCollection × Error) × W → Found W ProjectResponseModel
  project_in name ((none, e), w) = ((none, e), w)
  project_in name ((some c, e), w) =
      if is_nil e
      then ((first_match (has_project_name name) c.projects, nil), w)
      else ((none, e), w)

  unfoldable pub application_in :
      String → (Option ApplicationsCollection × Error) × W → Found W Application
  application_in name ((none, e), w) = ((none, e), w)
  application_in name ((some c, e), w) =
      if is_nil e
      then ((first_match (has_application_name name) c.applications, nil), w)
      else ((none, e), w)

  -- the application that was found, or a new one
  unfoldable pub application_created : String → Found W Application → Found W Application
  application_created name ((o, e), w) =
      if is_nil e then ((o, nil), w) else ((none, about "create application" name e), w)

module _ {W Patch : Type 0} where
  -- findProjectByName
  unfoldable pub find_project : ProjectApi W Patch → String → W → Found W ProjectResponseModel
  find_project api name w = project_in name (list_projects api (name_query name) w)

  -- findApplicationByName
  unfoldable pub find_application : ProjectApi W Patch → String → W → Found W Application
  find_application api name w = application_in name (list_applications api (name_query name) w)

  -- GetOrCreateByName
  unfoldable pub get_or_create_project :
      Option (ProjectApi W Patch)
      → Option Project
      → W
      → (Option (ProjectRepoConfig W Patch) × Error) × W
  get_or_create_project none template w = ((none, required "backend"), w)
  get_or_create_project (some api) none w = ((none, required "project.Name"), w)
  get_or_create_project (some api) (some template) w =
      if str_eq template.name ""
      then ((none, required "project.Name"), w)
      else handle_fetched api (
          or_created "project" template.name (create_project api (some template))
            (find_project api template.name w))

  unfoldable pub ensure_application :
      ProjectApi W Patch → String → Found W Application → Found W Application
  ensure_application api name ((o, e), w) =
      if is_nil e
      then elim o [
        | some a ↦ ((some a, nil), w)
        | none ↦
            application_created name
              (create_application api (some (record { name = name; rules = none; tags = none })) w)
      ]
      else ((none, about "lookup application" name e), w)

  unfoldable pub with_application :
      Application
      → (Option (ProjectRepoConfig W Patch) × Error) × W
      → ((Option (ProjectRepoConfig W Patch) × Option Application) × Error) × W
  with_application app ((repo, e), w) =
      if is_nil e then (((repo, some app), nil), w) else (((none, none), e), w)

  -- the project in an application
  unfoldable pub project_of :
      ProjectApi W Patch
      → String
      → Found W Application
      → ((Option (ProjectRepoConfig W Patch) × Option Application) × Error) × W
  project_of api name ((none, e), w) = (((none, none), e), w)
  project_of api name ((some app, e), w) = with_application app (
      get_or_create_project (some api)
        (some (record { name = name; application_ids = app.id ∷ [] })) w)

  -- GetOrCreateInApplicationByName
  unfoldable pub get_or_create_in_application :
      Option (ProjectApi W Patch)
      → String
      → String
      → W
      → ((Option (ProjectRepoConfig W Patch) × Option Application) × Error) × W
  get_or_create_in_application none project app w = (((none, none), required "backend"), w)
  get_or_create_in_application (some api) project app w =
      if str_eq project "" || str_eq app ""
      then (((none, none), both_required "projectName/applicationName"), w)
      else project_of api project (ensure_application api app (find_application api app w))
