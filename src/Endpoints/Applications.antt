-- ===== src/Endpoints/Applications.antt =====
-- internal/endpoints/applications/applications.go: applications, which hold projects.
use cxone_sdk_golang.Prelude.{String, Option, none, some, List, [], ◌∷◌, if◌then◌else◌}
use cxone_sdk_golang.Prelude.Int.{ℤ, pos, ltb_ℤ}
use cxone_sdk_golang.Prelude.Text.{str_eq, concat, concat_all}
use cxone_sdk_golang.Prelude.Maps.{put}
use cxone_sdk_golang.Errors.{Error, is_nil}
use cxone_sdk_golang.Transport.Json.{Query}
use cxone_sdk_golang.Endpoints.{Codec, fetch, send}
use cxone_sdk_golang.Endpoints.Url.{join_url}
use cxone_sdk_golang.Endpoints.Users.{ok_codes, no_content, required}
use cxone_sdk_golang.Endpoints.Projects.{
  ProjectApi, Application, ApplicationsCollection, ApplicationRequest,
}

-- ApplicationConfiguration, with its rules as texts
pub record ApplicationConfiguration : Type 0 where
  pub name : String
  pub description : String
  pub kind : String
  pub criticality : ℤ
  pub rules : List String
  pub tags : List (String × String)

-- the codecs of the bodies that only this package sends; `P` is ApplicationPatch
pub record ApplicationCodecs (P : Type 0) : Type 0 where
  pub configuration : Codec ApplicationConfiguration Unit
  pub associated : Codec (List String) Unit
  pub assigned : Codec (List String) Unit
  pub patch : Codec P Unit
  pub single : Codec Unit Application

abbrev zero_applications : ApplicationsCollection
zero_applications = record { total_count = pos 0; filtered_total_count = pos 0; applications = [] }

abbrev zero_application : Application
zero_application = record { id = ""; name = "" }

module _ {W Patch : Type 0} (api : ProjectApi W Patch) where
  abbrev application_url : List String → String
  application_url path = join_url api.base (concat "api/applications" (concat_all path))

  -- List
  unfoldable pub list_applications : Query → W → (Option ApplicationsCollection × Error) × W
  list_applications query w =
      fetch api.funnel api.applications "GET" (join_url api.base "api/applications") query none
        ok_codes zero_applications w

  -- what is sent to create an application
  abbrev pub with_defaults : ApplicationRequest → ApplicationRequest
  with_defaults r = record r {
    rules = elim r.rules [ none ↦ some [] | some rules ↦ some rules ];
    tags = elim r.tags [ none ↦ some [] | some tags ↦ some tags ];
  }

  -- Create
  unfoldable pub create_application :
      Option ApplicationRequest → W → (Option Application × Error) × W
  create_application none w = ((none, required "application.Name"), w)
  create_application (some r) w =
      if str_eq r.name ""
      then ((none, required "application.Name"), w)
      else fetch api.funnel api.application "POST" (join_url api.base "api/applications") []
          (some (with_defaults r)) (201 ∷ 200 ∷ []) (record { id = ""; name = "" }) w

  -- what Count makes of the listing
  unfoldable pub counted_applications :
      (Option ApplicationsCollection × Error) × W → (ℤ × Error) × W
  counted_applications ((none, e), w) = ((pos 0, e), w)
  counted_applications ((some c, e), w) =
      if is_nil e
      then (
        (if ltb_ℤ (pos 0) c.filtered_total_count then c.filtered_total_count else c.total_count, e),
        w,
      )
      else ((pos 0, e), w)

  -- Count
  unfoldable pub count_applications : Query → W → (ℤ × Error) × W
  count_applications query w =
      counted_applications
        (list_applications (put "offset" ("0" ∷ []) (put "limit" ("1" ∷ []) query)) w)

  module _ {P : Type 0} (codecs : ApplicationCodecs P) where
    -- Update, with a configuration that is not nil
    unfoldable pub update_application : String → ApplicationConfiguration → W → Error × W
    update_application id config w =
        send api.funnel codecs.configuration "PUT" (application_url ("/" ∷ id ∷ [])) (some config)
          (204 ∷ []) w

    -- AssociateProjects
    unfoldable pub associate_projects : String → List String → W → Error × W
    associate_projects id projects w =
        send api.funnel codecs.associated "POST" (application_url ("/" ∷ id ∷ "/projects" ∷ []))
          (some projects) (201 ∷ []) w

    -- Get
    unfoldable pub get_application : String → W → (Option Application × Error) × W
    get_application id w =
        fetch api.funnel codecs.single "GET" (application_url ("/" ∷ id ∷ [])) [] none ok_codes
          zero_application w

    -- Delete
    unfoldable pub delete_application : String → W → Error × W
    delete_application id w =
        send api.funnel api.nothing "DELETE" (application_url ("/" ∷ id ∷ [])) none no_content w

    -- Patch, with a patch that is not nil
    unfoldable pub patch_application : String → P → W → Error × W
    patch_application id patch w =
        send api.funnel codecs.patch "PATCH" (application_url ("/" ∷ id ∷ [])) (some patch)
          no_content w

    -- AssignProjectsDirect
    unfoldable pub assign_projects : String → List String → W → Error × W
    assign_projects id projects w =
        send api.funnel codecs.assigned "POST" (application_url ("/" ∷ id ∷ "/projects" ∷ []))
          (some projects) (201 ∷ 200 ∷ 204 ∷ []) w

    -- RemoveProjectsDirect
    unfoldable pub remove_projects : String → List String → W → Error × W
    remove_projects id projects w =
        send api.funnel codecs.assigned "DELETE" (application_url ("/" ∷ id ∷ "/projects" ∷ []))
          (some projects) no_content w
