-- ===== src/GetOrCreate/Projects/Located.antt =====
-- workflows/projects/helpers.go: what GetOrCreateInApplicationByName looks up, creates and returns.
use cxone_sdk_golang.Prelude.{
  ◌≡◌, refl, sym, subst, ◌⊎◌, inl, inr, true, false, ◌||◌, String, Option, none, some, List, [],
  ◌∷◌, arith, Bool-cases,
}
use cxone_sdk_golang.Prelude.Text.{str_eq}
use cxone_sdk_golang.Errors.{Error, nil, is_nil, unwrap}
use cxone_sdk_golang.Endpoints.{fetch}
use cxone_sdk_golang.Endpoints.Answers.{answer-answers}
use cxone_sdk_golang.Endpoints.Projects.{
  ProjectResponseModel, ProjectsCollection, ProjectApi, Project, Application,
  ApplicationsCollection, list_projects, create_project,
}
use cxone_sdk_golang.Endpoints.Applications.{list_applications, create_application}
use cxone_sdk_golang.Readers.Project.{ProjectRepoConfig, handle_of, handle_fetched}
use cxone_sdk_golang.GetOrCreate.{Found, first_match, found_in, or_created}
use cxone_sdk_golang.GetOrCreate.Cases.{First, first_match-First, Provides, or_created-Provides}
use cxone_sdk_golang.GetOrCreate.Projects.{
  name_query, has_project_name, has_application_name, project_in, application_in,
  application_created, find_project, find_application, get_or_create_project, ensure_application,
  with_application, project_of, get_or_create_in_application,
}

abbrev pub projects_of : Option ProjectsCollection → List ProjectResponseModel
projects_of none = []
projects_of (some c) = c.projects

abbrev pub applications_of : Option ApplicationsCollection → List Application
applications_of none = []
applications_of (some c) = c.applications

is_nil-nil : (e : Error) → is_nil e ≡ true → e ≡ nil
is_nil-nil nil h = refl
is_nil-nil _ h = absurd (ground (arith, h))

-- something is given, or there is an error
abbrev Given : {W A : Type 0} → Found W A → Type 0
Given {W} {A} q =
    ((is_nil q.0.1 ≡ true) × ((a : A) × (q.0.0 ≡ some a)))
    ⊎ ((is_nil q.0.1 ≡ false) × (q.0.0 ≡ none))

project_in-found_in :
    {W : Type 0} (name : String) (l : (Option ProjectsCollection × Error) × W)
    → project_in name l ≡ found_in (has_project_name name) ((projects_of l.0.0, l.0.1), l.1)
unfolding project_in found_in first_match
project_in-found_in name ((some c, e), w) = refl
project_in-found_in name ((none, e), w) = elim (Bool-cases (is_nil e)) [
  | inl ok ↦ rw (is_nil-nil e ok) refl
  | inr bad ↦ rw bad refl
]

application_in-found_in :
    {W : Type 0} (name : String) (l : (Option ApplicationsCollection × Error) × W)
    → application_in name l
      ≡ found_in (has_application_name name) ((applications_of l.0.0, l.0.1), l.1)
unfolding application_in found_in first_match
application_in-found_in name ((some c, e), w) = refl
application_in-found_in name ((none, e), w) = elim (Bool-cases (is_nil e)) [
  | inl ok ↦ rw (is_nil-nil e ok) refl
  | inr bad ↦ rw bad refl
]

module _ {W Patch : Type 0} (api : ProjectApi W Patch) where
  -- what creating the application comes to; its error is wrapped
  abbrev pub new_application : String → W → Found W Application
  new_application name w =
      application_created name
        (create_application api (some (record { name = name; rules = none; tags = none })) w)

  -- the application is the first listed one of the name, or a new one
  abbrev pub ProvidesApplication : String → W → Found W Application → Type 0
  ProvidesApplication name w r =
      Provides (has_application_name name)
        (
          (
            applications_of (list_applications api (name_query name) w).0.0,
            (list_applications api (name_query name) w).0.1,
          ),
          (list_applications api (name_query name) w).1,
        )
        (new_application name) r

  -- the project is the first listed one of the name, or a new one in the application
  abbrev pub ProvidesProject : String → Application → W → Found W ProjectResponseModel → Type 0
  ProvidesProject name a w r =
      Provides (has_project_name name)
        (
          (
            projects_of (list_projects api (name_query name) w).0.0,
            (list_projects api (name_query name) w).0.1,
          ),
          (list_projects api (name_query name) w).1,
        )
        (create_project api (some (record { name = name; application_ids = a.id ∷ [] }))) r

  -- the handle of the project and the application are returned, or the error of the project
  abbrev pub Returns :
      Application
      → Found W ProjectResponseModel
      → ((Option (ProjectRepoConfig W Patch) × Option Application) × Error) × W
      → Type 0
  Returns a q r =
      (r.1 ≡ q.1)
      × (((is_nil q.0.1 ≡ true)
            × ((p : ProjectResponseModel) × (q.0.0 ≡ some p)
                × (r.0 ≡ ((some (handle_of api p), some a), nil))))
          ⊎ ((is_nil q.0.1 ≡ false) × (r.0 ≡ ((none, none), q.0.1))))

  -- the application is provided first, then the project; an error of either ends the call
  abbrev pub Located :
      String
      → String
      → W
      → ((Option (ProjectRepoConfig W Patch) × Option Application) × Error) × W
      → Type 0
  Located project app w r =
      (found : Found W Application) × ProvidesApplication app w found
      × (((is_nil found.0.1 ≡ false) × (r ≡ (((none, none), found.0.1), found.1)))
          ⊎ ((a : Application) × (found.0.0 ≡ some a)
              × ((q : Found W ProjectResponseModel) × ProvidesProject project a found.1 q
                  × Returns a q r)))

  matched-ProvidesApplication :
      (name : String) (xs : List Application) (e : Error) (v : W) (o : Option Application)
      → is_nil e ≡ true
      → First (has_application_name name) xs o
      → Provides
          (has_application_name name)
          ((xs, e), v)
          (new_application name)
          (ensure_application api name ((o, nil), v))
  unfolding ensure_application
  matched-ProvidesApplication name xs e v none ok h = inr (inr (ok, h, refl))
  matched-ProvidesApplication name xs e v (some a) ok h = inr (inl (ok, (a, h, refl)))

  failed-ProvidesApplication :
      (name : String) (xs : List Application) (e : Error) (v : W)
      → is_nil e ≡ false
      → Provides
          (has_application_name name)
          ((xs, e), v)
          (new_application name)
          (ensure_application api name ((none, e), v))
  unfolding ensure_application unwrap
  failed-ProvidesApplication name xs e v bad = inl (bad, rw bad refl, rw bad refl, rw bad refl)

  found_in-ProvidesApplication :
      (name : String) (l : (List Application × Error) × W)
      → Provides
          (has_application_name name)
          l
          (new_application name)
          (ensure_application api name (found_in (has_application_name name) l))
  unfolding found_in
  found_in-ProvidesApplication name ((xs, e), v) = elim (Bool-cases (is_nil e)) [
    | inl ok ↦
        subst
          (λ r.
            Provides (has_application_name name) ((xs, e), v) (new_application name)
              (ensure_application api name r))
          (rw ok refl)
          (matched-ProvidesApplication name xs e v (first_match (has_application_name name) xs) ok
            (first_match-First (has_application_name name) xs))
    | inr bad ↦
        subst
          (λ r.
            Provides (has_application_name name) ((xs, e), v) (new_application name)
              (ensure_application api name r))
          (rw bad refl) (failed-ProvidesApplication name xs e v bad)
  ]

  find_application-ProvidesApplication :
      (name : String) (w : W)
      → ProvidesApplication name w (ensure_application api name (find_application api name w))
  unfolding find_application
  find_application-ProvidesApplication name w =
      subst (λ r. ProvidesApplication name w (ensure_application api name r))
        (sym (application_in-found_in name (list_applications api (name_query name) w)))
        (found_in-ProvidesApplication name _)

  find_project-ProvidesProject :
      (name : String) (a : Application) (w : W)
      → ProvidesProject name a w (
          or_created "project" name
            (create_project api (some (record { name = name; application_ids = a.id ∷ [] })))
            (find_project api name w))
  unfolding find_project
  find_project-ProvidesProject name a w =
      subst
        (λ r. ProvidesProject name a w (
          or_created "project" name
            (create_project api (some (record { name = name; application_ids = a.id ∷ [] }))) r))
        (sym (project_in-found_in name (list_projects api (name_query name) w)))
        (or_created-Provides (has_project_name name) "project" name
          (create_project api (some (record { name = name; application_ids = a.id ∷ [] }))) _)

  create_project-Given : (p : Option Project) (w : W) → Given (create_project api p w)
  unfolding create_project fetch
  create_project-Given p w = answer-answers api.funnel api.project _ _

  or_created-Given :
      (name : String) (p : Option Project) (r : Found W ProjectResponseModel)
      → Given (or_created "project" name (create_project api p) r)
  unfolding or_created
  or_created-Given name p ((some q, e), w) = elim (Bool-cases (is_nil e)) [
    | inl ok ↦ rw ok (inl (refl, (q, refl)))
    | inr bad ↦ rw bad (inr (refl, refl))
  ]
  or_created-Given name p ((none, e), w) = elim (Bool-cases (is_nil e)) [
    | inl ok ↦ rw ok (create_project-Given p w)
    | inr bad ↦ rw bad (inr (refl, refl))
  ]

  with_application-Returns :
      (a : Application) (q : Found W ProjectResponseModel)
      → Given q
      → Returns a q (with_application a (handle_fetched api q))
  unfolding with_application handle_fetched
  with_application-Returns a ((some p, e), w) (inl (ok, there)) =
      rw ok (refl, inl (refl, (p, refl, refl)))
  with_application-Returns a ((some p, e), w) (inr (bad, there)) = absurd (ground (arith, there))
  with_application-Returns a ((none, e), w) (inl (ok, (p, there))) = absurd (ground (arith, there))
  with_application-Returns a ((none, e), w) (inr (bad, there)) = rw bad (refl, inr (refl, refl))

  create_application-Given :
      (name : String) (w : W)
      → str_eq name "" ≡ false
      → Given (create_application api (some (record { name = name; rules = none; tags = none })) w)
  unfolding create_application fetch
  create_application-Given name w named = rw named (answer-answers api.funnel api.application _ _)

  application_created-Given :
      (name : String) (r : Found W Application) → Given r → Given (application_created name r)
  unfolding application_created
  application_created-Given name ((o, e), w) (inl (ok, there)) = rw ok (inl (refl, there))
  application_created-Given name ((o, e), w) (inr (bad, there)) = rw bad (inr (refl, refl))

  ensure_application-Given :
      (name : String) (r : Found W Application)
      → str_eq name "" ≡ false
      → Given (ensure_application api name r)
  unfolding ensure_application
  ensure_application-Given name ((some a, e), w) named = elim (Bool-cases (is_nil e)) [
    | inl ok ↦ rw ok (inl (refl, (a, refl)))
    | inr bad ↦ rw bad (inr (refl, refl))
  ]
  ensure_application-Given name ((none, e), w) named = elim (Bool-cases (is_nil e)) [
    | inl ok ↦ rw ok (application_created-Given name _ (create_application-Given name w named))
    | inr bad ↦ rw bad (inr (refl, refl))
  ]

  project_of-Located :
      (project app : String) (w : W) (found : Found W Application)
      → str_eq project "" ≡ false
      → ProvidesApplication app w found
      → Given found
      → Located project app w (project_of api project found)
  unfolding project_of get_or_create_project
  project_of-Located project app w ((none, e), v) named provided (inl (ok, (a, there))) =
      absurd (ground (arith, there))
  project_of-Located project app w ((none, e), v) named provided (inr (bad, there)) =
      (((none, e), v), provided, inl (bad, refl))
  project_of-Located project app w ((some a, e), v) named provided given = rw named (
    ((some a, e), v),
    provided,
    inr (
      a,
      refl,
      (
        or_created "project" project
            (create_project api (some (record { name = project; application_ids = a.id ∷ [] })))
            (find_project api project v),
        find_project-ProvidesProject project a v,
        with_application-Returns a _ (or_created-Given project _ (find_project api project v)),
      ),
    ),
  )

  -- For two names that are given: GetOrCreateInApplicationByName provides the application, as the
  -- first one listed that has exactly the name, or else a new one, and ends with the error if that
  -- fails; then it provides the project in the same way, creating a new one in that application,
  -- but leaving one that is listed as it is; and it returns the project's handle and the
  -- application, or the error of the project. Nothing else is sent.
  pub get_or_create_in_application-Located :
      (project app : String) (w : W)
      → str_eq project "" || str_eq app "" ≡ false
      → Located project app w (get_or_create_in_application (some api) project app w)
  unfolding get_or_create_in_application
  get_or_create_in_application-Located project app w named = rw named (
      project_of-Located project app w (ensure_application api app (find_application api app w))
        (ground (arith, named)) (find_application-ProvidesApplication app w)
        (ensure_application-Given app (find_application api app w) (ground (arith, named))))
