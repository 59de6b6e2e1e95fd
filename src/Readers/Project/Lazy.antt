-- ===== src/Readers/Project/Lazy.antt =====
-- workflows/projects/repo_config.go: what the lazy fields of a project return.
use cxone_sdk_golang.Prelude.{
  ◌≡◌, refl, ap, inl, inr, true, List, [], ◌∷◌, ℕ, zero, suc, Bool-cases, if◌then◌else◌,
}
use cxone_sdk_golang.Errors.{Error, nil, is_nil}
use cxone_sdk_golang.Endpoints.Projects.{
  ProjectApi, ProjectResponseModel, ProjectConfiguration, get_configuration,
}
use cxone_sdk_golang.Readers.Project.{
  run_once, read_field, get_field, ProjectRepoConfig, handle_of, configuration,
}

abbrev pub Results : Type 0
Results = List (List ProjectConfiguration × Error)

abbrev repeated : ℕ → List ProjectConfiguration × Error → Results
repeated zero r = []
repeated (suc n) r = r ∷ repeated n r

module _ {W : Type 0} where
  -- A fetch for each call until one succeeds, which answers all the calls from then on.
  abbrev pub until_success : (W → (List ProjectConfiguration × Error) × W) → ℕ → W → Results × W
  until_success fetch zero w = ([], w)
  until_success fetch (suc n) w =
      let ((v, e), w') = fetch w in
      let (rs, u) = until_success fetch n w' in
      if is_nil e then (repeated (suc n) (v, nil), w') else (([], e) ∷ rs, u)

module _ {W Patch : Type 0} where
  -- the same call, several times
  abbrev pub configurations : ℕ → ProjectRepoConfig W Patch → W → Results × W
  configurations zero p w = ([], w)
  configurations (suc n) p w =
      let (r, (q, v)) = configuration p w in let (rs, u) = configurations n q v in (r ∷ rs, u)

  -- the handle that keeps a configuration
  abbrev keeping :
      ProjectRepoConfig W Patch → List ProjectConfiguration → Error → ProjectRepoConfig W Patch
  keeping p v e = record p { config = record { done = true; err = e; value = v } }

  configurations-kept :
      (n : ℕ) (p : ProjectRepoConfig W Patch) (v : List ProjectConfiguration) (e : Error) (w : W)
      → is_nil e ≡ true
      → configurations n (keeping p v e) w ≡ (repeated n (v, nil), w)
  unfolding configuration get_field run_once read_field
  configurations-kept zero p v e w ok = refl
  configurations-kept (suc n) p v e w ok =
      rw ok (ap (λ r. ((v, nil) ∷ r.0, r.1)) (configurations-kept n p v e w ok))

  module _ (api : ProjectApi W Patch) (project : ProjectResponseModel) (n : ℕ) where
    configurations-answered :
        (w : W) (o : (List ProjectConfiguration × Error) × W)
        → get_configuration api project.id w ≡ o
        → ((v : W)
            → configurations n (handle_of api project) v
              ≡ until_success (get_configuration api project.id) n v)
        → configurations (suc n) (handle_of api project) w
          ≡ until_success (get_configuration api project.id) (suc n) w
    unfolding configuration get_field run_once read_field
    configurations-answered w ((v, e), w') is below = elim (Bool-cases (is_nil e)) [
      | inl ok ↦
          rw (is, ok)
            (ap (λ r. ((v, nil) ∷ r.0, r.1))
              (configurations-kept n (handle_of api project) v e w' ok))
      | inr bad ↦ rw (is, bad) (ap (λ r. (([], e) ∷ r.0, r.1)) (below w'))
    ]

  -- However often Configuration is called on a new handle: the endpoint is asked at each call until
  -- it answers without an error, a failed call returns its error, and from the first success on
  -- every call returns that configuration and asks nothing.
  pub configurations-until_success :
      (api : ProjectApi W Patch) (project : ProjectResponseModel) (n : ℕ) (w : W)
      → configurations n (handle_of api project) w
        ≡ until_success (get_configuration api project.id) n w
  configurations-until_success api project zero w = refl
  configurations-until_success api project (suc n) w =
      configurations-answered api project n w (get_configuration api project.id w) refl
        (λ v. configurations-until_success api project n v)
