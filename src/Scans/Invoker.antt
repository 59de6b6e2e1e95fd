-- ===== src/Scans/Invoker.antt =====
-- workflows/scans/invoker.go: starting a scan.
pub mod Validation
use cxone_sdk_golang.Prelude.{
  ℕ, Bool, true, false, not, ◌&&◌, ◌||◌, String, Option, none, some, List, [], ◌∷◌, map, any,
  if◌then◌else◌,
}
use cxone_sdk_golang.Prelude.Int.{ℤ, pos, leb_ℤ}
use cxone_sdk_golang.Prelude.Text.{str_eq}
use cxone_sdk_golang.Prelude.Maps.{put}
use cxone_sdk_golang.Errors.{Error, nil, is_nil, configuration_error}
use cxone_sdk_golang.Endpoints.Users.{required}
use cxone_sdk_golang.Endpoints.Projects.{ProjectResponseModel}
use cxone_sdk_golang.Endpoints.Scans.{Scan, ScanApi, create_scan, get_presigned_url, put_file}
use cxone_sdk_golang.Scans.Inspector.{ScanResponseModel}

-- The project, of which the invoker reads the id, the URL of the repository and the main branch, is
-- the snapshot that its handle holds. A nil map is `none`. `C` is an engine's configuration as the
-- request carries it; `configs` has one for each engine that was given one. `marshal` is
-- json.Marshal of a handler.
pub record Invoker (W C : Type 0) : Type 0 where
  pub backend : Option (ScanApi W C)
  pub repo : Option ProjectResponseModel
  pub branch : String
  pub tag : String
  pub commit : String
  pub engines : List String
  pub tags : Option (List (String × String))
  pub configs : String → Option C
  pub upload_body : Option ℕ
  pub upload_size : ℤ
  pub http_client : Bool
  pub config_err : Error

-- the handlers of the two sources
pub data Handler : Type 0 where
  git_handler : (repo_url branch commit tag : String) → Handler
  upload_handler : (repo_url upload_url : String) → Handler

abbrev known_engines : List String
known_engines = "sast" ∷ "sca" ∷ "kics" ∷ "containers" ∷ "apisec" ∷ "scs" ∷ []

-- validEngines
unfoldable pub valid_engines : List String → Bool
valid_engines [] = true
valid_engines (n ∷ names) = any (λ k. str_eq n k) known_engines && valid_engines names

abbrev put_all : List (String × String) → List (String × String) → List (String × String)
put_all [] m = m
put_all ((k, v) ∷ kvs) m = put_all kvs (put k v m)

module _ {W C : Type 0} where
  abbrev empty_invoker : Error → Invoker W C
  empty_invoker e = record {
    backend = none;
    repo = none;
    branch = "";
    tag = "";
    commit = "";
    engines = [];
    tags = none;
    configs = λ engine. none;
    upload_body = none;
    upload_size = pos 0;
    http_client = false;
    config_err = e;
  }

  -- NewInvoker
  abbrev pub new_invoker : Option (ScanApi W C) → Option ProjectResponseModel → Bool → Invoker W C
  new_invoker none repo client = empty_invoker (required "backend")
  new_invoker (some api) none client = empty_invoker (required "repo")
  new_invoker (some api) (some repo) client = record (empty_invoker nil) {
    backend = some api;
    repo = some repo;
    tags = some [];
    http_client = client;
  }

  -- ForBranch
  abbrev pub for_branch : String → Invoker W C → Invoker W C
  for_branch branch i = record i { branch = branch }

  -- ForCommit
  abbrev pub for_commit : String → Invoker W C → Invoker W C
  for_commit commit i = record i { commit = commit }

  -- ForTag
  abbrev pub for_tag : String → Invoker W C → Invoker W C
  for_tag tag i = record i { tag = tag }

  -- WithEngines
  abbrev pub with_engines : List String → Invoker W C → Invoker W C
  with_engines engines i = record i { engines = engines }

  -- WithTags; `none` is the panic of an assignment to an entry of a nil map
  unfoldable pub with_tags : List (String × String) → Invoker W C → Option (Invoker W C)
  with_tags [] i = some i
  with_tags (kv ∷ kvs) i = elim i.tags [
    | none ↦ none
    | some m ↦ some (record i { tags = some (put_all (kv ∷ kvs) m) })
  ]

  -- WithSastConfig, WithScaConfig, WithKicsConfig, WithContainerConfig, WithAPISecConfig and
  -- WithSCSConfig, by the engine's name
  abbrev pub with_config : String → C → Invoker W C → Invoker W C
  with_config engine c i = record i {
    configs = λ e. if str_eq e engine then some c else i.configs e;
  }

  -- WithUploadReader
  abbrev pub with_upload_reader : ℕ → ℤ → Invoker W C → Invoker W C
  with_upload_reader body size i = record i { upload_body = some body; upload_size = size }

  abbrev pub has_upload : Invoker W C → Bool
  has_upload i = elim i.upload_body [ none ↦ false | some body ↦ true ]

  abbrev pub has_git : Invoker W C → Bool
  has_git i = not (str_eq i.branch "") || (not (str_eq i.commit "") || not (str_eq i.tag ""))

  abbrev pub main_branch : Invoker W C → String
  main_branch i = elim i.repo [ none ↦ "" | some p ↦ p.main_branch ]

  abbrev pub repo_url : Invoker W C → String
  repo_url i = elim i.repo [ none ↦ "" | some p ↦ p.repo_url ]

  abbrev project_id : Invoker W C → String
  project_id i = elim i.repo [ none ↦ "" | some p ↦ p.id ]

  -- the checks of the upload
  unfoldable pub check_upload : Invoker W C → Error
  check_upload i =
      if has_upload i && leb_ℤ i.upload_size (pos 0)
      then configuration_error "UploadSize" "must be > 0 (object stores require Content-Length)"
      else if has_upload i && not i.http_client
      then configuration_error "httpClient" "is required for upload mode"
      else nil

  -- the checks of the source, which may set the branch
  unfoldable pub check_source : Invoker W C → Error × Invoker W C
  check_source i =
      if has_git i && has_upload i
      then (
        configuration_error "Source"
            "git mode (ForBranch/ForCommit/ForTag) and upload mode (WithUploadReader) are mutually exclusive",
        i,
      )
      else if not (has_git i) && not (has_upload i)
      then (if str_eq (main_branch i) ""
          then (
            configuration_error "Branch" "no branch supplied and project has no MainBranch set",
            i,
          )
          else (
            check_upload (record i { branch = main_branch i }),
            record i { branch = main_branch i },
          ))
      else (check_upload i, i)

  unfoldable pub check_engines : List String → Invoker W C → Error × Invoker W C
  check_engines [] i = (configuration_error "Engines" "at least one engine must be selected", i)
  check_engines (e ∷ es) i = if valid_engines (e ∷ es) then check_source i else (
    configuration_error "Engines"
        "unknown engine name; valid: sast, sca, kics, containers, apisec, scs",
    i,
  )

  -- validate
  unfoldable pub validate : Invoker W C → Error × Invoker W C
  validate i = check_engines i.engines i

  -- sourceType
  abbrev pub source_type : Invoker W C → String
  source_type i = if has_upload i then "upload" else "git"

  -- buildEngineConfigs; structToMap is part of what `configs` holds
  abbrev pub build_engine_configs : Invoker W C → List (String × Option C)
  build_engine_configs i = map (λ engine. (engine, i.configs engine)) i.engines

  module _ (marshal : Handler → String × Error) where
    -- buildGitHandler
    unfoldable pub build_git_handler : Invoker W C → String × Error
    build_git_handler i =
        if str_eq (repo_url i) ""
        then ("", configuration_error "repoUrl" "project has no RepoURL set")
        else marshal (git_handler (repo_url i) i.branch i.commit i.tag)

    unfoldable pub handler_uploaded : Invoker W C → String → Error × W → (String × Error) × W
    handler_uploaded i url (e, w) =
        if is_nil e then (marshal (upload_handler (repo_url i) url), w) else (("", e), w)

    unfoldable pub upload_to :
        ScanApi W C → Invoker W C → (String × Error) × W → (String × Error) × W
    upload_to api i ((url, e), w) =
        if is_nil e
        then handler_uploaded i url (put_file api i.http_client url i.upload_body i.upload_size w)
        else (("", e), w)

    -- buildUploadHandler
    unfoldable pub build_upload_handler : ScanApi W C → Invoker W C → W → (String × Error) × W
    build_upload_handler api i w = upload_to api i (get_presigned_url api w)

    abbrev pub scan_request : Invoker W C → String → Scan C
    scan_request i handler = record {
      source_type = source_type i;
      handler = handler;
      project_id = project_id i;
      tags = elim i.tags [ none ↦ [] | some tags ↦ tags ];
      config = build_engine_configs i;
    }

    -- the request, once the handler is built
    unfoldable pub request_scan :
        ScanApi W C → Invoker W C → (String × Error) × W → (Option ScanResponseModel × Error) × W
    request_scan api i ((handler, e), w) =
        if is_nil e then create_scan api (scan_request i handler) w else ((none, e), w)

    unfoldable pub start_valid :
        Option (ScanApi W C) → Invoker W C → W → (Option ScanResponseModel × Error) × W
    start_valid none i w = ((none, required "backend"), w)
    start_valid (some api) i w =
        request_scan api i
          (if has_upload i then build_upload_handler api i w else (build_git_handler i, w))

    unfoldable pub start_checked :
        Error × Invoker W C → W → (Option ScanResponseModel × Error) × (Invoker W C × W)
    start_checked (e, i) w =
        if is_nil e
        then (let (r, w') = start_valid i.backend i w in (r, (i, w')))
        else ((none, e), (i, w))

    -- Start; the scan stands for the inspector made of it
    unfoldable pub start : Invoker W C → W → (Option ScanResponseModel × Error) × (Invoker W C × W)
    start i w =
        if is_nil i.config_err then start_checked (validate i) w else ((none, i.config_err), (i, w))
