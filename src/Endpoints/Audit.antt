-- ===== src/Endpoints/Audit.antt =====
-- internal/endpoints/audit/audit.go: the sessions of the query editor.
use cxone_sdk_golang.Prelude.{
  Bool, false, String, Option, none, some, List, [], ◌∷◌, ◌||◌, if◌then◌else◌,
}
use cxone_sdk_golang.Prelude.Int.{ℤ, pos}
use cxone_sdk_golang.Prelude.Text.{str_eq, concat_all}
use cxone_sdk_golang.Errors.{Error, configuration_error}
use cxone_sdk_golang.Endpoints.{Funnel, Codec, fetch, send, as_slice}
use cxone_sdk_golang.Endpoints.Url.{join_url}
use cxone_sdk_golang.Endpoints.Users.{required, ok_codes, no_content}

-- AuditSession, with the status and the request of its Data, and the fields that the SDK fills
pub record AuditSession : Type 0 where
  pub id : String
  pub status : String
  pub request_id : String
  pub query_filters : List String
  pub engine : String
  pub project_id : String

pub record AuditCreateRequest : Type 0 where
  pub scanner : String
  pub filter : String
  pub project_id : String
  pub scan_id : String

-- AuditRequestStatus; `V` has the values of Go's `any` that JSON can give
pub record AuditRequestStatus (V : Type 0) : Type 0 where
  pub completed : Bool
  pub value : V
  pub error_code : ℤ
  pub error_message : String
  pub status : String

pub record AuditScanSourceFile : Type 0 where
  pub filename : String
  pub language : String
  pub size : ℤ

-- what the package is given; `no_value` is the nil of Go's `any`
pub record AuditApi (W V : Type 0) : Type 0 where
  pub funnel : Funnel W
  pub base : String
  pub session : Codec AuditCreateRequest AuditSession
  pub request_status : Codec Unit (AuditRequestStatus V)
  pub sources : Codec Unit (List AuditScanSourceFile)
  pub nothing : Codec Unit Unit
  pub no_value : V

abbrev pub zero_session : AuditSession
zero_session = record {
  id = "";
  status = "";
  request_id = "";
  query_filters = [];
  engine = "";
  project_id = "";
}

-- what CreateSession adds to an answer
abbrev pub scoped : AuditCreateRequest → AuditSession → AuditSession
scoped req s = record s { engine = req.scanner; project_id = req.project_id }

module _ {W V : Type 0} (api : AuditApi W V) where
  abbrev sessions_url : List String → String
  sessions_url path = join_url api.base (concat_all ("api/query-editor/sessions" ∷ path))

  unfoldable pub session_created :
      AuditCreateRequest → (Option AuditSession × Error) × W → (Option AuditSession × Error) × W
  session_created req ((none, e), w) = ((none, e), w)
  session_created req ((some s, e), w) = ((some (scoped req s), e), w)

  -- CreateSession
  unfoldable pub create_session : Option AuditCreateRequest → W → (Option AuditSession × Error) × W
  create_session none w = ((none, required "request.Scanner"), w)
  create_session (some req) w =
      if str_eq req.scanner ""
      then ((none, required "request.Scanner"), w)
      else session_created req (
          fetch api.funnel api.session "POST" (sessions_url []) [] (some req) (200 ∷ 201 ∷ [])
            zero_session w)

  -- DeleteSession
  unfoldable pub delete_session : String → W → Error × W
  delete_session id w =
      if str_eq id ""
      then (required "sessionID", w)
      else send api.funnel api.nothing "DELETE" (sessions_url ("/" ∷ id ∷ [])) none no_content w

  -- KeepAlive
  unfoldable pub keep_alive : String → W → Error × W
  keep_alive id w =
      if str_eq id ""
      then (required "sessionID", w)
      else send api.funnel api.nothing "PATCH" (sessions_url ("/" ∷ id ∷ [])) none (200 ∷ 204 ∷ [])
          w

  abbrev zero_request : AuditRequestStatus V
  zero_request = record {
    completed = false;
    value = api.no_value;
    error_code = pos 0;
    error_message = "";
    status = "";
  }

  -- GetRequestStatus
  unfoldable pub get_request_status :
      String → String → W → (Option (AuditRequestStatus V) × Error) × W
  get_request_status id request w =
      if str_eq id "" || str_eq request ""
      then ((none, configuration_error "sessionID/requestID" "both are required"), w)
      else fetch api.funnel api.request_status "GET"
          (sessions_url ("/" ∷ id ∷ "/requests/" ∷ request ∷ [])) [] none ok_codes zero_request w

  -- GetScanSources
  unfoldable pub get_scan_sources : String → W → (List AuditScanSourceFile × Error) × W
  get_scan_sources id w =
      if str_eq id ""
      then (([], required "sessionID"), w)
      else as_slice (
          fetch api.funnel api.sources "GET" (sessions_url ("/" ∷ id ∷ "/sources" ∷ [])) [] none
            ok_codes [] w)

  -- RunScan
  unfoldable pub run_scan : String → W → Error × W
  run_scan id w =
      if str_eq id ""
      then (required "sessionID", w)
      else send api.funnel api.nothing "POST" (sessions_url ("/" ∷ id ∷ "/sources/scan" ∷ [])) none
          (200 ∷ 202 ∷ 204 ∷ []) w
