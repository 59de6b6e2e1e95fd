-- ===== src/Endpoints/Scans.antt =====
-- internal/endpoints/scans/scans.go and internal/endpoints/uploads/uploads.go: scans, and the upload
-- of an archive.
use cxone_sdk_golang.Prelude.{
  ℕ, Bool, not, ◌||◌, String, Option, none, some, List, [], ◌∷◌, ltb, leb, if◌then◌else◌,
}
use cxone_sdk_golang.Prelude.Int.{ℤ, pos, leb_ℤ}
use cxone_sdk_golang.Prelude.Text.{str_eq, concat}
use cxone_sdk_golang.Errors.{
  Error, nil, is_nil, configuration_error, communication_error, response_error, wrapped,
}
use cxone_sdk_golang.Errors.Message.{message}
use cxone_sdk_golang.Transport.Json.{Query}
use cxone_sdk_golang.Transport.Types.{Reply, response, error}
use cxone_sdk_golang.Endpoints.{Funnel, Codec, fetch, send, as_slice}
use cxone_sdk_golang.Endpoints.Url.{join_url}
use cxone_sdk_golang.Endpoints.Users.{ok_codes, required}
use cxone_sdk_golang.Scans.Inspector.{ScanResponseModel}

-- the request for a scan, models.Scan: the type of the source, its handler as a text, the project,
-- the tags, and a configuration for each engine, if there is one
pub record Scan (C : Type 0) : Type 0 where
  pub source_type : String
  pub handler : String
  pub project_id : String
  pub tags : List (String × String)
  pub config : List (String × Option C)

-- What the packages are given. `put` is the HTTP client's Do of a PUT of so many bytes with the
-- type of a zip archive, and `build` says what is wrong with its request.
pub record ScanApi (W C : Type 0) : Type 0 where
  pub funnel : Funnel W
  pub base : String
  pub scan : Codec (Scan C) ScanResponseModel
  pub scans : Codec Unit (List ScanResponseModel)
  pub workflow : Codec Unit (List String)
  pub status : Codec String Unit
  pub nothing : Codec Unit Unit
  pub tags : Codec Unit (List (String × List String))
  pub upload : Codec Unit String
  pub build : String → Error
  pub put : String → ℕ → ℤ → W → Reply × W

abbrev pub zero_scan : ScanResponseModel
zero_scan = record { id = ""; status = ""; engines = []; status_details = [] }

module _ {W C : Type 0} (api : ScanApi W C) where
  abbrev scans_url : String → String
  scans_url path = join_url api.base (concat "api/scans" path)

  -- Create
  unfoldable pub create_scan : Scan C → W → (Option ScanResponseModel × Error) × W
  create_scan scan w =
      fetch api.funnel api.scan "POST" (scans_url "") [] (some scan) (201 ∷ []) zero_scan w

  -- List
  unfoldable pub list_scans : Query → W → (Option (List ScanResponseModel) × Error) × W
  list_scans query w = fetch api.funnel api.scans "GET" (scans_url "") query none ok_codes [] w

  -- Get
  unfoldable pub get_scan : String → W → (Option ScanResponseModel × Error) × W
  get_scan id w =
      fetch api.funnel api.scan "GET" (scans_url (concat "/" id)) [] none ok_codes zero_scan w

  -- GetWorkflow
  unfoldable pub get_workflow : String → W → (List String × Error) × W
  get_workflow id w = as_slice (
      fetch api.funnel api.workflow "GET" (scans_url (concat "/" (concat id "/workflow"))) [] none
        ok_codes [] w)

  -- Cancel
  unfoldable pub cancel_scan : String → W → Error × W
  cancel_scan id w =
      send api.funnel api.status "PATCH" (scans_url (concat "/" id)) (some "Canceled") (204 ∷ []) w

  -- Delete
  unfoldable pub delete_scan : String → W → Error × W
  delete_scan id w =
      send api.funnel api.nothing "DELETE" (scans_url (concat "/" id)) none (204 ∷ []) w

  -- Tags
  unfoldable pub scan_tags : W → (List (String × List String) × Error) × W
  scan_tags w = as_slice (fetch api.funnel api.tags "GET" (scans_url "/tags") [] none ok_codes [] w)

  abbrev uploads_url : String
  uploads_url = join_url api.base "api/uploads"

  unfoldable pub presigned : (Option String × Error) × W → (String × Error) × W
  presigned ((none, e), w) = (("", e), w)
  presigned ((some url, e), w) =
      if not (is_nil e)
      then (("", e), w)
      else if str_eq url ""
      then (
        (
          "",
          response_error
              (record {
                method = "POST";
                url = uploads_url;
                status_code = 200;
                correlation_id = "";
                reason = "presigned URL response missing 'url' field";
              })
              nil,
        ),
        w,
      )
      else ((url, nil), w)

  -- GetPresignedURL
  unfoldable pub get_presigned_url : W → (String × Error) × W
  get_presigned_url w =
      presigned (fetch api.funnel api.upload "POST" uploads_url [] none ok_codes "" w)

  abbrev upload_failed : String → ℕ → Error → Error
  upload_failed url status cause =
      communication_error
        (record {
          method = "PUT";
          url = url;
          status_code = status;
          attempt = 1;
          correlation_id = "";
        })
        cause

  -- what is made of the object store's answer; its body is closed, and the start of it read first
  -- if the status is not a success
  unfoldable pub uploaded : String → Reply × W → Error × W
  uploaded url (error e, w) = (upload_failed url 0 e, w)
  uploaded url (response r, w) =
      if ltb r.status_code 200 || leb 300 r.status_code
      then (let (text, w') = api.funnel.read r.body 4_096 w in
          (upload_failed url r.status_code nil, api.funnel.close r.body w'))
      else (nil, api.funnel.close r.body w)

  -- PutFile, of a client that may be nil
  unfoldable pub put_file : Bool → String → Option ℕ → ℤ → W → Error × W
  put_file client url none size w = (
    if client
        then (if str_eq url "" then required "presignedURL" else required "body")
        else required "httpClient",
    w,
  )
  put_file client url (some body) size w =
      if client
      then (if str_eq url ""
          then (required "presignedURL", w)
          else if leb_ℤ size (pos 0)
          then (configuration_error "size" "must be > 0 (object stores require Content-Length)", w)
          else if is_nil (api.build url)
          then uploaded url (api.put url body size w)
          else (
            upload_failed url 0 (
                wrapped (concat "build upload request: " (message (api.build url)))
                  (api.build url)),
            w,
          ))
      else (required "httpClient", w)
