-- ===== src/Endpoints/Migration.antt =====
-- internal/endpoints/migration/migration.go: imports of a tenant's data.
use cxone_sdk_golang.Prelude.{
  ℕ, Bool, String, Option, none, some, List, [], ◌∷◌, ◌||◌, ltb, leb, if◌then◌else◌,
}
use cxone_sdk_golang.Prelude.Int.{pos}
use cxone_sdk_golang.Prelude.Text.{str_eq, concat, concat_all}
use cxone_sdk_golang.Errors.{Error, nil, is_nil, wrapped, communication_error, response_error}
use cxone_sdk_golang.Errors.Message.{message}
use cxone_sdk_golang.Transport.Types.{Request, Response, Reply, response, error}
use cxone_sdk_golang.Endpoints.{Funnel, Codec, fetch, as_slice}
use cxone_sdk_golang.Endpoints.Url.{join_url}
use cxone_sdk_golang.Endpoints.Create.{location_of}
use cxone_sdk_golang.Endpoints.Users.{required, ok_codes}

-- DataImport, without its time and its logs
pub record DataImport : Type 0 where
  pub migration_id : String
  pub status : String

pub record ImportStartRequest : Type 0 where
  pub file_name : String
  pub projects_mapping_file_name : String
  pub encryption_key : String

-- What the package is given. The answer to a start is the migration id. `build` is
-- http.NewRequestWithContext of a GET, `get_plain` the HTTP client's Do of it, and `read_up_to`
-- io.Copy to a buffer with a limit.
pub record MigrationApi (W : Type 0) : Type 0 where
  pub funnel : Funnel W
  pub base : String
  pub start_codec : Codec ImportStartRequest String
  pub import_codec : Codec Unit DataImport
  pub imports_codec : Codec Unit (List DataImport)
  pub build : String → Error
  pub get_plain : String → W → Reply × W
  pub read_up_to : Option ℕ → ℕ → W → (String × Error) × W

module _ {W : Type 0} (api : MigrationApi W) where
  abbrev imports_url : List String → String
  imports_url path = join_url api.base (concat_all ("api/imports" ∷ path))

  unfoldable pub import_started : (Option String × Error) × W → (String × Error) × W
  import_started ((none, e), w) = (("", e), w)
  import_started ((some id, e), w) = ((id, e), w)

  -- StartImport
  unfoldable pub start_import : String → String → String → W → (String × Error) × W
  start_import file mapping key w =
      if str_eq file ""
      then (("", required "fileName"), w)
      else if str_eq key ""
      then (("", required "encryptionKey"), w)
      else import_started (
          fetch api.funnel api.start_codec "POST" (imports_url []) []
            (some (record {
              file_name = file;
              projects_mapping_file_name = mapping;
              encryption_key = key;
            }))
            (201 ∷ 200 ∷ []) "" w)

  -- List
  unfoldable pub list_imports : W → (List DataImport × Error) × W
  list_imports w =
      as_slice (fetch api.funnel api.imports_codec "GET" (imports_url []) [] none ok_codes [] w)

  -- Get
  unfoldable pub get_import : String → W → (Option DataImport × Error) × W
  get_import id w =
      if str_eq id ""
      then ((none, required "importID"), w)
      else fetch api.funnel api.import_codec "GET" (imports_url ("/" ∷ id ∷ [])) [] none ok_codes
          (record { migration_id = ""; status = "" }) w

  abbrev pub logs_failed : String → ℕ → Error → Error
  logs_failed url status cause =
      communication_error
        (record {
          method = "GET";
          url = url;
          status_code = status;
          attempt = 1;
          correlation_id = "";
        })
        cause

  -- the body of the log bundle
  unfoldable pub logs_read : (String × Error) × W → (String × Error) × W
  logs_read ((text, e), w) =
      if is_nil e
      then ((text, nil), w)
      else (("", wrapped (concat "read log body: " (message e)) e), w)

  -- what is made of the object store's answer, whose body is closed
  unfoldable pub logs_downloaded : String → Reply × W → (String × Error) × W
  logs_downloaded url (error e, w) = (("", logs_failed url 0 e), w)
  logs_downloaded url (response r, w) =
      if ltb r.status_code 200 || leb 300 r.status_code
      then (("", logs_failed url r.status_code nil), api.funnel.close r.body w)
      else (let (got, w') = logs_read (api.read_up_to r.body 67_108_864 w) in
          (got, api.funnel.close r.body w'))

  -- the redirect followed, without the funnel
  unfoldable pub logs_followed : String → W → (String × Error) × W
  logs_followed location w =
      if is_nil (api.build location) then logs_downloaded location (api.get_plain location w) else (
        (
          "",
          wrapped (concat "build log-download request: " (message (api.build location)))
              (api.build location),
        ),
        w,
      )

  -- the answer of the funnel; its body is read up to a limit at once, and closed at the end
  unfoldable pub logs_redirected : String → (Option Response × Error) × W → (String × Error) × W
  logs_redirected url ((none, e), w) = (("", e), w)
  logs_redirected url ((some resp, e), w) =
      if is_nil e
      then (let (r, w') = api.funnel.read resp.body 16_384 w in
          let (got, w'') =
            if str_eq (location_of resp.header) ""
            then (
              (
                "",
                response_error
                    (record {
                      method = "GET";
                      url = url;
                      status_code = resp.status_code;
                      correlation_id = resp.correlation_id;
                      reason = "GetLogs: missing Location header";
                    })
                    nil,
              ),
              w',
            )
            else logs_followed (location_of resp.header) w' in
          (got, api.funnel.close resp.body w''))
      else (("", e), w)

  abbrev logs_request : String → Request W
  logs_request url = record {
    view = record { method = "GET"; url = url; header = []; content_type = ""; timeout = pos 0 };
    body = none;
  }

  -- GetLogs, of a client that may be nil
  unfoldable pub get_logs : Bool → String → W → (String × Error) × W
  get_logs client id w =
      if str_eq id ""
      then (("", required "importID"), w)
      else if client
      then logs_redirected (imports_url ("/" ∷ id ∷ "/logs/download" ∷ []))
          (api.funnel.do_request (logs_request (imports_url ("/" ∷ id ∷ "/logs/download" ∷ []))) w)
      else (("", required "httpClient"), w)
