-- ===== src/Endpoints/Reports.antt =====
-- internal/endpoints/reports/reports.go: reports as JSON and as PDF.
use cxone_sdk_golang.Prelude.{ℕ, String, Option, none, some, List, [], ◌∷◌}
use cxone_sdk_golang.Prelude.Text.{concat}
use cxone_sdk_golang.Errors.{Error}
use cxone_sdk_golang.Transport.Stream.{Funnel, do_stream}
use cxone_sdk_golang.Endpoints.{Codec, fetch}
use cxone_sdk_golang.Endpoints.Url.{join_url}
use cxone_sdk_golang.Endpoints.Users.{ok_codes}

pub record ReportData : Type 0 where
  pub scan_id : String
  pub project_id : String
  pub branch_name : String
  pub sections : List String
  pub scanners : List String
  pub email : List String
  pub host : String

-- JSONReportRequest, and PDFReportRequest, which has the same fields
pub record ReportRequest : Type 0 where
  pub report_name : String
  pub report_type : String
  pub file_format : String
  pub data_of : ReportData

-- JSONReportPollingResponse and PDFReportPollingResponse, as far as they are read
pub record ReportStatus : Type 0 where
  pub status : String
  pub url : String

-- What the package is given. The answer to a request is the id of the report.
pub record ReportApi (W : Type 0) : Type 0 where
  pub funnel : Funnel W
  pub base : String
  pub create : Codec ReportRequest String
  pub poll : Codec Unit ReportStatus

abbrev accepted : List ℕ
accepted = 202 ∷ []

abbrev zero_status : ReportStatus
zero_status = record { status = ""; url = "" }

module _ {W : Type 0} (api : ReportApi W) where
  abbrev json_url : String → String
  json_url path = join_url api.base (concat "api/reports/json" path)

  abbrev pdf_url : String → String
  pdf_url path = join_url api.base (concat "api/reports/pdf" path)

  -- CreateJSON
  unfoldable pub create_json : ReportRequest → W → (Option String × Error) × W
  create_json r w = fetch api.funnel api.create "POST" (json_url "") [] (some r) accepted "" w

  -- PollJSON
  unfoldable pub poll_json : String → W → (Option ReportStatus × Error) × W
  poll_json id w =
      fetch api.funnel api.poll "GET" (json_url (concat "/" id)) (("return-url", "true" ∷ []) ∷ [])
        none ok_codes zero_status w

  -- DownloadJSON
  unfoldable pub download_json : String → W → (Option (Option ℕ) × Error) × W
  download_json id w =
      do_stream api.funnel
        (record {
          method = "GET";
          url = json_url (concat "/" (concat id "/download"));
          query = [];
          expected = ok_codes;
        })
        w

  -- CreatePDF
  unfoldable pub create_pdf : ReportRequest → W → (Option String × Error) × W
  create_pdf r w = fetch api.funnel api.create "POST" (pdf_url "") [] (some r) accepted "" w

  -- PollPDF
  unfoldable pub poll_pdf : String → W → (Option ReportStatus × Error) × W
  poll_pdf id w =
      fetch api.funnel api.poll "GET" (pdf_url (concat "/" id)) (("return-url", "true" ∷ []) ∷ [])
        none ok_codes zero_status w

  -- DownloadPDF
  unfoldable pub download_pdf : String → W → (Option (Option ℕ) × Error) × W
  download_pdf id w =
      do_stream api.funnel
        (record {
          method = "GET";
          url = pdf_url (concat "/" (concat id "/download"));
          query = [];
          expected = ok_codes;
        })
        w
