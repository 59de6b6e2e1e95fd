-- ===== src/Reports.antt =====
-- workflows/reports/reports.go: a report is requested, waited for and downloaded.
pub mod Wait
mod Examples
use cxone_sdk_golang.Prelude.{
  ℕ, zero, suc, Bool, true, false, String, Option, none, some, List, [], ◌∷◌, if◌then◌else◌,
}
use cxone_sdk_golang.Prelude.Int.{ℤ, pos, leb_ℤ}
use cxone_sdk_golang.Prelude.Text.{str_eq}
use cxone_sdk_golang.Errors.{Error, nil, is_nil, configuration_error, report_error}
use cxone_sdk_golang.Endpoints.Users.{required}
use cxone_sdk_golang.Endpoints.Reports.{
  ReportData, ReportRequest, ReportStatus, ReportApi, create_json, poll_json, download_json,
  create_pdf, poll_pdf, download_pdf,
}

-- Format is an int; any other value is `unknown`.
pub data Format : Type 0 where
  format_json format_pdf unknown : Format

pub record Builder (W : Type 0) : Type 0 where
  pub backend : Option (ReportApi W)
  pub format : Format
  pub report_name : String
  pub report_type : String
  pub file_format : String
  pub data_of : ReportData
  pub config_err : Error

abbrev no_data : ReportData
no_data = record {
  scan_id = "";
  project_id = "";
  branch_name = "";
  sections = [];
  scanners = [];
  email = [];
  host = "";
}

module _ {W : Type 0} where
  unfoldable pub new_report : Format → String → Option (ReportApi W) → Builder W
  new_report format extension none = record {
    backend = none;
    format = format_json;
    report_name = "";
    report_type = "";
    file_format = "";
    data_of = no_data;
    config_err = required "backend";
  }
  new_report format extension (some api) = record {
    backend = some api;
    format = format;
    report_name = "cxone-report";
    report_type = "ui";
    file_format = extension;
    data_of = no_data;
    config_err = nil;
  }

  -- NewJSONReport
  abbrev pub new_json_report : Option (ReportApi W) → Builder W
  new_json_report backend = new_report format_json "json" backend

  -- NewPDFReport
  abbrev pub new_pdf_report : Option (ReportApi W) → Builder W
  new_pdf_report backend = new_report format_pdf "pdf" backend

  -- ForScan
  abbrev pub for_scan : String → String → String → Builder W → Builder W
  for_scan scan project branch b = record b {
    data_of = record (b.data_of) { scan_id = scan; project_id = project; branch_name = branch };
  }

  -- WithSections
  abbrev pub with_sections : List String → Builder W → Builder W
  with_sections sections b = record b { data_of = record (b.data_of) { sections = sections } }

  -- WithScanners
  abbrev pub with_scanners : List String → Builder W → Builder W
  with_scanners scanners b = record b { data_of = record (b.data_of) { scanners = scanners } }

  -- WithEmail
  abbrev pub with_email : List String → Builder W → Builder W
  with_email addrs b = record b { data_of = record (b.data_of) { email = addrs } }

  -- WithHost
  abbrev pub with_host : String → Builder W → Builder W
  with_host host b = record b { data_of = record (b.data_of) { host = host } }

  -- WithReportName
  abbrev pub with_report_name : String → Builder W → Builder W
  with_report_name name b = record b { report_name = name }

  -- WithReportType
  abbrev pub with_report_type : String → Builder W → Builder W
  with_report_type rtype b = record b { report_type = rtype }

  -- WithFileFormat
  abbrev pub with_file_format : String → Builder W → Builder W
  with_file_format format b = record b { file_format = format }

-- Handle
pub record Handle (W : Type 0) : Type 0 where
  pub backend : ReportApi W
  pub format : Format
  pub report_id : String
  pub last_status : String
  pub last_url : String

module _ {W : Type 0} where
  abbrev pub report_request : Builder W → ReportRequest
  report_request b = record {
    report_name = b.report_name;
    report_type = b.report_type;
    file_format = b.file_format;
    data_of = b.data_of;
  }

  abbrev pub new_handle : ReportApi W → Format → String → Handle W
  new_handle api format id = record {
    backend = api;
    format = format;
    report_id = id;
    last_status = "";
    last_url = "";
  }

  -- the handle of a report that was queued
  unfoldable pub queued :
      ReportApi W → Format → (Option String × Error) × W → (Option (Handle W) × Error) × W
  queued api format ((none, e), w) = ((none, e), w)
  queued api format ((some id, e), w) =
      if is_nil e then ((some (new_handle api format id), nil), w) else ((none, e), w)

  -- the `switch` on the format
  unfoldable pub enqueue :
      Format → ReportApi W → ReportRequest → W → (Option (Handle W) × Error) × W
  enqueue format_json api r w = queued api format_json (create_json api r w)
  enqueue format_pdf api r w = queued api format_pdf (create_pdf api r w)
  enqueue unknown api r w = ((none, configuration_error "format" "unknown"), w)

  -- Generate; a builder without a backend has an error
  unfoldable pub generate : Builder W → W → (Option (Handle W) × Error) × W
  generate b w =
      if is_nil b.config_err
      then if str_eq b.data_of.scan_id ""
        then ((none, required "ScanID"), w)
        else if str_eq b.data_of.project_id ""
        then ((none, required "ProjectID"), w)
        else if str_eq b.data_of.branch_name ""
        then ((none, required "BranchName"), w)
        else elim b.backend [
          | none ↦ ((none, required "backend"), w)
          | some api ↦ enqueue b.format api (report_request b) w
        ]
      else ((none, b.config_err), w)

  -- what Poll keeps of a status
  unfoldable pub seen : Handle W → (Option ReportStatus × Error) × W → Error × (Handle W × W)
  seen h ((none, e), w) = (e, (h, w))
  seen h ((some s, e), w) =
      if is_nil e
      then (nil, (record h { last_status = s.status; last_url = s.url }, w))
      else (e, (h, w))

  unfoldable pub poll_as : Format → Handle W → W → Error × (Handle W × W)
  poll_as format_json h w = seen h (poll_json h.backend h.report_id w)
  poll_as format_pdf h w = seen h (poll_pdf h.backend h.report_id w)
  poll_as unknown h w = (configuration_error "format" "unknown", (h, w))

  -- Poll
  unfoldable pub poll : Handle W → W → Error × (Handle W × W)
  poll h w = poll_as h.format h w

  unfoldable pub download_as : Format → Handle W → W → (Option (Option ℕ) × Error) × W
  download_as format_json h w = download_json h.backend h.report_id w
  download_as format_pdf h w = download_pdf h.backend h.report_id w
  download_as unknown h w = ((none, configuration_error "format" "unknown"), w)

  -- Download
  unfoldable pub download : Handle W → W → (Option (Option ℕ) × Error) × W
  download h w = download_as h.format h w
