-- ===== src/Scans/Examples.antt =====
-- workflows/scans: the theorems at concrete inputs.
use cxone_sdk_golang.Prelude.{
  ℕ, ◌+◌, ◌-◌, ◌≡◌, ◌==◌, refl, inl, inr, true, false, String, none, some, List, [], ◌∷◌, arith,
  leb, length, Bool-cases, if◌then◌else◌,
}
use cxone_sdk_golang.Prelude.Int.{pos}
use cxone_sdk_golang.Prelude.Maps.{get, put}
use cxone_sdk_golang.Scripted.{quiet}
use cxone_sdk_golang.Errors.{Error, nil, is_nil}
use cxone_sdk_golang.Scripted.Http.{answering, decoding}
use cxone_sdk_golang.Transport.Types.{response}
use cxone_sdk_golang.Endpoints.Projects.{ProjectResponseModel}
use cxone_sdk_golang.Endpoints.Scans.{ScanApi}
use cxone_sdk_golang.Scans.Invoker.{Invoker, Handler, new_invoker, with_engines, validate, start}
use cxone_sdk_golang.Scans.Invoker.Validation.{is_valid, Refused, start-validated}
use cxone_sdk_golang.Scans.Inspector.{
  ScanResponseModel, partial_bucket, is_executing, is_successful, is_failed,
}
use cxone_sdk_golang.Scans.Inspector.States.{
  relevant, summary, partial_bucket-summary, one_if, is_known, states_exclusive,
}
use cxone_sdk_golang.Scans.Compare.{
  ScanResult, by_similarity_id, CompareOptions, diff_results, group_not_exploitable,
}
use cxone_sdk_golang.Scans.Compare.Groups.{total, Sorted, suppressed, group_not_exploitable-Sorted}
use cxone_sdk_golang.Scans.Waiter.{Service, WaitOptions, with_poll_interval, wait_until_complete}
use cxone_sdk_golang.Waiting.{sleep_until, compute_deadline}
use cxone_sdk_golang.Scans.Waiter.Ends.{Advances, Ends, wait_until_complete-Ends}

abbrev partial : ScanResponseModel
partial = record {
  id = "s-1";
  status = "Partial";
  engines = "SAST" ∷ "kics" ∷ [];
  status_details =
      record { name = "sast"; status = "Running"; details = "" }
      ∷ record { name = "sca"; status = "Failed"; details = "no licence" }
      ∷ [];
}

partial_bucket-summary_example :
    partial_bucket partial
    ≡ summary (relevant (length partial.engines == 0) partial.engines partial.status_details)
partial_bucket-summary_example = partial_bucket-summary partial

states_exclusive_example :
    one_if (is_executing partial) + one_if (is_successful partial) + one_if (is_failed partial)
    ≡ one_if (is_known "Partial")
states_exclusive_example = states_exclusive partial

abbrev running : ScanResponseModel
running = record partial { status = "Running" }

-- a scan that is completed at the third refresh
abbrev third_time : Service ℕ
third_time = record {
  clock = record { ctx = quiet; ctx_deadline = λ w. (none, w); now = λ w. (pos w, w) };
  get =
      λ i w. ((record running { status = if leb 2 w then "Completed" else "Running" }, nil), w + 1);
  log_poll = λ i s m w. w;
}

abbrev patient : WaitOptions
patient = record { poll_interval = pos 1; max_duration = pos 0; suppress_failure = false }

third_time-Advances :
    Advances third_time
      (with_poll_interval third_time patient)
      (compute_deadline third_time.clock patient.max_duration 0).0
      (λ w. 3 - w)
unfolding sleep_until compute_deadline is_successful
third_time-Advances = record {
  logs = λ i s m w. omega arith;
  sleeps = λ w q. omega arith;
  gets = λ i w q. elim (Bool-cases (leb 2 w)) [
    | inl late ↦ rw late (inl refl)
    | inr early ↦ inr (inr (ground arith))
  ];
}

wait_until_complete-Ends_example :
    Ends third_time
      (with_poll_interval third_time patient).poll_interval
      (compute_deadline third_time.clock patient.max_duration 0).0
      false
      (wait_until_complete third_time 5 patient running 0)
unfolding compute_deadline
wait_until_complete-Ends_example =
    wait_until_complete-Ends third_time patient (λ w. 3 - w) 5 running 0 third_time-Advances
      (omega arith)

abbrev result : String → String → String → ScanResult
result id severity state = record {
  similarity_id = id;
  result_hash = "";
  severity = severity;
  kind = "sast";
  state = state;
  query_name = "Stored XSS";
}

abbrev old_results : List ScanResult
old_results = result "1" "HIGH" "TO_VERIFY" ∷ result "2" "LOW" "TO_VERIFY" ∷ []

abbrev new_results : List ScanResult
new_results =
    result "2" "HIGH" "NOT_EXPLOITABLE"
    ∷ result "3" "HIGH" "TO_VERIFY"
    ∷ result "3" "HIGH" "CONFIRMED"
    ∷ []

abbrev everything : CompareOptions
everything = record {
  identity_key = by_similarity_id;
  severities = none;
  engines = some ("sast" ∷ []);
}

totals_computed :
    (diff_results old_results new_results everything).totals
    ≡ record { new = 1; resolved = 1; recurrent = 1 }
unfolding diff_results get put
totals_computed = refl

group_not_exploitable-Sorted_example :
    Sorted (group_not_exploitable new_results everything)
    × (total (group_not_exploitable new_results everything) ≡ suppressed everything new_results)
group_not_exploitable-Sorted_example = group_not_exploitable-Sorted new_results everything

abbrev shop : ProjectResponseModel
shop = record {
  id = "p-1";
  name = "shop";
  repo_url = "https://git.example.net/shop";
  main_branch = "";
}

abbrev scan_api : ScanApi ℕ String
scan_api = record {
  funnel = answering (λ n. "{}");
  base = "https://ast.example.net";
  scan = decoding (λ s. running);
  scans = decoding (λ s. []);
  workflow = decoding (λ s. []);
  status = decoding (λ s. tt);
  nothing = decoding (λ s. tt);
  tags = decoding (λ s. []);
  upload = decoding (λ s. "https://store.example.net/u");
  build = λ u. nil;
  put = λ u b n w. (response (record { status_code = 200; header = []; body = none }), w + 1);
}

-- no branch is given, and the project has none
abbrev branchless : Invoker ℕ String
branchless = with_engines ("sast" ∷ []) (new_invoker (some scan_api) (some shop) true)

abbrev marshal : Handler → String × Error
marshal h = ("{}", nil)

start-validated_example :
    (is_nil (validate branchless).0 ≡ is_valid branchless)
    × (is_valid branchless ≡ false → Refused 0 (start marshal branchless 0))
start-validated_example = start-validated marshal branchless 0 refl
