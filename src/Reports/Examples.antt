-- ===== src/Reports/Examples.antt =====
-- workflows/reports/reports.go: the theorem at a concrete input.
use cxone_sdk_golang.Prelude.{
  ℕ, ◌-◌, ◌≡◌, refl, sym, subst, ◌⊎◌, inl, inr, ◌<◌, arith, true, String, none, leb, Bool-cases,
  if◌then◌else◌,
}
use cxone_sdk_golang.Prelude.Int.{pos}
use cxone_sdk_golang.Prelude.Text.{str_eq}
use cxone_sdk_golang.Errors.{nil}
use cxone_sdk_golang.Scripted.{quiet}
use cxone_sdk_golang.Scripted.Http.{answering, decoding}
use cxone_sdk_golang.Waiting.{compute_deadline, sleep_until}
use cxone_sdk_golang.Transport.Json.{
  append_query, addressed, with_body, received, answered, decoded, do_json,
}
use cxone_sdk_golang.Endpoints.{fetch, answer}
use cxone_sdk_golang.Endpoints.Reports.{ReportApi, poll_json}
use cxone_sdk_golang.Reports.{Handle, new_handle, format_json, seen, poll_as, poll}
use cxone_sdk_golang.Reports.Wait.{WaitService, WaitOptions, interval_of, wait}
use cxone_sdk_golang.Reports.Wait.Ends.{observed, Advances, Ends, wait-Ends}

-- a report that is completed at the third poll
abbrev api : ReportApi ℕ
api = record {
  funnel = answering (λ n. if leb 2 n then "completed" else "started");
  base = "https://ast.example.net";
  create = decoding (λ s. "r-1");
  poll = decoding (λ s. record { status = s; url = "" });
}

abbrev handle : Handle ℕ
handle = new_handle api format_json "r-1"

abbrev service : WaitService ℕ
service = record {
  clock = record { ctx = quiet; ctx_deadline = λ w. (none, w); now = λ w. (pos w, w) };
  log_poll = λ i s w. w;
  copy = λ b w. ((0, nil), w);
}

abbrev patient : WaitOptions
patient = record { poll_interval = pos 1; max_duration = pos 0 }

polled_again :
    (s u : String) (w : ℕ)
    → (str_eq (poll (observed handle s u) w).1.0.last_status "completed" ≡ true)
      ⊎ (str_eq (poll (observed handle s u) w).1.0.last_status "failed" ≡ true)
      ⊎ (3 - (poll (observed handle s u) w).1.1 < 3 - w)
unfolding poll poll_as seen poll_json fetch answer do_json addressed with_body received answered
    decoded append_query
polled_again s u w = elim (Bool-cases (leb 2 w)) [
  | inl late ↦ rw late (inl refl)
  | inr early ↦ rw early (inr (inr (ground (arith, early))))
]

service-Advances :
    Advances service
      (interval_of service patient)
      (compute_deadline service.clock patient.max_duration 0).0
      handle
      (λ w. 3 - w)
unfolding sleep_until compute_deadline
service-Advances = record {
  logs = λ i s w. omega arith;
  sleeps = λ w q. omega arith;
  polls = λ h w same q.
      subst
        (λ g.
          (str_eq (poll g w).1.0.last_status "completed" ≡ true)
          ⊎ (str_eq (poll g w).1.0.last_status "failed" ≡ true)
          ⊎ (3 - (poll g w).1.1 < 3 - w))
        (sym same) (polled_again h.last_status h.last_url w);
}

wait-Ends_example :
    Ends service
      (interval_of service patient)
      (compute_deadline service.clock patient.max_duration 0).0
      (wait service 5 patient handle 0)
unfolding compute_deadline
wait-Ends_example = wait-Ends service patient (λ w. 3 - w) 5 handle 0 service-Advances (omega arith)
