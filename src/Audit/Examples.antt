-- ===== src/Audit/Examples.antt =====
-- workflows/audit: the theorem at a concrete input.
use cxone_sdk_golang.Prelude.{
  ℕ, ◌-◌, ◌≡◌, refl, ap, ◌≤◌, ◌<◌, inl, inr, arith, Bool, true, false, String, Option, none, some,
  leb, Bool-cases, [], if◌then◌else◌,
}
use cxone_sdk_golang.Prelude.Int.{pos}
use cxone_sdk_golang.Prelude.Text.{str_eq}
use cxone_sdk_golang.Scripted.{quiet}
use cxone_sdk_golang.Scripted.Http.{answering, decoding}
use cxone_sdk_golang.Waiting.{compute_deadline, sleep_until}
use cxone_sdk_golang.Transport.Json.{
  append_query, addressed, with_body, received, answered, decoded, do_json,
}
use cxone_sdk_golang.Endpoints.{fetch, answer, send, send_query}
use cxone_sdk_golang.Endpoints.Audit.{
  AuditApi, AuditRequestStatus, get_request_status, keep_alive, zero_session,
}
use cxone_sdk_golang.Audit.{
  SessionInspector, AuditWaitService, AuditWaitOptions, keep_session_alive, poll_request,
  audit_interval, wait_for_request,
}
use cxone_sdk_golang.Audit.Ends.{Concluded, Nears, wait_for_request-Concluded}

-- the status of a request that is completed from the fourth exchange on
abbrev status_at : String → AuditRequestStatus ℕ
status_at s = record {
  completed = str_eq s "done";
  value = 7;
  error_code = pos 0;
  error_message = "";
  status = "Running";
}

abbrev api : AuditApi ℕ ℕ
api = record {
  funnel = answering (λ n. if leb 3 n then "done" else "wait");
  base = "https://ast.example.net";
  session = decoding (λ s. zero_session);
  request_status = decoding status_at;
  sources = decoding (λ s. []);
  nothing = decoding (λ s. tt);
  no_value = 0;
}

abbrev inspector : SessionInspector ℕ ℕ
inspector = record { backend = api; session = record (zero_session) { id = "s-1" } }

abbrev service : AuditWaitService ℕ ℕ
service = record {
  clock = record { ctx = quiet; ctx_deadline = λ w. (none, w); now = λ w. (pos w, w) };
  print_int = λ n. "0";
  print_value = λ v. "7";
}

abbrev patient : AuditWaitOptions
patient = record { poll_interval = pos 1; max_duration = pos 0 }

abbrev says_completed : Option (AuditRequestStatus ℕ) → Bool
says_completed none = true
says_completed (some s) = s.completed

completed_late :
    (w : ℕ) → leb 3 w ≡ true → says_completed (poll_request inspector "q-1" w).0.0 ≡ true
unfolding poll_request get_request_status fetch answer do_json addressed with_body received answered
    decoded append_query
completed_late w late = rw late refl

polled_again :
    (w : ℕ) (s : AuditRequestStatus ℕ)
    → (poll_request inspector "q-1" w).0.0 ≡ some s
    → s.completed ≡ false
    → 4 - (poll_request inspector "q-1" w).1 < 4 - w
unfolding poll_request get_request_status fetch answer do_json addressed with_body received answered
    decoded append_query
polled_again w s is pending = elim (Bool-cases (leb 3 w)) [
  | inl late ↦ absurd (ground (arith, ap says_completed is, completed_late w late, pending))
  | inr early ↦ ground (arith, early)
]

heartbeat : (w : ℕ) → 4 - (keep_session_alive inspector w).1 ≤ 4 - w
unfolding keep_session_alive keep_alive send send_query do_json addressed with_body received
    answered append_query
heartbeat w = omega arith

service-Nears :
    Nears service inspector "q-1"
      (audit_interval patient)
      (compute_deadline service.clock patient.max_duration 0).0
      (λ w. 4 - w)
unfolding sleep_until compute_deadline
service-Nears = record {
  heartbeats = heartbeat;
  sleeps = λ w q. omega arith;
  polls = λ w s is ok kept pending. polled_again w s is pending;
}

wait_for_request-Concluded_example :
    Concluded service inspector "q-1" (wait_for_request service (some inspector) 6 patient "q-1" 0)
unfolding compute_deadline
wait_for_request-Concluded_example =
    wait_for_request-Concluded service inspector patient "q-1" (λ w. 4 - w) 6 0 refl service-Nears
      (omega arith)
