-- ===== src/Migration/Examples.antt =====
-- workflows/migration: the theorem at a concrete input.
use cxone_sdk_golang.Prelude.{
  ℕ, ◌-◌, ◌≡◌, refl, ◌<◌, ◌⊎◌, inl, inr, arith, true, Option, none, leb, Bool-cases, [],
  if◌then◌else◌,
}
use cxone_sdk_golang.Prelude.Int.{pos}
use cxone_sdk_golang.Errors.{nil, opaque}
use cxone_sdk_golang.Scripted.{quiet}
use cxone_sdk_golang.Scripted.Http.{answering, decoding}
use cxone_sdk_golang.Transport.Types.{error}
use cxone_sdk_golang.Transport.Json.{
  append_query, addressed, with_body, received, answered, decoded, do_json,
}
use cxone_sdk_golang.Waiting.{Clock, compute_deadline, sleep_until}
use cxone_sdk_golang.Endpoints.{fetch, answer}
use cxone_sdk_golang.Endpoints.Migration.{MigrationApi, DataImport, get_import}
use cxone_sdk_golang.Migration.{
  ImportInspector, ImportWaitOptions, import_status, is_import_completed, is_import_failed,
  is_import_terminal, import_seen, refresh_import, import_interval, wait_for_import,
}
use cxone_sdk_golang.Migration.Ends.{seeing, ImportEnds, Approaches, wait_for_import-ImportEnds}

-- an import that is partial from the fourth exchange on
abbrev api : MigrationApi ℕ
api = record {
  funnel = answering (λ n. if leb 3 n then "partial" else "running");
  base = "https://ast.example.net";
  start_codec = decoding (λ s. s);
  import_codec = decoding (λ s. record { migration_id = "m-1"; status = s });
  imports_codec = decoding (λ s. []);
  build = λ url. nil;
  get_plain = λ url w. (error (opaque "unreachable"), w);
  read_up_to = λ b n w. (("", nil), w);
}

abbrev inspector : ImportInspector ℕ
inspector = record { backend = api; import_id = "m-1"; snapshot = none }

abbrev clock : Clock ℕ
clock = record { ctx = quiet; ctx_deadline = λ w. (none, w); now = λ w. (pos w, w) }

abbrev patient : ImportWaitOptions
patient = record { poll_interval = pos 1; max_duration = pos 0 }

refreshed_again :
    (d : Option DataImport) (w : ℕ)
    → (is_import_terminal (refresh_import (seeing inspector d) w).1.0 ≡ true)
      ⊎ (4 - (refresh_import (seeing inspector d) w).1.1 < 4 - w)
unfolding refresh_import import_seen get_import fetch answer do_json addressed with_body received
    answered decoded append_query is_import_terminal is_import_completed is_import_failed
    import_status
refreshed_again d w = elim (Bool-cases (leb 3 w)) [
  | inl late ↦ rw late (inl refl)
  | inr early ↦ rw early (inr (ground (arith, early)))
]

clock-Approaches :
    Approaches clock
      (import_interval clock patient)
      (compute_deadline clock patient.max_duration 0).0
      inspector
      (λ w. 4 - w)
unfolding sleep_until compute_deadline
clock-Approaches = record { sleeps = λ w q. omega arith; refreshes = λ d w ok. refreshed_again d w }

wait_for_import-ImportEnds_example :
    ImportEnds clock
      (import_interval clock patient)
      (compute_deadline clock patient.max_duration 0).0
      (wait_for_import clock 6 patient inspector 0)
unfolding compute_deadline
wait_for_import-ImportEnds_example =
    wait_for_import-ImportEnds clock patient (λ w. 4 - w) 6 inspector 0 clock-Approaches
      (omega arith)
