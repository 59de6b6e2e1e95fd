-- ===== src/Reports/Wait.antt =====
-- workflows/reports/reports.go: waiting for a report, and writing it out.
pub mod Ends
use cxone_sdk_golang.Prelude.{
  ℕ, zero, suc, Bool, true, false, String, Option, none, some, if◌then◌else◌,
}
use cxone_sdk_golang.Prelude.Int.{ℤ, pos, leb_ℤ}
use cxone_sdk_golang.Prelude.Text.{str_eq}
use cxone_sdk_golang.Errors.{Error, nil, is_nil, report_error}
use cxone_sdk_golang.Waiting.{Clock, compute_deadline, sleep_until}
use cxone_sdk_golang.Reports.{Handle, poll, download}

-- What the waiter calls and does not implement: the context, the clock, the logger, and io.Copy to
-- the destination.
pub record WaitService (W : Type 0) : Type 0 where
  pub clock : Clock W
  pub log_poll : String → String → W → W
  pub copy : Option ℕ → W → (ℕ × Error) × W

pub record WaitOptions : Type 0 where
  pub poll_interval : ℤ
  pub max_duration : ℤ

-- the error, the handle and the world when Wait returns
abbrev pub Waited : Type 0 → Type 0
Waited W = Option (Error × (Handle W × W))

module _ {W : Type 0} (service : WaitService W) where
  -- after the sleep: the next round
  unfoldable pub woken_up : Handle W → (Handle W → W → Waited W) → Error × W → Waited W
  woken_up h rest (e, w) = if is_nil e then rest h w else some (e, (h, w))

  -- the `switch` on the status, and the sleep
  unfoldable pub judged : ℤ → Option ℤ → Handle W → (Handle W → W → Waited W) → W → Waited W
  judged interval deadline h rest w =
      if str_eq h.last_status "completed"
      then some (nil, (h, w))
      else if str_eq h.last_status "failed"
      then some (report_error h.report_id "platform reported failed status" nil, (h, w))
      else woken_up h rest (sleep_until service.clock interval deadline w)

  unfoldable pub polled :
      ℤ → Option ℤ → (Handle W → W → Waited W) → Error × (Handle W × W) → Waited W
  polled interval deadline rest (e, (h, w)) =
      if is_nil e
      then judged interval deadline h rest (service.log_poll h.report_id h.last_status w)
      else some (e, (h, w))

  -- the loop, on fuel: one unit for each round
  unfoldable pub wait_rounds : ℕ → ℤ → Option ℤ → Handle W → W → Waited W
  wait_rounds zero interval deadline h w = none
  wait_rounds (suc fuel) interval deadline h w =
      polled interval deadline (wait_rounds fuel interval deadline) (poll h w)

  -- the interval with its default, five seconds
  abbrev pub interval_of : WaitOptions → ℤ
  interval_of opts =
      if leb_ℤ opts.poll_interval (pos 0) then pos 5_000_000_000 else opts.poll_interval

  -- Wait
  unfoldable pub wait : ℕ → WaitOptions → Handle W → W → Waited W
  wait fuel opts h w =
      let (deadline, w') = compute_deadline service.clock opts.max_duration w in
      wait_rounds fuel (interval_of opts) deadline h w'

  -- io.Copy, and the close after it
  unfoldable pub copied : Handle W → (Option (Option ℕ) × Error) × W → (ℕ × Error) × (Handle W × W)
  copied h ((none, e), w) = ((0, e), (h, w))
  copied h ((some body, e), w) =
      if is_nil e
      then (let (r, w') = service.copy body w in (r, (h, h.backend.funnel.close body w')))
      else ((0, e), (h, w))

  unfoldable pub written : Waited W → Option ((ℕ × Error) × (Handle W × W))
  written none = none
  written (some (e, (h, w))) =
      if is_nil e then some (copied h (download h w)) else some ((0, e), (h, w))

  -- WaitAndDownload
  unfoldable pub wait_and_download :
      ℕ → WaitOptions → Handle W → W → Option ((ℕ × Error) × (Handle W × W))
  wait_and_download fuel opts h w = written (wait fuel opts h w)
