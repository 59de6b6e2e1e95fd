-- ===== src/Scans/Waiter.antt =====
-- workflows/scans/waiter.go: waiting for a scan to end.
pub mod Ends
use cxone_sdk_golang.Prelude.{
  ℕ, zero, suc, ◌≡◌, Bool, true, false, String, Option, none, some, List, [], ◌∷◌, if◌then◌else◌,
}
use cxone_sdk_golang.Prelude.Int.{ℤ, pos, ltb_ℤ, leb_ℤ, wrap_int, ◌+ℤ◌, ◌-ℤ◌}
use cxone_sdk_golang.Waiting.{Clock, compute_deadline, sleep_until}
use cxone_sdk_golang.Errors.{
  Error, nil, is_nil, sentinel, deadline_exceeded, scan_error, configuration_error,
}
use cxone_sdk_golang.Scans.Inspector.{ScanResponseModel, is_successful, is_failed, state_message}

-- What the waiter calls and does not implement: the context, the clock, the endpoint of a scan and
-- the logger.
pub record Service (W : Type 0) : Type 0 where
  pub clock : Clock W
  pub get : String → W → (ScanResponseModel × Error) × W
  pub log_poll : String → String → String → W → W

pub record WaitOptions : Type 0 where
  pub poll_interval : ℤ
  pub max_duration : ℤ
  pub suppress_failure : Bool

abbrev pub default_poll_interval : ℤ
default_poll_interval = pos 10_000_000_000

abbrev pub Waited : Type 0 → Type 0
Waited W = (ScanResponseModel × Error) × W

module _ {W : Type 0} (service : Service W) where
  -- after the sleep: Refresh, and the next round with what it left
  unfoldable pub refreshed :
      ScanResponseModel → (ScanResponseModel → W → Option (Waited W)) → Waited W → Option (Waited W)
  refreshed scan rest ((found, e), w) = if is_nil e then rest found w else some ((scan, e), w)

  unfoldable pub slept :
      ScanResponseModel
      → (ScanResponseModel → W → Option (Waited W))
      → Error × W
      → Option (Waited W)
  unfolding refreshed
  slept scan rest (e, w) =
      if is_nil e then refreshed scan rest (service.get scan.id w) else some ((scan, e), w)

  -- one round of the loop
  unfoldable pub poll :
      WaitOptions
      → Option ℤ
      → ScanResponseModel
      → (ScanResponseModel → W → Option (Waited W))
      → W
      → Option (Waited W)
  unfolding slept sleep_until
  poll opts deadline scan rest w =
      let seen = service.log_poll scan.id scan.status (state_message scan) w in
      if is_successful scan
      then some ((scan, nil), seen)
      else if is_failed scan
      then (if opts.suppress_failure
          then some ((scan, nil), seen)
          else some ((scan, scan_error scan.id (state_message scan) nil), seen))
      else slept scan rest (sleep_until service.clock opts.poll_interval deadline seen)

  -- the loop, on fuel: one unit for each round
  unfoldable pub polls : ℕ → WaitOptions → Option ℤ → ScanResponseModel → W → Option (Waited W)
  unfolding poll
  polls zero opts deadline scan w = none
  polls (suc fuel) opts deadline scan w = poll opts deadline scan (polls fuel opts deadline) w

  -- the options with their defaults
  abbrev pub with_poll_interval : WaitOptions → WaitOptions
  with_poll_interval opts =
      if leb_ℤ opts.poll_interval (pos 0)
      then record opts { poll_interval = default_poll_interval }
      else opts

  -- WaitUntilComplete, of an inspector that is there
  unfoldable pub wait_until_complete : ℕ → WaitOptions → ScanResponseModel → W → Option (Waited W)
  unfolding polls compute_deadline
  wait_until_complete fuel opts scan w =
      let (deadline, w') = compute_deadline service.clock opts.max_duration w in
      polls fuel (with_poll_interval opts) deadline scan w'
