-- ===== src/Waiting.antt =====
-- What the waiters of workflows/scans, workflows/reports, workflows/audit and workflows/migration
-- share: each of the packages has these functions with the same text. The map names the lines of
-- workflows/scans/waiter.go.
use cxone_sdk_golang.Prelude.{Bool, Option, none, some, if◌then◌else◌}
use cxone_sdk_golang.Prelude.Int.{ℤ, pos, ltb_ℤ, leb_ℤ, wrap_int, ◌+ℤ◌, ◌-ℤ◌}
use cxone_sdk_golang.Context.{Context}
use cxone_sdk_golang.Errors.{Error, nil, sentinel, deadline_exceeded}

-- The context and the clock. A deadline is a time on the clock.
pub record Clock (W : Type 0) : Type 0 where
  pub ctx : Context W
  pub ctx_deadline : W → Option ℤ × W
  pub now : W → ℤ × W

module _ {W : Type 0} (clock : Clock W) where
  -- computeDeadline
  unfoldable pub compute_deadline : ℤ → W → Option ℤ × W
  unfolding ◌+ℤ◌ wrap_int
  compute_deadline max_dur w =
      if ltb_ℤ (pos 0) max_dur
      then (let (t, w') = clock.now w in (some (wrap_int (t +ℤ max_dur)), w'))
      else clock.ctx_deadline w

  -- the `select` at the end of sleepUntil
  unfoldable pub woken : Bool × W → Error × W
  woken (fired, w) = if fired then (nil, w) else clock.ctx.err w

  -- sleepUntil, when so much time remains
  unfoldable pub sleep_remaining : ℤ → ℤ → W → Error × W
  unfolding woken
  sleep_remaining interval remaining w =
      if ltb_ℤ remaining interval
      then if leb_ℤ remaining (pos 0)
        then (sentinel deadline_exceeded, w)
        else woken (clock.ctx.wait remaining w)
      else woken (clock.ctx.wait interval w)

  -- sleepUntil
  unfoldable pub sleep_until : ℤ → Option ℤ → W → Error × W
  unfolding sleep_remaining ◌-ℤ◌
  sleep_until interval none w = woken (clock.ctx.wait interval w)
  sleep_until interval (some deadline) w =
      let (t, w') = clock.now w in sleep_remaining interval (deadline -ℤ t) w'
