-- ===== src/Retry.antt =====
-- internal/retry/retry.go: the policy, the delays, the verdict on a status, and the loop `Do`.
pub mod Transient
pub mod Rule
pub mod Log
pub mod Delay
mod Examples
use cxone_sdk_golang.Prelude.{
  ℕ, zero, suc, ◌+◌, Bool, true, false, not, ◌&&◌, ◌||◌, leb, ltb, ◌==◌, if◌then◌else◌,
}
use cxone_sdk_golang.Prelude.Int.{ℤ, pos, pos_part, leb_ℤ, ltb_ℤ, ◌+ℤ◌, ◌-ℤ◌}
use cxone_sdk_golang.Context.{Context, sleep}
use cxone_sdk_golang.Errors.{Error, nil, is_nil}

-- Durations are in nanoseconds.
pub record Policy : Type 0 where
  pub max_attempts : ℤ
  pub max_delay : ℤ
  pub randomize : Bool

abbrev pub second : ℤ
second = pos 1_000_000_000

abbrev pub default_policy : Policy
default_policy = record { max_attempts = pos 3; max_delay = pos 15_000_000_000; randomize = true }

pub data Outcome : Type 0 where
  success retry fatal : Outcome

-- ClassifyStatus
unfoldable pub classify_status : ℕ → Outcome
classify_status status =
    if leb 200 status && ltb status 300
    then success
    else if status == 500 || status == 502 || status == 503 || status == 504
    then retry
    else fatal

-- the lower bound of a jittered delay, and the width of its range
abbrev pub min_delay : Policy → ℤ
min_delay p = if ltb_ℤ p.max_delay second then p.max_delay else second

abbrev pub span : Policy → ℤ
span p = p.max_delay -ℤ min_delay p

abbrev pub no_delay : Policy → ℕ → Bool
no_delay p attempt = leb_ℤ p.max_attempts (pos attempt) || leb_ℤ p.max_delay (pos 0)

-- The random source of a policy: `int63n n` is Int63n(n).
module _ {W : Type 0} (int63n : ℕ → W → ℕ × W) where
  abbrev jittered : ℤ → ℕ × W → ℤ × W
  jittered low (r, w) = (low +ℤ pos r, w)

  -- nextDelay
  unfoldable pub next_delay : Policy → ℕ → W → ℤ × W
  next_delay p attempt w =
      if no_delay p attempt
      then (pos 0, w)
      else if not p.randomize
      then (p.max_delay, w)
      else if leb_ℤ (span p) (pos 0)
      then (min_delay p, w)
      else jittered (min_delay p) (int63n (pos_part (span p +ℤ pos 1)) w)

-- The start of `Do`: at least one attempt is made.
unfoldable pub at_least_one : Policy → Policy
at_least_one p = if leb_ℤ p.max_attempts (pos 0) then record p { max_attempts = pos 1 } else p

unfoldable pub attempts_of : Policy → ℕ
unfolding at_least_one
attempts_of p = pos_part (at_least_one p).max_attempts

abbrev pub Result : Type 0 → Type 0
Result W = (ℕ × Error) × W

-- What `Do` runs: the attempt's number to a verdict and an error.
abbrev pub Operation : Type 0 → Type 0
Operation W = ℕ → W → (Outcome × Error) × W

module _ {W : Type 0} (ctx : Context W) (int63n : ℕ → W → ℕ × W) (p : Policy) where
  -- after the delay is chosen: sleep, then go on or give up
  unfoldable pub pause : ℕ → Error → (Error → W → Result W) → ℤ × W → Result W
  pause attempt e rest (d, w) =
      let (sleep_err, w') = sleep ctx d w in
      if is_nil sleep_err then rest e w' else ((attempt, sleep_err), w')

  -- the `switch` on the outcome of an attempt
  unfoldable pub settle : ℕ → (Error → W → Result W) → (Outcome × Error) × W → Result W
  unfolding pause
  settle attempt rest ((success, e), w) = ((attempt, nil), w)
  settle attempt rest ((fatal, e), w) = ((attempt, e), w)
  settle attempt rest ((retry, e), w) =
      if attempt == attempts_of p
      then ((attempt, e), w)
      else pause attempt e rest (next_delay int63n (at_least_one p) attempt w)

  -- the body of the loop; `rest` is what the loop does from the next attempt on
  unfoldable pub round : Operation W → ℕ → (Error → W → Result W) → Error → W → Result W
  unfolding settle
  round fn attempt rest last_err w =
      let (e, w') = ctx.err w in
      if is_nil e then settle attempt rest (fn attempt w') else ((attempt, e), w')

  -- the loop, by the number of attempts left
  unfoldable pub rounds : Operation W → ℕ → ℕ → Error → W → Result W
  unfolding round
  rounds fn zero attempt last_err w = ((attempts_of p, last_err), w)
  rounds fn (suc left) attempt last_err w =
      round fn attempt (rounds fn left (attempt + 1)) last_err w

  -- Do
  unfoldable pub run : Operation W → W → Result W
  unfolding rounds
  run fn w = rounds fn (attempts_of p) 1 nil w
