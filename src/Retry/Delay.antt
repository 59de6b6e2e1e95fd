-- ===== src/Retry/Delay.antt =====
-- internal/retry/retry.go: the bounds of the delay between two attempts.
use cxone_sdk_golang.Prelude.{ℕ, ◌+◌, ◌-◌, ◌<◌, ◌≡◌, ◌⊎◌, true, arith}
use cxone_sdk_golang.Prelude.Int.{pos, ◌≤ℤ◌, ◌+ℤ◌, ◌-ℤ◌}
use cxone_sdk_golang.Retry.{Policy, second, next_delay}

module _ {W : Type 0} (int63n : ℕ → W → ℕ × W) where
  -- Int63n(n) is below n.
  abbrev pub IsRandom : Type 0
  IsRandom = (n : ℕ) (w : W) → 0 < n → (int63n n w).0 < n

-- A jittered delay lies in [1s, MaxDelay], and is MaxDelay itself where that is at most a second.
pub next_delay_jittered :
    {W : Type 0} (int63n : ℕ → W → ℕ × W) (p : Policy) (attempt d : ℕ) (w : W)
    → IsRandom int63n
    → p.max_delay ≡ pos d
    → 0 < d
    → p.randomize ≡ true
    → pos (attempt + 1) ≤ℤ p.max_attempts
    → ((p.max_delay ≤ℤ second) × ((next_delay int63n p attempt w).0 ≡ p.max_delay))
      ⊎ ((second ≤ℤ (next_delay int63n p attempt w).0)
          × ((next_delay int63n p attempt w).0 ≤ℤ p.max_delay))
unfolding next_delay ◌+ℤ◌ ◌-ℤ◌
next_delay_jittered int63n p attempt d w random positive some_delay jitter more =
    ground (arith, random (d - 1_000_000_000 + 1) w)
