-- ===== src/Scripted.antt =====
-- Worlds for the examples: a clock that a sleep moves on, and a context that ends at a given time.
pub mod Http
use cxone_sdk_golang.Prelude.{ℕ, ◌+◌, ◌%◌, true, leb, if◌then◌else◌}
use cxone_sdk_golang.Prelude.Int.{pos_part}
use cxone_sdk_golang.Context.{Context}
use cxone_sdk_golang.Errors.{nil, sentinel, canceled}

-- never cancelled
abbrev pub quiet : Context ℕ
quiet = record { err = λ w. (nil, w); wait = λ d w. (true, w + pos_part d) }

-- cancelled from the time `end` on
abbrev pub ends_at : ℕ → Context ℕ
ends_at end = record {
  err = λ w. (if leb end w then sentinel canceled else nil, w);
  wait = λ d w. (true, w + pos_part d);
}

-- a random source that goes by the clock
abbrev pub by_clock : ℕ → ℕ → ℕ × ℕ
by_clock n w = (w % n, w)
