-- ===== src/Retry/Rule.antt =====
-- internal/retry/retry.go: the rule by which facts about `Do` are proved, from facts about one
-- attempt.
use cxone_sdk_golang.Prelude.{
  ℕ, zero, suc, ◌+◌, ◌≤◌, ◌<◌, ◌≡◌, sym, ap, ◌∙◌, subst, false, inl, inr, arith, ◌==◌, Bool-cases,
  not,
}
use cxone_sdk_golang.Prelude.Int.{ℤ, pos, pos_part, leb_ℤ, ◌+ℤ◌}
use cxone_sdk_golang.Context.{Context, sleep, sleep-keeps, sleep_cut_short}
use cxone_sdk_golang.Errors.{Error, nil, is_nil}
use cxone_sdk_golang.Retry.{
  Policy, Outcome, success, retry, fatal, Result, Operation, no_delay, span, next_delay,
  at_least_one, attempts_of, pause, settle, round, rounds, run,
}

-- At least one attempt is made.
pub attempts_of_pos : (p : Policy) → 1 ≤ attempts_of p
unfolding attempts_of
attempts_of_pos p = ground arith

-- Choosing a delay does no more to the world than draw a random number.
next_delay-keeps :
    {W : Type 0} (int63n : ℕ → W → ℕ × W) (P : W → Type 0)
    → ((k : ℕ) (w : W) → P w → P (int63n k w).1)
    → (p : Policy) (attempt : ℕ) (w : W) → P w
    → P (next_delay int63n p attempt w).1
unfolding next_delay
next_delay-keeps int63n P drawn p attempt w h = elim (Bool-cases (no_delay p attempt)) [
  | inl none ↦ rw none h
  | inr some ↦ elim (Bool-cases (not p.randomize)) [
    | inl fixed ↦ rw (some, fixed) h
    | inr jitter ↦ elim (Bool-cases (leb_ℤ (span p) (pos 0))) [
      | inl narrow ↦ rw (some, jitter, narrow) h
      | inr wide ↦ rw (some, jitter, wide) (drawn (pos_part (span p +ℤ pos 1)) w h)
    ]
  ]
]

module _ {W : Type 0} (ctx : Context W) (int63n : ℕ → W → ℕ × W) (p : Policy)
    (fn : Operation W) where
  abbrev pub Settled : (M Q : ℕ → Error → W → Type 0) → ℕ → (Outcome × Error) × W → Type 0
  Settled M Q n ((success, e), w) = Q n nil w
  Settled M Q n ((fatal, e), w) = Q n e w
  Settled M Q n ((retry, e), w) = M n e w

  -- `P n` holds before attempt `n`, `M n e` after it asked for a retry with `e`, and `Q n e` when
  -- the loop returns `n` and `e`.
  pub record Invariant (P : ℕ → W → Type 0) (M Q : ℕ → Error → W → Type 0) : Type 0 where
    pub observed : (n : ℕ) (w : W) → P n w → P n (ctx.err w).1
    pub cancelled :
        (n : ℕ) (w : W)
        → n ≤ attempts_of p
        → P n w
        → is_nil (ctx.err w).0 ≡ false
        → Q n (ctx.err w).0 (ctx.err w).1
    pub called : (n : ℕ) (w : W) → n ≤ attempts_of p → P n w → Settled M Q n (fn n w)
    pub exhausted : (e : Error) (w : W) → M (attempts_of p) e w → Q (attempts_of p) e w
    pub looked : (n : ℕ) (e : Error) (w : W) → M n e w → M n e (ctx.err w).1
    pub waited : (n : ℕ) (e : Error) (d : ℤ) (w : W) → M n e w → M n e (ctx.wait d w).1
    pub drawn : (n : ℕ) (e : Error) (k : ℕ) (w : W) → M n e w → M n e (int63n k w).1
    pub abandoned :
        (n : ℕ) (e : Error) (w seen : W)
        → n < attempts_of p
        → M n e w
        → is_nil (ctx.err seen).0 ≡ false
        → w ≡ (ctx.err seen).1
        → Q n (ctx.err seen).0 w
    pub resumed : (n : ℕ) (e : Error) (w : W) → M n e w → P (n + 1) w

  abbrev pub Ends : (ℕ → Error → W → Type 0) → Result W → Type 0
  Ends Q ((n, e), w) = Q n e w

  module _ {P : ℕ → W → Type 0} {M Q : ℕ → Error → W → Type 0} (inv : Invariant P M Q) where
    pause-Ends :
        (n : ℕ) (e : Error) (rest : Error → W → Result W) (dw : ℤ × W)
        → n < attempts_of p
        → ((e' : Error) (w : W) → P (n + 1) w → Ends Q (rest e' w))
        → M n e dw.1
        → Ends Q (pause ctx int63n p n e rest dw)
    unfolding pause
    pause-Ends n e rest (d, w) more goes_on m = elim (Bool-cases (is_nil (sleep ctx d w).0)) [
      | inl woke ↦ rw woke (goes_on e _ (inv.resumed n e _ slept))
      | inr stopped ↦
          let (seen, same) = sleep_cut_short ctx d w stopped in
          rw stopped (
            subst (λ c. Q n c (sleep ctx d w).1) (sym (ap (λ r. r.0) same))
              (inv.abandoned n e (sleep ctx d w).1 seen more slept
                (ap (λ r. is_nil r.0) (sym same) ∙ stopped) (ap (λ r. r.1) same)))
    ]
      where
        slept : M n e (sleep ctx d w).1
        slept = sleep-keeps ctx (M n e) (inv.looked n e) (inv.waited n e) d w m

    drawn-next_delay :
        (n : ℕ) (e : Error) (q : Policy) (w : W) → M n e w → M n e (next_delay int63n q n w).1
    drawn-next_delay n e q w = next_delay-keeps int63n (M n e) (inv.drawn n e) q n w

    settle-Ends :
        (n : ℕ) (rest : Error → W → Result W) (r : (Outcome × Error) × W)
        → n ≤ attempts_of p
        → ((e' : Error) (w : W) → n < attempts_of p → P (n + 1) w → Ends Q (rest e' w))
        → Settled M Q n r
        → Ends Q (settle ctx int63n p n rest r)
    unfolding settle
    settle-Ends n rest ((success, e), w) le goes_on h = h
    settle-Ends n rest ((fatal, e), w) le goes_on h = h
    settle-Ends n rest ((retry, e), w) le goes_on h = elim (Bool-cases (n == attempts_of p)) [
      | inl last ↦
          let at_end : n ≡ attempts_of p = ground arith in
          rw last (subst (λ k. M k e w → Q k e w) (sym at_end) (inv.exhausted e w) h)
      | inr more ↦ rw more (
          pause-Ends n e rest (next_delay int63n (at_least_one p) n w) (ground arith)
            (λ e' w' q. goes_on e' w' (ground arith) q) (drawn-next_delay n e (at_least_one p) w h))
    ]

    round-Ends :
        (n : ℕ) (rest : Error → W → Result W) (last : Error) (w : W)
        → n ≤ attempts_of p
        → ((e' : Error) (w' : W) → n < attempts_of p → P (n + 1) w' → Ends Q (rest e' w'))
        → P n w
        → Ends Q (round ctx int63n p fn n rest last w)
    unfolding round
    round-Ends n rest last w le goes_on h = elim (Bool-cases (is_nil (ctx.err w).0)) [
      | inl live ↦ rw live (
          settle-Ends n rest (fn n (ctx.err w).1) le goes_on
            (inv.called n (ctx.err w).1 le (inv.observed n w h)))
      | inr over ↦ rw over (inv.cancelled n w le h over)
    ]

    rounds-Ends :
        (left n : ℕ) (last : Error) (w : W)
        → n + left ≡ attempts_of p + 1
        → n ≤ attempts_of p
        → P n w
        → Ends Q (rounds ctx int63n p fn left n last w)
    unfolding rounds
    rounds-Ends zero n last w count le h = absurd (omega arith)
    rounds-Ends (suc left) n last w count le h =
        round-Ends n (rounds ctx int63n p fn left (n + 1)) last w le
          (λ e' w' more q. rounds-Ends left (n + 1) e' w' (omega arith) (omega arith) q) h

    -- The invariant at the first attempt gives the result of `Do`.
    pub run-Ends : (w : W) → P 1 w → Ends Q (run ctx int63n p fn w)
    unfolding run
    run-Ends w h = rounds-Ends (attempts_of p) 1 nil w (omega arith) (attempts_of_pos p) h
