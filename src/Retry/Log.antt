-- ===== src/Retry/Log.antt =====
-- internal/retry/retry.go: what `Do` returns, told from the log of the calls that it made. The log
-- is kept beside the world, the newest call first.
use cxone_sdk_golang.Prelude.{
  ℕ, ◌+◌, ◌≤◌, ◌<◌, ◌≡◌, refl, sym, ap, subst, ◌⊎◌, inl, inr, false, List, [], ◌∷◌, arith,
}
use cxone_sdk_golang.Context.{Context}
use cxone_sdk_golang.Errors.{Error, nil, is_nil}
use cxone_sdk_golang.Retry.{Policy, Outcome, success, retry, fatal, Operation, attempts_of, run}
use cxone_sdk_golang.Retry.Rule.{Settled, Ends, Invariant, run-Ends}

pub record Call : Type 0 where
  pub attempt : ℕ
  pub outcome : Outcome
  pub error : Error

pub record Logged (W : Type 0) : Type 0 where
  pub world : W
  pub log : List Call

module _ {W : Type 0} where
  abbrev beside : {A : Type 0} → List Call → A × W → A × Logged W
  beside log (a, w) = (a, record { world = w; log = log })

  -- the context, the random source and the operation beside a log
  abbrev pub logged_context : Context W → Context (Logged W)
  logged_context ctx = record {
    err = λ s. beside s.log (ctx.err s.world);
    wait = λ d s. beside s.log (ctx.wait d s.world);
  }

  abbrev pub logged_random : (ℕ → W → ℕ × W) → ℕ → Logged W → ℕ × Logged W
  logged_random int63n n s = beside s.log (int63n n s.world)

  abbrev noted : ℕ → List Call → (Outcome × Error) × W → (Outcome × Error) × Logged W
  noted n log ((o, e), w) =
      ((o, e), record { world = w; log = record { attempt = n; outcome = o; error = e } ∷ log })

  abbrev pub logged : Operation W → Operation (Logged W)
  logged fn n s = noted n s.log (fn n s.world)

-- The calls were made in order from 1 on, each asked for a retry, and `n` is the next one.
abbrev pub Retried : ℕ → List Call → Type 0
Retried n [] = n ≡ 1
Retried n (c ∷ log) = (n ≡ c.attempt + 1) × (c.outcome ≡ retry) × Retried c.attempt log

-- `log` ends with call `n`, which came back with `o` and `e` after retries.
abbrev pub Ended : ℕ → Outcome → Error → List Call → Type 0
Ended n o e [] = ⊥
Ended n o e (c ∷ log) = (c.attempt ≡ n) × (c.outcome ≡ o) × (c.error ≡ e) × Retried n log

-- The four ways in which `Do` ends, with `m` attempts at most; the last is with the answer of the
-- context, at which `Do` looked last, before attempt `n` or after it while there was another to
-- come.
abbrev pub Explained : {W : Type 0} → Context W → ℕ → ℕ → Error → Logged W → Type 0
Explained {W} ctx m n e s =
    ((e ≡ nil) × ((e' : Error) × Ended n success e' s.log))
    ⊎ Ended n fatal e s.log
    ⊎ ((n ≡ m) × Ended n retry e s.log)
    ⊎ ((seen : W) × (e ≡ (ctx.err seen).0)
        × (s.world ≡ (ctx.err seen).1)
        × (is_nil e ≡ false)
        × (Retried n s.log ⊎ ((n < m) × Retried (n + 1) s.log)))

module _ {W : Type 0} (ctx : Context W) (int63n : ℕ → W → ℕ × W) (p : Policy)
    (fn : Operation W) where
  abbrev Before : ℕ → Logged W → Type 0
  Before n s = Retried n s.log

  abbrev AskedAgain : ℕ → Error → Logged W → Type 0
  AskedAgain n e s = Ended n retry e s.log

  abbrev Told : ℕ → Error → Logged W → Type 0
  Told n e s = (n ≤ attempts_of p) × Explained ctx (attempts_of p) n e s

  called_Told :
      (n : ℕ) (s : Logged W) (r : (Outcome × Error) × W)
      → n ≤ attempts_of p
      → Retried n s.log
      → Settled
          (logged_context ctx)
          (logged_random int63n)
          p
          (logged fn)
          AskedAgain
          Told
          n
          (noted n s.log r)
  called_Told n s ((success, e), w) le h = (le, inl (refl, (e, (refl, refl, refl, h))))
  called_Told n s ((fatal, e), w) le h = (le, inr (inl (refl, refl, refl, h)))
  called_Told n s ((retry, e), w) le h = (refl, refl, refl, h)

  resumed_Before : (n : ℕ) (e : Error) (log : List Call) → Ended n retry e log → Retried (n + 1) log
  resumed_Before n e [] h = absurd h
  resumed_Before n e (c ∷ log) h =
      (omega (arith, h.0), h.1, subst (λ k. Retried k log) (sym h.0) h.3)

  log_Invariant :
      Invariant (logged_context ctx) (logged_random int63n) p (logged fn) Before AskedAgain Told
  log_Invariant = record {
    observed = λ n s h. h;
    cancelled = λ n s le h over. (le, inr (inr (inr (s.world, refl, refl, over, inl h))));
    called = λ n s le h. called_Told n s (fn n s.world) le h;
    exhausted = λ e s h. (omega arith, inr (inr (inl (refl, h))));
    looked = λ n e s h. h;
    waited = λ n e d s h. h;
    drawn = λ n e k s h. h;
    abandoned = λ n e s seen less h over there. (
      omega arith,
      inr (
          inr (
            inr (
              seen.world,
              refl,
              ap (λ t. t.world) there,
              over,
              inr (less, resumed_Before n e s.log h),
            ))),
    );
    resumed = λ n e s h. resumed_Before n e s.log h;
  }

  -- However the context, the delays and the operation behave: the calls are numbered 1, 2, ... with
  -- no gap, every call but the last asked for a retry, there are at most `attempts_of p` of them,
  -- and `Do` returns nil after a success, the error of a fatal call, the error of the last call
  -- when all the attempts are used up, or what the context said when it was looked at last, which
  -- is not nil: before the next attempt, or after an attempt that is not the last one allowed.
  pub run-Explained :
      (w : W)
      → Ends
          (logged_context ctx)
          (logged_random int63n)
          p
          (logged fn)
          (λ n e s. (n ≤ attempts_of p) × Explained ctx (attempts_of p) n e s)
          (run
            (logged_context ctx)
            (logged_random int63n)
            p
            (logged fn)
            (record { world = w; log = [] }))
  run-Explained w =
      run-Ends (logged_context ctx) (logged_random int63n) p (logged fn) log_Invariant
        (record { world = w; log = [] }) refl
