-- ===== src/Transport/Executor/Outcome.antt =====
-- internal/transport/executor.go: the invariant of the attempts of one call of Do.
use cxone_sdk_golang.Prelude.{
  ℕ, suc, ◌+◌, ◌≤◌, ◌≡◌, refl, ◌⊎◌, inl, inr, true, false, String, none, arith,
}
use cxone_sdk_golang.Errors.{Error, is_nil}
use cxone_sdk_golang.Retry.{success, retry, fatal, attempts_of}
use cxone_sdk_golang.Retry.Rule.{Settled, Invariant}
use cxone_sdk_golang.Transport.Types.{Request, Env, Config, State}
use cxone_sdk_golang.Transport.Attempt.{Verdict, attempt_once}
use cxone_sdk_golang.Transport.Executor.{state_context, state_random, call_context}
use cxone_sdk_golang.Transport.Executor.Facts.{sends, refreshes, timers_started, timers_stopped}
use cxone_sdk_golang.Transport.Executor.Budget.{bit, IsClient, Accepts, Judged, attempt_once-Judged}

module _ {W : Type 0} where
  -- the count of sends, refreshes and timers when `n` attempts are behind, `k` timers at the start
  pub record Spent (k n : ℕ) (s : State W) : Type 0 where
    pub sent : sends s ≤ n + bit s.refreshed
    pub refreshed : refreshes s ≡ bit s.refreshed
    pub started : timers_started s ≡ k
    pub stopped : timers_stopped s ≡ 0

module _ {W : Type 0} (redact redact_url : String → String) (env : Env W) (cfg : Config W)
    (client : IsClient env) where
  module _ (req : Request W) (body : String) (k : ℕ) where
    abbrev pub Before : ℕ → State W → Type 0
    Before n s = ((m : ℕ) × (n ≡ suc m) × Spent k m s) × (s.resp ≡ none)

    abbrev pub AskedAgain : ℕ → Error → State W → Type 0
    AskedAgain n e s = Spent k n s × (s.resp ≡ none) × (is_nil e ≡ false)

    -- how the attempts end
    abbrev pub Ended : ℕ → Error → State W → Type 0
    Ended n e s =
        Spent k (attempts_of cfg.policy) s
        × ((is_nil e ≡ false) ⊎ ((is_nil e ≡ true) × Accepts s.refreshed s.resp))

    settled :
        (n : ℕ) (s : State W) (v : Verdict W)
        → n ≤ attempts_of cfg.policy
        → Before n s
        → Judged 1 s v
        → Settled
            (state_context (call_context env cfg req))
            (state_random env.int63n)
            cfg.policy
            (attempt_once redact redact_url env cfg req body)
            AskedAgain
            Ended
            n
            v
    settled n s ((success, e), t) le h j = (ground arith, inr (refl, j.1))
    settled n s ((fatal, e), t) le h j = (ground arith, inl j.2)
    settled n s ((retry, e), t) le h j = (ground arith, ground arith, j.2)

    pub attempts-Invariant :
        Invariant
          (state_context (call_context env cfg req))
          (state_random env.int63n)
          cfg.policy
          (attempt_once redact redact_url env cfg req body)
          Before
          AskedAgain
          Ended
    attempts-Invariant = record {
      observed = λ n s h. ground arith;
      cancelled = λ n s le h e. (ground arith, inl e);
      called = λ n s le h.
          settled n s _ le h (attempt_once-Judged redact redact_url env cfg req body client n s);
      exhausted = λ e s h. ground arith;
      looked = λ n e s h. ground arith;
      waited = λ n e d s h. ground arith;
      drawn = λ n e j s h. ground arith;
      abandoned = λ n e s seen lt h q there. (ground arith, inl q);
      resumed = λ n e s h. ((n, ground arith, h.0), h.1);
    }
