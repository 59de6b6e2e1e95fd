-- ===== src/Transport/Executor/Contract.antt =====
-- internal/transport/executor.go: what a call of Do comes to.
use cxone_sdk_golang.Prelude.{
  ℕ, ◌+◌, ◌≤◌, ◌≡◌, refl, ◌⊎◌, inl, inr, Bool, true, false, ◌||◌, String, Option, none, some, arith,
  Bool-cases, Option-cases, if◌then◌else◌,
}
use cxone_sdk_golang.Prelude.Int.{ℤ}
use cxone_sdk_golang.Prelude.Text.{str_eq, concat}
use cxone_sdk_golang.Errors.{
  wrapped, Error, nil, is_nil, configuration_error, as_communication, as_auth, chain_has,
}
use cxone_sdk_golang.Retry.{attempts_of}
use cxone_sdk_golang.Retry.Rule.{Ends, run-Ends}
use cxone_sdk_golang.Errors.Message.{message}
use cxone_sdk_golang.Transport.Types.{
  Request, Response, Env, Config, State, note, span_set, span_started, at_world, timer_started,
  span_failed,
}
use cxone_sdk_golang.Transport.Attempt.{comm_error, attempt_once}
use cxone_sdk_golang.Transport.Executor.{
  timeout_of, span_closed, Returned, cancel_timeout, state_context, state_random, call_context,
  is_timed, fresh, read_all, fail, attach, finish, attempts, checked, do_request, opened,
}
use cxone_sdk_golang.Transport.Executor.Facts.{sends, refreshes, timers_started, timers_stopped}
use cxone_sdk_golang.Transport.Executor.Budget.{bit, IsClient, Accepts}
use cxone_sdk_golang.Transport.Executor.Outcome.{Spent, Ended, attempts-Invariant}

-- the timer of the call goes with the response's body
abbrev pub closes : Option Response → Bool
closes none = false
closes (some r) = elim r.body [ none ↦ false | some b ↦ r.closes_timer ]

abbrev is_configuration_error : Error → Bool
is_configuration_error (configuration_error f r) = true
is_configuration_error _ = false

-- an error of a type that Do's documentation names
abbrev pub is_catalogued : Error → Bool
is_catalogued e = as_communication e || as_auth e || is_configuration_error e

budget_of : (n s r : ℕ) (b : Bool) → s ≤ n + bit b → r ≡ bit b → (s ≤ n + r) × (r ≤ 1)
budget_of n s r true h k = omega arith
budget_of n s r false h k = omega arith

module _ {W : Type 0} (redact redact_url : String → String) (env : Env W) (cfg : Config W)
    (client : IsClient env) where
  -- What a call comes to: how often it sends and refreshes, that the timer is stopped or goes with
  -- the body, and that there is a response that is accepted or an error of the catalog.
  record Kept (r : Returned W) : Type 0 where
    sent : sends r.1 ≤ attempts_of cfg.policy + bit r.1.refreshed
    refreshed : refreshes r.1 ≡ bit r.1.refreshed
    timers : timers_started r.1 ≡ timers_stopped r.1 + bit (closes r.0.0)
    outcome :
        ((r.0.0 ≡ none) × (is_catalogued r.0.1 ≡ true))
        ⊎ ((r.0.1 ≡ nil) × Accepts r.1.refreshed r.0.0)

  -- the timer is stopped
  record Closed (s : State W) : Type 0 where
    sent : sends s ≤ attempts_of cfg.policy + bit s.refreshed
    refreshed : refreshes s ≡ bit s.refreshed
    timers : timers_started s ≡ timers_stopped s

  cancel_timeout-Closed :
      (timed : Bool) (n : ℕ) (s : State W)
      → n ≤ attempts_of cfg.policy
      → Spent (bit timed) n s
      → Closed (cancel_timeout timed s)
  cancel_timeout-Closed true n s le h = ground arith
  cancel_timeout-Closed false n s le h = ground arith

  refused-Kept : (e : Error) (s : State W) → is_catalogued e ≡ true → Closed s → Kept ((none, e), s)
  refused-Kept e s known h = ground arith

  fail-Kept :
      (req : Request W) (final n : ℕ) (e : Error) (s : State W)
      → n ≤ attempts_of cfg.policy
      → Spent (bit (is_timed cfg req)) n s
      → Kept (fail redact redact_url env cfg req final e s)
  unfolding fail as_communication chain_has
  fail-Kept req final n e s le h =
      let stopped = cancel_timeout-Closed (is_timed cfg req) n s le h in
      let noted : Closed (note (span_failed e) (cancel_timeout (is_timed cfg req) s)) =
        ground arith in
      elim (Bool-cases (as_communication e || as_auth e)) [
        | inl known ↦ rw known (refused-Kept e _ (ground arith) noted)
        | inr other ↦ rw other (refused-Kept (comm_error redact_url cfg req final 0 e) _ refl noted)
      ]

  attach-Kept :
      (timed : Bool) (o : Option Response) (s : State W)
      → Spent (bit timed) (attempts_of cfg.policy) s
      → Accepts s.refreshed o
      → Kept (attach timed o s)
  unfolding attach
  attach-Kept timed none s h a = absurd a
  attach-Kept true (some r) s h a = elim (Option-cases r.body) [
    | inl empty ↦ rw empty (ground arith)
    | inr (b, full) ↦ rw full (ground arith)
  ]
  attach-Kept false (some r) s h a = ground arith

  finish-Kept :
      (req : Request W) (body : String) (r : (ℕ × Error) × State W)
      → Ends
          (state_context (call_context env cfg req))
          (state_random env.int63n)
          cfg.policy
          (attempt_once redact redact_url env cfg req body)
          (Ended redact redact_url env cfg client req body (bit (is_timed cfg req)))
          r
      → Kept (finish redact redact_url env cfg req r)
  unfolding finish
  finish-Kept req body ((final, e), s) (spent, inl bad) =
      rw bad (fail-Kept req final _ e s (omega arith) spent)
  finish-Kept req body ((final, e), s) (spent, inr (good, a)) =
      rw good (attach-Kept (is_timed cfg req) s.resp s spent a)

  attempts-Kept :
      (req : Request W) (r : (String × Error) × State W)
      → Spent (bit (is_timed cfg req)) 0 r.1
      → r.1.resp ≡ none
      → Kept (attempts redact redact_url env cfg req r)
  unfolding attempts chain_has as_communication
  attempts-Kept req ((body, e), s) h empty = elim (Bool-cases (is_nil e)) [
    | inl good ↦ rw good (
        finish-Kept req body _ (
          run-Ends _ _ _ _
            (attempts-Invariant redact redact_url env cfg client req body (bit (is_timed cfg req)))
            s ((0, refl, h), empty)))
    | inr bad ↦ rw bad (
        refused-Kept
          (comm_error redact_url cfg req 1 0 (wrapped (concat "read request body: " (message e)) e))
          _ refl (cancel_timeout-Closed (is_timed cfg req) 0 s (omega arith) h))
  ]

  -- what a call has when its attempts start
  abbrev Started : Bool → State W → Type 0
  Started timed s = Spent (bit timed) 0 s × (s.resp ≡ none)

  timer-Started :
      (timed : Bool) (d : ℤ) (w : W)
      → Started timed (if timed then note (timer_started d) (fresh w) else fresh w)
  timer-Started true d w = ground arith
  timer-Started false d w = ground arith

  span_set-Started :
      (timed : Bool) (k v : String) (s : State W)
      → Started timed s
      → Started timed (note (span_set k v) s)
  span_set-Started timed k v s h = ground arith

  span_started-Started :
      (timed : Bool) (k : String) (s : State W)
      → Started timed s
      → Started timed (note (span_started k) s)
  span_started-Started timed k s h = ground arith

  opened-Started :
      (req : Request W) (w : W)
      → Started (is_timed cfg req) (opened redact redact_url env cfg req (fresh w))
  opened-Started req w =
      let timed = is_timed cfg req in
      span_set-Started timed _ _ _ (
        span_set-Started timed _ _ _ (
          span_set-Started timed _ _ _
            (span_started-Started timed _ _ (timer-Started timed (timeout_of cfg req) w))))

  read_all-Kept :
      (req : Request W) (b : Option (W → (String × Error) × W)) (s : State W)
      → Spent (bit (is_timed cfg req)) 0 s
      → s.resp ≡ none
      → Kept (attempts redact redact_url env cfg req (read_all b s))
  unfolding read_all
  read_all-Kept req none s h empty = attempts-Kept req (("", nil), s) h empty
  read_all-Kept req (some read) s h empty =
      attempts-Kept req (at_world (read s.world) s) (ground arith) empty

  span_closed-Kept : (r : Returned W) → Kept r → Kept (span_closed r)
  span_closed-Kept r h = ground arith

  checked-Kept : (req : Request W) (w : W) → Kept (checked redact redact_url env cfg req w)
  unfolding checked chain_has as_communication as_auth
  checked-Kept req w = elim (Bool-cases (str_eq req.method "")) [
    | inl missing ↦ rw missing (
        refused-Kept (configuration_error "request.Method" "is required") _ (ground arith)
          (ground arith))
    | inr named ↦ elim (Bool-cases (str_eq req.url "")) [
      | inl missing ↦
          rw (named, missing)
            (refused-Kept (configuration_error "request.URL" "is required") _ (ground arith)
              (ground arith))
      | inr addressed ↦
          rw (named, addressed)
            (span_closed-Kept _
              (read_all-Kept req req.body _ (opened-Started req w).0 (opened-Started req w).1))
    ]
  ]

  -- Do keeps to its contract on every request.
  do_request-Kept :
      (req : Option (Request W)) (w : W) → Kept (do_request redact redact_url env cfg req w)
  unfolding do_request chain_has as_communication as_auth
  do_request-Kept none w =
      refused-Kept (configuration_error "request" "request is nil") _ (ground arith) (ground arith)
  do_request-Kept (some req) w = checked-Kept req w

module _ {W : Type 0} (redact redact_url : String → String) (env : Env W) (cfg : Config W) where
  -- For an HTTP client whose errors are not nil: a call of Do sends at most once for each attempt
  -- that the policy allows and once more for a refresh, and refreshes the token at most once.
  pub do_request-attempt_budget :
      IsClient env
      → (req : Option (Request W)) (w : W)
      → (sends (do_request redact redact_url env cfg req w).1
          ≤ attempts_of cfg.policy + refreshes (do_request redact redact_url env cfg req w).1)
        × (refreshes (do_request redact redact_url env cfg req w).1 ≤ 1)
  do_request-attempt_budget client req w =
      let h = do_request-Kept redact redact_url env cfg client req w in
      budget_of _ _ _ _ h.sent h.refreshed

  -- For an HTTP client whose errors are not nil: Do returns either no response and an error that has
  -- a CommunicationError, an AuthError or a ConfigurationError in its chain, or no error and a
  -- response whose status is not one to retry, and is 401 only if the token was refreshed.
  pub do_request-outcome :
      IsClient env
      → (req : Option (Request W)) (w : W)
      → (((do_request redact redact_url env cfg req w).0.0 ≡ none)
          × (is_catalogued (do_request redact redact_url env cfg req w).0.1 ≡ true))
        ⊎ (((do_request redact redact_url env cfg req w).0.1 ≡ nil)
            × Accepts
                (do_request redact redact_url env cfg req w).1.refreshed
                (do_request redact redact_url env cfg req w).0.0)
  do_request-outcome client req w = (do_request-Kept redact redact_url env cfg client req w).outcome

  -- For an HTTP client whose errors are not nil: every timer that a call of Do starts is stopped
  -- when Do returns, but for one that the body of the returned response releases when it is closed.
  pub do_request-timers :
      IsClient env
      → (req : Option (Request W)) (w : W)
      → timers_started (do_request redact redact_url env cfg req w).1
        ≡ timers_stopped (do_request redact redact_url env cfg req w).1
          + bit (closes (do_request redact redact_url env cfg req w).0.0)
  do_request-timers client req w = (do_request-Kept redact redact_url env cfg client req w).timers
