-- ===== src/Transport/Executor.antt =====
-- internal/transport/executor.go: Executor.Do.
pub mod Facts
pub mod Budget
pub mod Outcome
pub mod Contract
use cxone_sdk_golang.Prelude.{
  ℕ, Bool, true, false, not, ◌&&◌, ◌||◌, String, Option, none, some, List, [], ◌∷◌, ◌==◌,
  if◌then◌else◌,
}
use cxone_sdk_golang.Prelude.Int.{ℤ, pos, ltb_ℤ, is_zero}
use cxone_sdk_golang.Prelude.Text.{str_eq, concat, decimal}
use cxone_sdk_golang.Context.{Context}
use cxone_sdk_golang.Errors.{
  Error, nil, is_nil, configuration_error, wrapped, as_communication, as_auth,
}
use cxone_sdk_golang.Errors.Message.{message}
use cxone_sdk_golang.Retry.{Policy, default_policy, run}
use cxone_sdk_golang.Transport.Types.{
  View, Request, Response, Env, Config, Event, span_started, span_set, span_failed, span_ended,
  timer_started, timer_stopped, State, note, at_world,
}
use cxone_sdk_golang.Transport.Attempt.{comm_error, attempt_once}

-- What Do returns, with the world and the trace.
abbrev pub Returned : Type 0 → Type 0
Returned W = (Option Response × Error) × State W

-- NewExecutor: a policy with no number of attempts is the default one
unfoldable pub new_config : {W : Type 0} → Config W → Config W
new_config cfg =
    if is_zero cfg.policy.max_attempts then record cfg { policy = default_policy } else cfg

module _ {W : Type 0} where
  -- the context and the random source over the state of a call
  abbrev pub state_context : Context W → Context (State W)
  state_context ctx = record {
    err = λ s. at_world (ctx.err s.world) s;
    wait = λ d s. at_world (ctx.wait d s.world) s;
  }

  abbrev pub state_random : (ℕ → W → ℕ × W) → ℕ → State W → ℕ × State W
  state_random int63n n s = at_world (int63n n s.world) s

  -- the per-call timeout, or the client's
  abbrev pub timeout_of : Config W → Request W → ℤ
  timeout_of cfg req = if is_zero req.timeout then cfg.timeout else req.timeout

  abbrev pub is_timed : Config W → Request W → Bool
  is_timed cfg req = ltb_ℤ (pos 0) (timeout_of cfg req)

  abbrev pub call_context : Env W → Config W → Request W → Context W
  call_context env cfg req =
      if is_timed cfg req then env.with_timeout env.ctx (timeout_of cfg req) else env.ctx

  -- cancelTimeout, which stops a timer that was started
  abbrev pub cancel_timeout : Bool → State W → State W
  cancel_timeout timed s = if timed then note timer_stopped s else s

  -- readAll: no body is an empty one
  unfoldable pub read_all : Option (W → (String × Error) × W) → State W → (String × Error) × State W
  read_all none s = (("", nil), s)
  read_all (some read) s = at_world (read s.world) s

  -- the end of a call that succeeded: the timer goes with the body, or is stopped
  unfoldable pub attach : Bool → Option Response → State W → Returned W
  attach timed none s = ((none, nil), cancel_timeout timed s)
  attach timed (some r) s = elim r.body [
    | none ↦ ((some r, nil), cancel_timeout timed s)
    | some b ↦ ((some (record r { closes_timer = timed }), nil), s)
  ]

  abbrev pub span_closed : Returned W → Returned W
  span_closed (r, s) = (r, note span_ended s)

  abbrev pub fresh : W → State W
  fresh w = record { world = w; trace = []; resp = none; refreshed = false }

module _ {W : Type 0} (redact redact_url : String → String) (env : Env W) (cfg : Config W) where
  -- the end of a call that failed: the error is wrapped unless it has a type of the catalog
  unfoldable pub fail : Request W → ℕ → Error → State W → Returned W
  fail req final e s =
      let stopped = note (span_failed e) (cancel_timeout (is_timed cfg req) s) in
      if as_communication e || as_auth e
      then ((none, e), stopped)
      else ((none, comm_error redact_url cfg req final 0 e), stopped)

  unfoldable pub finish : Request W → (ℕ × Error) × State W → Returned W
  unfolding fail attach
  finish req ((final, e), s) =
      if is_nil e then attach (is_timed cfg req) s.resp s else fail req final e s

  -- the attempts, once the body is read
  unfoldable pub attempts : Request W → (String × Error) × State W → Returned W
  unfolding finish
  attempts req ((body, e), s) =
      if is_nil e
      then finish req (
          run (state_context (call_context env cfg req)) (state_random env.int63n) cfg.policy
            (attempt_once redact redact_url env cfg req body) s)
      else (
        (
          none,
          comm_error redact_url cfg req 1 0 (wrapped (concat "read request body: " (message e)) e),
        ),
        cancel_timeout (is_timed cfg req) s,
      )

  -- the span and the timer of a call
  abbrev pub opened : Request W → State W → State W
  opened req s =
      let timed = if is_timed cfg req then note (timer_started (timeout_of cfg req)) s else s in
      note (span_set "cxone.correlation_id" cfg.correlation_id) (
        note (span_set "http.url" (redact_url req.url))
          (note (span_set "http.method" req.method) (note (span_started "cxone.request") timed)))

  unfoldable pub checked : Request W → W → Returned W
  unfolding read_all attempts
  checked req w =
      if str_eq req.method ""
      then ((none, configuration_error "request.Method" "is required"), fresh w)
      else if str_eq req.url ""
      then ((none, configuration_error "request.URL" "is required"), fresh w)
      else span_closed (attempts req (read_all req.body (opened req (fresh w))))

  -- Do; a nil request is `none`
  unfoldable pub do_request : Option (Request W) → W → Returned W
  unfolding checked
  do_request none w = ((none, configuration_error "request" "request is nil"), fresh w)
  do_request (some req) w = checked req w
