-- ===== src/Transport/Executor/Facts.antt =====
-- internal/transport/executor.go: what each part of an attempt does to the trace and to the shared
-- variables.
use cxone_sdk_golang.Prelude.{
  ℕ, ◌+◌, ◌≡◌, ◌⊎◌, inl, inr, Bool, true, false, String, Option, List, [], ◌∷◌, arith, Bool-cases,
  if◌then◌else◌,
}
use cxone_sdk_golang.Errors.{Error, is_nil}
use cxone_sdk_golang.Transport.Header.{Header}
use cxone_sdk_golang.Transport.Types.{
  View, Request, Response, Interceptor, Env, Config, Event, before_called, refresh_asked, sent,
  timer_started, timer_stopped, State,
}
use cxone_sdk_golang.Transport.Send.{
  run_before, run_after_from, run_after, dispatch, full_header, send_once,
}

abbrev pub count : (Event → Bool) → List Event → ℕ
count test [] = 0
count test (e ∷ es) = (if test e then 1 else 0) + count test es

abbrev pub is_sent : Event → Bool
is_sent (sent r) = true
is_sent _ = false

abbrev pub is_refresh : Event → Bool
is_refresh (refresh_asked g) = true
is_refresh _ = false

abbrev pub is_timer_started : Event → Bool
is_timer_started (timer_started d) = true
is_timer_started _ = false

abbrev pub is_timer_stopped : Event → Bool
is_timer_stopped timer_stopped = true
is_timer_stopped _ = false

module _ {W : Type 0} where
  abbrev pub sends : State W → ℕ
  sends s = count is_sent s.trace

  abbrev pub refreshes : State W → ℕ
  refreshes s = count is_refresh s.trace

  abbrev pub timers_started : State W → ℕ
  timers_started s = count is_timer_started s.trace

  abbrev pub timers_stopped : State W → ℕ
  timers_stopped s = count is_timer_stopped s.trace

  -- `t` came from `s` by `n` sends, with no refresh, no timer and the shared variables as they were.
  pub record After (n : ℕ) (s t : State W) : Type 0 where
    pub sent : sends t ≡ n + sends s
    pub refreshes_same : refreshes t ≡ refreshes s
    pub started_same : timers_started t ≡ timers_started s
    pub stopped_same : timers_stopped t ≡ timers_stopped s
    pub refreshed_same : t.refreshed ≡ s.refreshed
    pub resp_same : t.resp ≡ s.resp

  After-trans : {n m : ℕ} {s t u : State W} → After n s t → After m t u → After (m + n) s u
  After-trans h k = ground arith

module _ {W : Type 0} (redact redact_url : String → String) (env : Env W) (cfg : Config W) where
  run_before-After :
      (ics : List (Interceptor W)) (i : ℕ) (view : View) (attempt : ℕ) (s : State W)
      → After 0 s (run_before redact redact_url env cfg ics i view attempt s).1
  unfolding run_before
  run_before-After [] i view attempt s = ground arith
  run_before-After (ic ∷ ics) i view attempt s = ground (
    arith,
    run_before-After ics (i + 1) (ic.before view attempt s.world).0.0 attempt (record s {
      world = (ic.before view attempt s.world).1;
      trace = before_called i ∷ s.trace;
    }),
  )

  run_after_from-After :
      (ics : List (Interceptor W)) (i : ℕ) (view : View) (r : Option Response) (e : Error)
      (s : State W)
      → After 0 s (run_after_from redact redact_url env cfg ics i view r e s)
  unfolding run_after_from
  run_after_from-After [] i view r e s = ground arith
  run_after_from-After (ic ∷ ics) i view r e s =
      ground (arith, run_after_from-After ics (i + 1) view r e s)

  pub run_after-After :
      (view : View) (r : Option Response) (e : Error) (s : State W)
      → After 0 s (run_after redact redact_url env cfg view r e s)
  unfolding run_after
  run_after-After view r e s = run_after_from-After cfg.interceptors 0 _ r e s

  dispatch-After :
      (view : View) (body : String) (header : Header) (attempt : ℕ) (s : State W)
      → After 1 s (dispatch redact redact_url env cfg view body header attempt s).1
  unfolding dispatch
  dispatch-After view body header attempt s = ground arith

  -- A call of sendOnce sends at most once.
  pub send_once-After :
      (req : Request W) (body token : String) (attempt : ℕ) (s : State W)
      → After 0 s (send_once redact redact_url env cfg req body token attempt s).1
        ⊎ After 1 s (send_once redact redact_url env cfg req body token attempt s).1
  unfolding send_once
  send_once-After req body token attempt s =
      elim (Bool-cases (is_nil (env.build req.method req.url))) [
        | inr unbuilt ↦ rw unbuilt (inl (ground arith))
        | inl built ↦ rw built (elim (Bool-cases (is_nil (asked.0.1))) [
          | inr refused ↦ rw refused (inl before)
          | inl passed ↦ rw passed (
              inr (
                After-trans before (dispatch-After req.view body asked.0.0.header attempt asked.1)))
        ])
      ]
    where
      asked : (View × Error) × State W
      asked =
          run_before redact redact_url env cfg cfg.interceptors 0
            (record (req.view) { header = full_header cfg req.view token }) attempt s

      before : After 0 s asked.1
      before =
          run_before-After cfg.interceptors 0
            (record (req.view) { header = full_header cfg req.view token }) attempt s
