-- ===== src/Transport/Executor/Budget.antt =====
-- internal/transport/executor.go: what one attempt may do, by the part of the attempt.
use cxone_sdk_golang.Prelude.{
  ℕ, ◌+◌, ◌≤◌, ◌≡◌, ◌≢◌, ◌∙◌, refl, inl, inr, Bool, true, false, not, ◌&&◌, String, Option, none,
  some, ◌==◌, arith, Bool-cases,
}
use cxone_sdk_golang.Prelude.Text.{decimal}
use cxone_sdk_golang.Errors.{Error, nil, is_nil}
use cxone_sdk_golang.Retry.{Outcome, success, retry, fatal, classify_status}
use cxone_sdk_golang.Auth.Cache.{Grant}
use cxone_sdk_golang.Transport.Header.{Header}
use cxone_sdk_golang.Transport.Types.{
  View, Request, HttpRequest, Response, Sent, answered, failed, Reply, response, error, Env, Config,
  request_counted, span_set, token_asked, State, note, at_world,
}
use cxone_sdk_golang.Transport.Send.{
  run_before, receive, dispatch, full_header, intercepted, send_once,
}
use cxone_sdk_golang.Transport.Attempt.{
  Verdict, drain, on_send_error, settle_status, judge, resent, refreshing, reauthorized,
  reauthorize, first_sent, authorized, attempt_once,
}
use cxone_sdk_golang.Transport.Executor.Facts.{
  sends, refreshes, timers_started, timers_stopped, After, run_after-After, send_once-After,
}

abbrev pub bit : Bool → ℕ
bit true = 1
bit false = 0

-- The HTTP client's errors are not nil.
abbrev pub IsClient : {W : Type 0} → Env W → Type 0
IsClient {W} env =
    (r : HttpRequest) (w : W) (e : Error) → (env.send r w).0 ≡ error e → is_nil e ≡ false

-- A response that may be handed to the caller: its status is not one to retry, and a 401 comes only
-- after a refresh.
abbrev pub Accepts : Bool → Option Response → Type 0
Accepts refreshed none = ⊥
Accepts refreshed (some r) =
    (classify_status r.status_code ≢ retry) × (r.status_code ≡ 401 → refreshed ≡ true)

module _ {W : Type 0} where
  -- `t` comes from `s` by at most `n` sends and one more if a refresh came in between.
  pub record Progress (n : ℕ) (s t : State W) : Type 0 where
    pub sent : sends t + bit s.refreshed ≤ n + sends s + bit t.refreshed
    pub refreshed : refreshes t + bit s.refreshed ≡ refreshes s + bit t.refreshed
    pub grows : bit s.refreshed ≤ bit t.refreshed
    pub started_same : timers_started t ≡ timers_started s
    pub stopped_same : timers_stopped t ≡ timers_stopped s

  abbrev pub Judged : ℕ → State W → Verdict W → Type 0
  Judged n s ((success, e), t) = Progress n s t × Accepts t.refreshed t.resp
  Judged n s ((fatal, e), t) = Progress n s t × (t.resp ≡ s.resp) × (is_nil e ≡ false)
  Judged n s ((retry, e), t) = Progress n s t × (t.resp ≡ s.resp) × (is_nil e ≡ false)

  Judged-trans :
      (m n k : ℕ) {s t : State W}
      → m + n ≤ k
      → Progress m s t × (t.resp ≡ s.resp)
      → (v : Verdict W) → Judged n t v
      → Judged k s v
  Judged-trans m n k le h ((success, e), u) j = (ground arith, j.1)
  Judged-trans m n k le h ((fatal, e), u) j = (ground arith, ground arith, j.2)
  Judged-trans m n k le h ((retry, e), u) j = (ground arith, ground arith, j.2)

  -- `t` comes from `s` by a first refresh, and nothing else.
  record Refreshing (s t : State W) : Type 0 where
    sent : sends t ≡ sends s
    counted : refreshes t ≡ 1 + refreshes s
    started_same : timers_started t ≡ timers_started s
    stopped_same : timers_stopped t ≡ timers_stopped s
    before : s.refreshed ≡ false
    after : t.refreshed ≡ true
    resp_same : t.resp ≡ s.resp

  Judged-Refreshing :
      (s t : State W) → Refreshing s t → (v : Verdict W) → Judged 1 t v → Judged 0 s v
  Judged-Refreshing s t h ((success, e), u) j = (ground arith, j.1)
  Judged-Refreshing s t h ((fatal, e), u) j = (ground arith, ground arith, j.2)
  Judged-Refreshing s t h ((retry, e), u) j = (ground arith, ground arith, j.2)

  drain-After : (b : Option ℕ) (s : State W) → After 0 s (drain b s)
  unfolding drain
  drain-After none s = ground arith
  drain-After (some b) s = ground arith

  receive_failed :
      (redact redact_url : String → String) (env : Env W) (cfg : Config W) (view : View) (n : ℕ)
      (ms : String) (r : Reply × State W) (e : Error)
      → (receive redact redact_url env cfg view n ms r).0 ≡ failed e
      → r.0 ≡ error e
  unfolding receive
  receive_failed redact redact_url env cfg view n ms (error e', s) e h = cc
  receive_failed redact redact_url env cfg view n ms (response r, s) e h = absurd (cc)

module _ {W : Type 0} (redact redact_url : String → String) (env : Env W) (cfg : Config W)
    (req : Request W) (body : String) where
  on_send_error-Judged :
      (n : ℕ) (e : Error) (s : State W)
      → is_nil e ≡ false
      → Judged 0 s (on_send_error redact redact_url env cfg req body n e s)
  unfolding on_send_error
  on_send_error-Judged n e s h = ground (
    arith,
    run_after-After redact redact_url env cfg req.view none e
        (note (request_counted req.method 0) s),
  )

  settle_status-Judged :
      (o : Outcome) (n : ℕ) (r : Response) (s : State W)
      → classify_status r.status_code ≡ o
      → (r.status_code ≡ 401 → s.refreshed ≡ true)
      → Judged 0 s (settle_status redact redact_url env cfg req body o n r s)
  unfolding settle_status
  settle_status-Judged success n r s c h =
      let kept = run_after-After redact redact_url env cfg req.view (some r) nil s in
      (ground arith, (λ q. cc, λ q. kept.refreshed_same ∙ h q))
  settle_status-Judged retry n r s c h = ground (arith, drain-After r.body s)
  settle_status-Judged fatal n r s c h =
      let kept = run_after-After redact redact_url env cfg req.view (some r) nil s in
      (ground arith, (λ q. cc, λ q. kept.refreshed_same ∙ h q))

  judge-Judged :
      (n : ℕ) (r : Response) (s : State W)
      → (r.status_code ≡ 401 → s.refreshed ≡ true)
      → Judged 0 s (judge redact redact_url env cfg req body n r s)
  unfolding judge
  judge-Judged n r s h =
      let noted : State W =
        note (request_counted req.method r.status_code)
          (note (span_set "http.status_code" (decimal r.status_code)) s) in
      Judged-trans 0 0 0 (omega arith) (ground arith)
        (settle_status redact redact_url env cfg req body (classify_status r.status_code) n r noted)
        (settle_status-Judged (classify_status r.status_code) n r noted refl h)

  resent-Judged :
      (n : ℕ) (r : Sent × State W)
      → ((e : Error) → r.0 ≡ failed e → is_nil e ≡ false)
      → r.1.refreshed ≡ true
      → Judged 0 r.1 (resent redact redact_url env cfg req body n r)
  unfolding resent
  resent-Judged n (failed e, s) real done = ground (arith, real e refl)
  resent-Judged n (answered r, s) real done = judge-Judged n r s (λ q. done)

  module _ (client : IsClient env) where
    dispatch_real :
        (view : View) (h : Header) (n : ℕ) (s : State W) (e : Error)
        → (dispatch redact redact_url env cfg view body h n s).0 ≡ failed e
        → is_nil e ≡ false
    unfolding dispatch
    dispatch_real view h n s e q =
        client _ _ e (receive_failed redact redact_url env cfg view n _ _ e q)

    intercepted_real :
        (n : ℕ) (r : (View × Error) × State W) (e : Error)
        → (intercepted redact redact_url env cfg req.view body n r).0 ≡ failed e
        → is_nil e ≡ false
    unfolding intercepted
    intercepted_real n ((view', e'), s) e h =
        ground (arith, dispatch_real req.view view'.header n s e)

    send_once_real :
        (token : String) (n : ℕ) (s : State W) (e : Error)
        → (send_once redact redact_url env cfg req body token n s).0 ≡ failed e
        → is_nil e ≡ false
    unfolding send_once
    send_once_real token n s e h = ground (
      arith,
      intercepted_real n
          (run_before redact redact_url env cfg cfg.interceptors 0
            (record (req.view) { header = full_header cfg req.view token }) n s)
          e,
    )

    send_once_Moved :
        (token : String) (n : ℕ) (s : State W)
        → Progress 1 s (send_once redact redact_url env cfg req body token n s).1
          × ((send_once redact redact_url env cfg req body token n s).1.resp ≡ s.resp)
          × ((send_once redact redact_url env cfg req body token n s).1.refreshed ≡ s.refreshed)
    send_once_Moved token n s =
        elim (send_once-After redact redact_url env cfg req body token n s) [
          | inl h ↦ (ground arith, h.resp_same, h.refreshed_same)
          | inr h ↦ (ground arith, h.resp_same, h.refreshed_same)
        ]

    reauthorized-Judged :
        (n : ℕ) (grant : Grant) (s : State W)
        → s.refreshed ≡ true
        → Judged 1 s (reauthorized redact redact_url env cfg req body n (grant, s))
    unfolding reauthorized
    reauthorized-Judged n grant s done =
        let (moved, same, kept) = send_once_Moved grant.token n s in
        elim (Bool-cases (is_nil grant.err)) [
          | inr refused ↦ rw refused (ground arith)
          | inl given ↦ rw given (
              Judged-trans 1 0 1 (omega arith) (moved, same) _
                (resent-Judged n (send_once redact redact_url env cfg req body grant.token n s)
                  (send_once_real grant.token n s) (kept ∙ done)))
        ]

    reauthorize-Judged :
        (n gen : ℕ) (r : Response) (s : State W)
        → s.refreshed ≡ false
        → Judged 0 s (reauthorize redact redact_url env cfg req body n gen r s)
    unfolding reauthorize refreshing
    reauthorize-Judged n gen r s once =
        let t = refreshing gen r s in
        let back = at_world (env.refresh gen t.world) t in
        Judged-Refreshing s back.1 (ground (arith, drain-After r.body s)) _
          (reauthorized-Judged n back.0 back.1 refl)

    first_sent-Judged :
        (n gen : ℕ) (r : Sent × State W)
        → ((e : Error) → r.0 ≡ failed e → is_nil e ≡ false)
        → Judged 0 r.1 (first_sent redact redact_url env cfg req body n gen r)
    unfolding first_sent
    first_sent-Judged n gen (failed e, s) real = on_send_error-Judged n e s (real e refl)
    first_sent-Judged n gen (answered r, s) real =
        elim (Bool-cases (r.status_code == 401 && not s.refreshed)) [
          | inl first ↦ rw first (reauthorize-Judged n gen r s (ground arith))
          | inr later ↦ rw later (judge-Judged n r s (λ q. ground arith))
        ]

    authorized-Judged :
        (n : ℕ) (grant : Grant) (s : State W)
        → Judged 1 s (authorized redact redact_url env cfg req body n (grant, s))
    unfolding authorized
    authorized-Judged n grant s =
        let (moved, same, kept) = send_once_Moved grant.token n s in
        elim (Bool-cases (is_nil grant.err)) [
          | inr refused ↦ rw refused (ground arith)
          | inl given ↦ rw given (
              Judged-trans 1 0 1 (omega arith) (moved, same) _
                (first_sent-Judged n grant.gen
                  (send_once redact redact_url env cfg req body grant.token n s)
                  (send_once_real grant.token n s)))
        ]

    -- An attempt sends at most once, and once more if it refreshes the token, which only the first
    -- attempt that meets a 401 does.
    pub attempt_once-Judged :
        (n : ℕ) (s : State W) → Judged 1 s (attempt_once redact redact_url env cfg req body n s)
    unfolding attempt_once
    attempt_once-Judged n s =
        let asked : State W = note token_asked (note (span_set "cxone.attempt" (decimal n)) s) in
        let back = at_world (env.token asked.world) asked in
        Judged-trans 0 1 1 (omega arith) (ground arith, refl) _ (authorized-Judged n back.0 back.1)
