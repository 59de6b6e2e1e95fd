-- ===== src/Transport/Attempt.antt =====
-- internal/transport/executor.go: one attempt of Do, the closure that it hands to retry.Do.
use cxone_sdk_golang.Prelude.{
  ℕ, true, not, ◌&&◌, String, Option, none, some, List, [], ◌∷◌, ◌++◌, ◌==◌, if◌then◌else◌,
}
use cxone_sdk_golang.Prelude.Text.{concat, decimal}
use cxone_sdk_golang.Errors.{Error, nil, is_nil, communication_error, is_cancellation}
use cxone_sdk_golang.Errors.Message.{message}
use cxone_sdk_golang.Retry.{Outcome, success, retry, fatal, classify_status}
use cxone_sdk_golang.Retry.Transient.{is_transient}
use cxone_sdk_golang.Auth.Cache.{Grant}
use cxone_sdk_golang.Transport.Types.{
  Request, Response, Sent, answered, failed, Env, Config, token_asked, refresh_asked, drained,
  logged, request_counted, retry_counted, refresh_counted, span_set, State, note, at_world,
}
use cxone_sdk_golang.Transport.Send.{run_after, send_once}

abbrev pub Verdict : Type 0 → Type 0
Verdict W = (Outcome × Error) × State W

-- the CommunicationError of an attempt
abbrev pub comm_error :
    {W : Type 0} → (String → String) → Config W → Request W → ℕ → ℕ → Error → Error
comm_error redact_url cfg req attempt status cause =
    communication_error
      (record {
        method = req.method;
        url = redact_url req.url;
        status_code = status;
        attempt = attempt;
        correlation_id = cfg.correlation_id;
      })
      cause

-- drain
unfoldable pub drain : {W : Type 0} → Option ℕ → State W → State W
drain none s = s
drain (some b) s = note (drained (some b)) s

-- after a 401: what is recorded before the refresh
unfoldable pub refreshing : {W : Type 0} → ℕ → Response → State W → State W
unfolding drain
refreshing used_gen r s = note (refresh_asked used_gen) (
    note (refresh_counted "401") (
      note (logged "cxone.auth.refresh" (("reason", "401") ∷ []))
        (record (drain r.body s) { refreshed = true })))

module _ {W : Type 0} (redact redact_url : String → String) (env : Env W) (cfg : Config W)
    (req : Request W) (body : String) where
  abbrev retry_fields : ℕ → ℕ → Error → List (String × String)
  retry_fields attempt status e =
      ("method", req.method)
      ∷ ("url", redact_url req.url)
      ∷ ("attempt", decimal attempt)
      ∷ ("correlationId", cfg.correlation_id)
      ∷ ((if status == 0 then [] else ("status", decimal status) ∷ [])
          ++ (if is_nil e then [] else ("error", redact (message e)) ∷ []))

  -- logRetry
  abbrev log_retry : ℕ → ℕ → Error → State W → State W
  log_retry attempt status e s =
      note (logged "cxone.request.retry" (retry_fields attempt status e)) s

  -- the first send of an attempt failed
  unfoldable pub on_send_error : ℕ → Error → State W → Verdict W
  on_send_error attempt e s =
      if is_cancellation e
      then ((fatal, e), s)
      else let s' =
          run_after redact redact_url env cfg req.view none e
            (note (request_counted req.method 0) s) in
        if is_transient e
        then ((retry, e), note (retry_counted "transport") (log_retry attempt 0 e s'))
        else ((fatal, comm_error redact_url cfg req attempt 0 e), s')

  -- the `switch` on the class of a response's status
  unfoldable pub settle_status : Outcome → ℕ → Response → State W → Verdict W
  unfolding drain
  settle_status success attempt r s = (
    (success, nil),
    record (run_after redact redact_url env cfg req.view (some r) nil s) { resp = some r },
  )
  settle_status retry attempt r s = (
    (retry, comm_error redact_url cfg req attempt r.status_code nil),
    note (retry_counted (concat "status_" (decimal r.status_code)))
        (log_retry attempt r.status_code nil (drain r.body s)),
  )
  settle_status fatal attempt r s = (
    (success, nil),
    record (run_after redact redact_url env cfg req.view (some r) nil s) { resp = some r },
  )

  -- what is made of a response that is not a first 401
  unfoldable pub judge : ℕ → Response → State W → Verdict W
  unfolding settle_status
  judge attempt r s = settle_status (classify_status r.status_code) attempt r (
      note (request_counted req.method r.status_code)
        (note (span_set "http.status_code" (decimal r.status_code)) s))

  -- the send after a refreshed token
  unfoldable pub resent : ℕ → Sent × State W → Verdict W
  unfolding judge
  resent attempt (failed e, s) =
      if is_transient e
      then ((retry, e), s)
      else ((fatal, comm_error redact_url cfg req attempt 0 e), s)
  resent attempt (answered r, s) = judge attempt r s

  -- with what Refresh returned: one send off the budget
  unfoldable pub reauthorized : ℕ → Grant × State W → Verdict W
  unfolding resent
  reauthorized attempt (grant, s) =
      if is_nil grant.err
      then resent attempt (send_once redact redact_url env cfg req body grant.token attempt s)
      else ((fatal, grant.err), s)

  unfoldable pub reauthorize : ℕ → ℕ → Response → State W → Verdict W
  unfolding reauthorized refreshing
  reauthorize attempt used_gen r s =
      let s' = refreshing used_gen r s in
      reauthorized attempt (at_world (env.refresh used_gen s'.world) s')

  -- the first send of an attempt
  unfoldable pub first_sent : ℕ → ℕ → Sent × State W → Verdict W
  unfolding on_send_error judge reauthorize
  first_sent attempt gen (failed e, s) = on_send_error attempt e s
  first_sent attempt gen (answered r, s) =
      if r.status_code == 401 && not s.refreshed
      then reauthorize attempt gen r s
      else judge attempt r s

  -- with what Token returned
  unfoldable pub authorized : ℕ → Grant × State W → Verdict W
  unfolding first_sent
  authorized attempt (grant, s) =
      if is_nil grant.err
      then first_sent attempt grant.gen
          (send_once redact redact_url env cfg req body grant.token attempt s)
      else ((fatal, grant.err), s)

  unfoldable pub attempt_once : ℕ → State W → Verdict W
  unfolding authorized
  attempt_once attempt s =
      let s' = note token_asked (note (span_set "cxone.attempt" (decimal attempt)) s) in
      authorized attempt (at_world (env.token s'.world) s')
