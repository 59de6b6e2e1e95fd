-- ===== src/Transport/Send.antt =====
-- internal/transport/executor.go: sendOnce, runAfter, drain and the log entries.
pub mod Headers
pub mod Order
use cxone_sdk_golang.Prelude.{
  ℕ, suc, ◌+◌, Bool, false, String, Option, none, some, List, [], ◌∷◌, ◌++◌, ◌==◌, if◌then◌else◌,
}
use cxone_sdk_golang.Prelude.Text.{str_eq, concat, decimal}
use cxone_sdk_golang.Prelude.Int.{pos}
use cxone_sdk_golang.Errors.{Error, nil, is_nil, wrapped}
use cxone_sdk_golang.Errors.Message.{message}
use cxone_sdk_golang.Transport.Header.{Header, add, set}
use cxone_sdk_golang.Transport.Types.{
  View, Request, HttpRequest, Response, Sent, answered, failed, HttpResponse, Reply, response,
  error, Interceptor, Env, Config, Event, before_called, after_called, sent, drained, logged,
  latency_observed, State, note, at_world,
}

abbrev pub header_accept : String
header_accept = "*/*; version=1.0"

abbrev pub header_correlation_id : String
header_correlation_id = "CorrelationId"

-- the values of one name of the request's own header
unfoldable pub add_values : String → List String → Header → Header
add_values k [] h = h
add_values k (v ∷ vs) h = add_values k vs (add k v h)

-- the request's own header, copied
unfoldable pub add_header : Header → Header → Header
unfolding add_values
add_header [] h = h
add_header ((k, vs) ∷ own) h = add_header own (add_values k vs h)

abbrev pub set_unless_empty : String → String → Header → Header
set_unless_empty k v h = if str_eq v "" then h else set k v h

-- the request's own header, with the mandatory ones over it
unfoldable pub full_header : {W : Type 0} → Config W → View → String → Header
unfolding add_header
full_header cfg view token =
    let own = set_unless_empty "Content-Type" view.content_type (add_header view.header []) in
    let authorized =
      set "Accept" header_accept (set "Authorization" (concat "Bearer " token) own) in
    set_unless_empty header_correlation_id cfg.correlation_id
      (set_unless_empty "User-Agent" cfg.user_agent authorized)

module _ {W : Type 0} (redact redact_url : String → String) (env : Env W) (cfg : Config W) where
  -- the loop over the interceptors on the request side, up to the first error
  unfoldable pub run_before :
      List (Interceptor W) → ℕ → View → ℕ → State W → (View × Error) × State W
  run_before [] i view attempt s = ((view, nil), s)
  run_before (ic ∷ ics) i view attempt s =
      let ((view', e), s') = at_world (ic.before view attempt s.world) (note (before_called i) s) in
      let rest = run_before ics (i + 1) view' attempt s' in
      if is_nil e then rest else ((view', e), s')

  -- the loop of runAfter, from the last interceptor to the first; their errors are dropped
  unfoldable pub run_after_from :
      List (Interceptor W) → ℕ → View → Option Response → Error → State W → State W
  run_after_from [] i view resp e s = s
  run_after_from (ic ∷ ics) i view resp e s =
      let s' = run_after_from ics (i + 1) view resp e s in
      (at_world (ic.after view resp e s'.world) (note (after_called i) s')).1

  -- runAfter
  unfoldable pub run_after : View → Option Response → Error → State W → State W
  unfolding run_after_from
  run_after view resp e s =
      run_after_from cfg.interceptors 0
        (record {
          method = view.method;
          url = view.url;
          header = view.header;
          content_type = "";
          timeout = pos 0;
        })
        resp e s

  abbrev pub start_fields : View → ℕ → List (String × String)
  start_fields view attempt =
      ("method", view.method)
      ∷ ("url", redact_url view.url)
      ∷ ("attempt", decimal attempt)
      ∷ ("correlationId", cfg.correlation_id)
      ∷ []

  abbrev failure_fields : View → ℕ → String → Error → List (String × String)
  failure_fields view attempt ms e =
      ("method", view.method)
      ∷ ("url", redact_url view.url)
      ∷ ("durationMs", ms)
      ∷ ("error", redact (message e))
      ∷ ("attempt", decimal attempt)
      ∷ ("correlationId", cfg.correlation_id)
      ∷ []

  abbrev end_fields : View → ℕ → String → ℕ → List (String × String)
  end_fields view attempt ms status =
      ("method", view.method)
      ∷ ("url", redact_url view.url)
      ∷ ("status", decimal status)
      ∷ ("durationMs", ms)
      ∷ ("attempt", decimal attempt)
      ∷ ("correlationId", cfg.correlation_id)
      ∷ []

  -- what sendOnce makes of the client's reply
  unfoldable pub receive : View → ℕ → String → Reply × State W → Sent × State W
  receive view attempt ms (error e, s) =
      (failed e, note (logged "cxone.request.end" (failure_fields view attempt ms e)) s)
  receive view attempt ms (response r, s) = (
    answered (record {
      status_code = r.status_code;
      header = r.header;
      body = r.body;
      closes_timer = false;
      attempt = attempt;
      correlation_id = cfg.correlation_id;
    }),
    note (logged "cxone.request.end" (end_fields view attempt ms r.status_code)) s,
  )

  -- the client's call, and the clock around it
  unfoldable pub dispatch : View → String → Header → ℕ → State W → Sent × State W
  unfolding receive
  dispatch view body header attempt s =
      let req : HttpRequest = record {
        method = view.method;
        url = view.url;
        header = header;
        body = body;
      } in
      let started = note (logged "cxone.request.start" (start_fields view attempt)) s in
      let (reply, s') = at_world (env.send req started.world) (note (sent req) started) in
      let (ms, s'') = at_world (env.elapsed s'.world) s' in
      receive view attempt ms (reply, note (latency_observed view.method ms) s'')

  -- after the interceptors: the call, unless one of them refused it
  unfoldable pub intercepted : View → String → ℕ → (View × Error) × State W → Sent × State W
  unfolding dispatch
  intercepted view body attempt ((view', e), s) =
      if is_nil e then dispatch view body view'.header attempt s else (failed e, s)

  -- sendOnce
  unfoldable pub send_once : Request W → String → String → ℕ → State W → Sent × State W
  unfolding run_before intercepted full_header
  send_once req body token attempt s =
      let view = req.view in
      let built = env.build view.method view.url in
      if is_nil built
      then intercepted view body attempt (
          run_before cfg.interceptors 0 (record view { header = full_header cfg view token })
            attempt s)
      else (failed (wrapped (concat "build http request: " (message built)) built), s)
