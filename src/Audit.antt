-- ===== src/Audit.antt =====
-- workflows/audit/inspector.go and waiter.go: a session of the query editor, and waiting for one of
-- its requests.
pub mod Ends
mod Examples
use cxone_sdk_golang.Prelude.{
  ℕ, zero, suc, Bool, true, false, not, ◌&&◌, String, Option, none, some, ◌∷◌, [], if◌then◌else◌,
}
use cxone_sdk_golang.Prelude.Int.{ℤ, pos, leb_ℤ}
use cxone_sdk_golang.Prelude.Text.{str_eq, concat_all}
use cxone_sdk_golang.Errors.{Error, nil, is_nil, opaque}
use cxone_sdk_golang.Waiting.{Clock, compute_deadline, sleep_until}
use cxone_sdk_golang.Endpoints.Users.{required}
use cxone_sdk_golang.Endpoints.Audit.{
  AuditApi, AuditSession, AuditRequestStatus, keep_alive, delete_session, get_request_status,
}

pub record SessionInspector (W V : Type 0) : Type 0 where
  pub backend : AuditApi W V
  pub session : AuditSession

-- What the waiter calls and does not implement: the context, the clock, and the printing of fmt.
pub record AuditWaitService (W V : Type 0) : Type 0 where
  pub clock : Clock W
  pub print_int : ℤ → String
  pub print_value : V → String

pub record AuditWaitOptions : Type 0 where
  pub poll_interval : ℤ
  pub max_duration : ℤ

-- the value, nil where there is `none`, and the error
abbrev pub AuditWaited : Type 0 → Type 0 → Type 0
AuditWaited W V = (Option V × Error) × W

module _ {W V : Type 0} where
  -- FromSession
  unfoldable pub from_session :
      Option (AuditApi W V) → Option AuditSession → Option (SessionInspector W V) × Error
  from_session none s = (none, required "backend")
  from_session (some api) none = (none, required "session")
  from_session (some api) (some s) = (some (record { backend = api; session = s }), nil)

  -- Allocated
  unfoldable pub is_allocated : SessionInspector W V → Bool
  is_allocated i = str_eq i.session.status "ALLOCATED"

  -- Running
  unfoldable pub is_running : SessionInspector W V → Bool
  is_running i = str_eq i.session.status "RUNNING"

  -- SessionInspector.KeepAlive
  unfoldable pub keep_session_alive : SessionInspector W V → W → Error × W
  keep_session_alive i w = keep_alive i.backend i.session.id w

  -- SessionInspector.Delete
  unfoldable pub release_session : SessionInspector W V → W → Error × W
  release_session i w = delete_session i.backend i.session.id w

  -- PollRequest
  unfoldable pub poll_request :
      SessionInspector W V → String → W → (Option (AuditRequestStatus V) × Error) × W
  poll_request i request w = get_request_status i.backend i.session.id request w

-- ErrorCode != 0 && ErrorMessage != ""
abbrev pub has_error : {V : Type 0} → AuditRequestStatus V → Bool
has_error s =
    not (leb_ℤ s.error_code (pos 0) && leb_ℤ (pos 0) s.error_code)
    && not (str_eq s.error_message "")

module _ {W V : Type 0} (service : AuditWaitService W V) (i : SessionInspector W V)
    (request : String) where
  abbrev pub request_error : AuditRequestStatus V → Error
  request_error s = opaque (
      concat_all (
        "audit request "
        ∷ request
        ∷ ": error "
        ∷ service.print_int s.error_code
        ∷ ": "
        ∷ s.error_message
        ∷ []))

  abbrev pub request_failed : AuditRequestStatus V → Error
  request_failed s =
      opaque
        (concat_all ("audit request " ∷ request ∷ " failed: " ∷ service.print_value s.value ∷ []))

  -- the heartbeat of every other poll, and the next round; `odd` says that keepAliveCounter is odd
  unfoldable pub kept_alive :
      Bool → (Bool → W → Option (AuditWaited W V)) → W → Option (AuditWaited W V)
  kept_alive odd rest w = rest (not odd) (if odd then (keep_session_alive i w).1 else w)

  unfoldable pub rested :
      Bool → (Bool → W → Option (AuditWaited W V)) → Error × W → Option (AuditWaited W V)
  rested odd rest (e, w) = if is_nil e then kept_alive odd rest w else some ((none, e), w)

  -- what is made of a status
  unfoldable pub request_seen :
      ℤ
      → Option ℤ
      → Bool
      → (Bool → W → Option (AuditWaited W V))
      → (Option (AuditRequestStatus V) × Error) × W
      → Option (AuditWaited W V)
  request_seen interval deadline odd rest ((none, e), w) = some ((none, e), w)
  request_seen interval deadline odd rest ((some s, e), w) =
      if not (is_nil e)
      then some ((none, e), w)
      else if has_error s
      then some ((some s.value, request_error s), w)
      else if str_eq s.status "Failed"
      then some ((some s.value, request_failed s), w)
      else if s.completed
      then some ((some s.value, nil), w)
      else rested odd rest (sleep_until service.clock interval deadline w)

  -- the loop, on fuel: one unit for each round
  unfoldable pub request_rounds : ℕ → ℤ → Option ℤ → Bool → W → Option (AuditWaited W V)
  request_rounds zero interval deadline odd w = none
  request_rounds (suc fuel) interval deadline odd w =
      request_seen interval deadline odd (request_rounds fuel interval deadline)
        (poll_request i request w)

-- the interval with its default, five seconds
abbrev pub audit_interval : AuditWaitOptions → ℤ
audit_interval opts =
    if leb_ℤ opts.poll_interval (pos 0) then pos 5_000_000_000 else opts.poll_interval

-- WaitForRequest
unfoldable pub wait_for_request :
    {W V : Type 0}
    → AuditWaitService W V
    → Option (SessionInspector W V)
    → ℕ
    → AuditWaitOptions
    → String
    → W
    → Option (AuditWaited W V)
wait_for_request service none fuel opts request w =
    some ((none, opaque "audit: inspector is nil"), w)
wait_for_request service (some i) fuel opts request w =
    if str_eq request ""
    then some ((none, opaque "audit: requestID is required"), w)
    else (let (deadline, w') = compute_deadline service.clock opts.max_duration w in
        request_rounds service i request fuel (audit_interval opts) deadline false w')
