-- ===== src/Transport/Types.antt =====
-- internal/transport/interceptor.go, and what executor.go is built from: requests, responses,
-- interceptors, the configuration, and the record of what a call did.
use cxone_sdk_golang.Prelude.{ℕ, Bool, String, Option, List, ◌∷◌}
use cxone_sdk_golang.Prelude.Int.{ℤ}
use cxone_sdk_golang.Context.{Context}
use cxone_sdk_golang.Errors.{Error}
use cxone_sdk_golang.Retry.{Policy}
use cxone_sdk_golang.Auth.Cache.{Grant}
use cxone_sdk_golang.Transport.Header.{Header}

-- What an interceptor sees of a request.
pub record View : Type 0 where
  pub method : String
  pub url : String
  pub header : Header
  pub content_type : String
  pub timeout : ℤ

-- A request; reading the body is an effect that may fail.
pub record Request (W : Type 0) : Type 0 where
  pub view : View
  pub open view use *
  pub body : Option (W → (String × Error) × W)

-- *http.Request
pub record HttpRequest : Type 0 where
  pub method : String
  pub url : String
  pub header : Header
  pub body : String

-- A response; `body` is the handle of a body that is not read yet, and `closes_timer` says that its
-- Close also releases the timer of the call.
pub record Response : Type 0 where
  pub status_code : ℕ
  pub header : Header
  pub body : Option ℕ
  pub closes_timer : Bool
  pub attempt : ℕ
  pub correlation_id : String

-- what a send comes to
pub data Sent : Type 0 where
  answered : Response → Sent
  failed : Error → Sent

-- *http.Response
pub record HttpResponse : Type 0 where
  pub status_code : ℕ
  pub header : Header
  pub body : Option ℕ

pub data Reply : Type 0 where
  response : HttpResponse → Reply
  error : Error → Reply

-- `before` returns the request with its header as the interceptor left it.
pub record Interceptor (W : Type 0) : Type 0 where
  pub before : View → ℕ → W → (View × Error) × W
  pub after : View → Option Response → Error → W → Error × W

-- What the funnel calls and does not implement: the context, the random source, the authenticator,
-- the constructor of HTTP requests, the HTTP client and its clock.
pub record Env (W : Type 0) : Type 0 where
  pub ctx : Context W
  pub with_timeout : Context W → ℤ → Context W
  pub int63n : ℕ → W → ℕ × W
  pub token : W → Grant × W
  pub refresh : ℕ → W → Grant × W
  pub build : String → String → Error
  pub send : HttpRequest → W → Reply × W
  pub elapsed : W → String × W

pub record Config (W : Type 0) : Type 0 where
  pub user_agent : String
  pub correlation_id : String
  pub timeout : ℤ
  pub policy : Policy
  pub interceptors : List (Interceptor W)

-- What a call does that can be seen from outside. Log entries have their fields as texts.
pub data Event : Type 0 where
  token_asked : Event
  refresh_asked : ℕ → Event
  before_called after_called : ℕ → Event
  sent : HttpRequest → Event
  drained : Option ℕ → Event
  logged : String → List (String × String) → Event
  request_counted : String → ℕ → Event
  retry_counted refresh_counted : String → Event
  latency_observed : String → String → Event
  span_started : String → Event
  span_set : String → String → Event
  span_failed : Error → Event
  span_ended timer_stopped : Event
  timer_started : ℤ → Event

-- The world, the trace of the call with the newest event first, and the variables that the attempts
-- of one call share: `resp` and `refreshedAfter401`.
pub record State (W : Type 0) : Type 0 where
  pub world : W
  pub trace : List Event
  pub resp : Option Response
  pub refreshed : Bool

module _ {W : Type 0} where
  abbrev pub note : Event → State W → State W
  note e s = record s { trace = e ∷ s.trace }

  abbrev pub at_world : {A : Type 0} → A × W → State W → A × State W
  at_world (a, w) s = (a, record s { world = w })
