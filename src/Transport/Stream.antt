-- ===== src/Transport/Stream.antt =====
-- internal/transport/streamexec.go: requests whose answer is a stream of bytes or a text.
pub mod Outcome
mod Examples
use Prim.Native.String.{len, slice}
use cxone_sdk_golang.Prelude.{
  ℕ, Bool, true, false, not, ◌&&◌, String, Option, none, some, List, [], ◌∷◌, leb, if◌then◌else◌,
}
use cxone_sdk_golang.Prelude.Int.{pos}
use cxone_sdk_golang.Prelude.Text.{str_eq, concat, decimal}
use cxone_sdk_golang.Errors.{Error, nil, is_nil, configuration_error, response_error}
use cxone_sdk_golang.Errors.Message.{message}
use cxone_sdk_golang.Transport.Types.{Request, Response}
use cxone_sdk_golang.Transport.Json.{Query, status_in}

-- What these calls use and do not implement: the funnel, the body of a response, net/url, and the
-- message of the envelope of an error.
pub record Funnel (W : Type 0) : Type 0 where
  pub do_request : Request W → W → (Option Response × Error) × W
  pub read : Option ℕ → ℕ → W → (String × Error) × W
  pub close : Option ℕ → W → W
  pub add_query : String → Query → String × Error
  pub error_message : String → String × Error

-- a call of DoStream or DoText
pub record StreamCall : Type 0 where
  pub method : String
  pub url : String
  pub query : Query
  pub expected : List ℕ

-- truncate; a character that the cut falls into is dropped
unfoldable pub truncate : String → ℕ → String
truncate s max = if leb (len s) max then s else concat (slice s 0 max) "..."

module _ {W : Type 0} (funnel : Funnel W) (call : StreamCall) where
  -- appendQuery
  unfoldable pub final_url : Query → String × Error
  final_url [] = (call.url, nil)
  final_url (q ∷ qs) = funnel.add_query call.url (q ∷ qs)

  abbrev pub stream_request : String → Request W
  stream_request url = record {
    view = record {
      method = call.method;
      url = url;
      header = [];
      content_type = "";
      timeout = pos 0;
    };
    body = none;
  }

  abbrev pub stream_refused : String → Response → String → Error → Error
  stream_refused url resp reason cause =
      response_error
        (record {
          method = call.method;
          url = url;
          status_code = resp.status_code;
          correlation_id = resp.correlation_id;
          reason = reason;
        })
        cause

  -- the reason for an unexpected status, given the start of the body
  unfoldable pub stream_reason : ℕ → String → String
  stream_reason status body =
      let (m, e) = funnel.error_message body in
      if not (str_eq body "") && (is_nil e && not (str_eq m ""))
      then concat "status " (concat (decimal status) (concat ": " m))
      else concat "unexpected status " (decimal status)

  -- what DoStream makes of the funnel's result: the body as it is, or an error
  unfoldable pub streamed : String → (Option Response × Error) × W → (Option (Option ℕ) × Error) × W
  streamed url ((none, e), w) = ((none, e), w)
  streamed url ((some resp, e), w) =
      if not (is_nil e)
      then ((none, e), w)
      else if status_in resp.status_code call.expected
      then ((some resp.body, nil), w)
      else (let ((body, bad), w') = funnel.read resp.body 4_096 w in
          (
            (none, stream_refused url resp (stream_reason resp.status_code body) nil),
            funnel.close resp.body w',
          ))

  unfoldable pub stream_at : String × Error → W → (Option (Option ℕ) × Error) × W
  stream_at (url, e) w =
      if is_nil e
      then streamed url (funnel.do_request (stream_request url) w)
      else ((none, configuration_error "url" (message e)), w)

  -- DoStream
  unfoldable pub do_stream : W → (Option (Option ℕ) × Error) × W
  do_stream w = stream_at (final_url call.query) w

  unfoldable pub text_of : String → Response → String × Error → String × Error
  text_of url resp (body, e) =
      if not (is_nil e)
      then ("", stream_refused url resp (concat "read response body: " (message e)) e)
      else if status_in resp.status_code call.expected
      then (body, nil)
      else (
        "",
        stream_refused url resp
            (if str_eq body ""
              then concat "unexpected status " (decimal resp.status_code)
              else concat "status "
                  (concat (decimal resp.status_code) (concat ": " (truncate body 256))))
            nil,
      )

  unfoldable pub text_received : String → (Option Response × Error) × W → (String × Error) × W
  text_received url ((none, e), w) = (("", e), w)
  text_received url ((some resp, e), w) =
      if is_nil e
      then (let (r, w') = funnel.read resp.body 16_777_216 w in
          (text_of url resp r, funnel.close resp.body w'))
      else (("", e), w)

  unfoldable pub text_at : String × Error → W → (String × Error) × W
  text_at (url, e) w =
      if is_nil e
      then text_received url (funnel.do_request (stream_request url) w)
      else (("", configuration_error "url" (message e)), w)

  -- DoText
  unfoldable pub do_text : W → (String × Error) × W
  do_text w = text_at (final_url call.query) w
