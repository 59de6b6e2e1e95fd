-- ===== src/Transport/Json.antt =====
-- internal/transport/jsonexec.go: a request with a JSON body and a JSON answer.
pub mod Outcome
use cxone_sdk_golang.Prelude.{
  ℕ, Bool, true, false, ◌&&◌, not, String, Option, none, some, List, [], ◌∷◌, any, ◌==◌,
  if◌then◌else◌,
}
use cxone_sdk_golang.Prelude.Int.{pos}
use cxone_sdk_golang.Prelude.Text.{str_eq, concat, decimal}
use cxone_sdk_golang.Errors.{Error, nil, is_nil, configuration_error, response_error}
use cxone_sdk_golang.Errors.Message.{message}
use cxone_sdk_golang.Transport.Types.{Request, Response}

abbrev pub Query : Type 0
Query = List (String × List String)

-- What DoJSON calls: the funnel, the body of a response, net/url and encoding/json. `B` is what a
-- request carries and `A` what its answer is decoded to.
pub record JsonService (W B A : Type 0) : Type 0 where
  pub do_request : Request W → W → (Option Response × Error) × W
  pub read : Option ℕ → ℕ → W → (String × Error) × W
  pub close : Option ℕ → W → W
  pub add_query : String → Query → String × Error
  pub marshal : B → String × Error
  pub unmarshal : String → A × Error
  pub error_message : String → String × Error

-- statusIn
abbrev pub status_in : ℕ → List ℕ → Bool
status_in code expected = any (λ c. c == code) expected

-- a call of DoJSON
pub record JsonCall (B : Type 0) : Type 0 where
  pub method : String
  pub url : String
  pub query : Query
  pub body : Option B
  pub expected : List ℕ
  pub wants_out : Bool

-- what DoJSON leaves in `out`, if it writes there, and its error
abbrev pub JsonResult : Type 0 → Type 0
JsonResult A = Option A × Error

module _ {W B A : Type 0} (service : JsonService W B A) (call : JsonCall B) where
  -- appendQuery
  unfoldable pub append_query : Query → String × Error
  append_query [] = (call.url, nil)
  append_query (q ∷ qs) = service.add_query call.url (q ∷ qs)

  -- a ResponseError about a response
  abbrev pub refused : String → Response → String → Error → Error
  refused url resp reason cause =
      response_error
        (record {
          method = call.method;
          url = url;
          status_code = resp.status_code;
          correlation_id = resp.correlation_id;
          reason = reason;
        })
        cause

  -- what is made of a decoded body
  unfoldable pub decoded : String → Response → A × Error → JsonResult A
  decoded url resp (a, e) =
      if is_nil e
      then (some a, nil)
      else (none, refused url resp (concat "decode response body: " (message e)) e)

  -- the reason for an unexpected status
  unfoldable pub unexpected_reason : ℕ → String → String
  unexpected_reason status body =
      let (m, e) = service.error_message body in
      if not (str_eq body "") && (is_nil e && not (str_eq m ""))
      then concat "status " (concat (decimal status) (concat ": " m))
      else concat "unexpected status " (decimal status)

  -- what is made of a response and the text of its body
  unfoldable pub answered : String → Response → String × Error → JsonResult A
  unfolding decoded unexpected_reason
  answered url resp (body, e) =
      if not (is_nil e)
      then (none, refused url resp (concat "read response body: " (message e)) e)
      else if status_in resp.status_code call.expected
      then if not call.wants_out
        then (none, nil)
        else if str_eq body ""
        then (none, nil)
        else decoded url resp (service.unmarshal body)
      else (none, refused url resp (unexpected_reason resp.status_code body) nil)

  -- what is made of the funnel's result; the body is closed at the end
  unfoldable pub received : String → (Option Response × Error) × W → JsonResult A × W
  unfolding answered
  received url ((none, e), w) = ((none, e), w)
  received url ((some resp, e), w) =
      if is_nil e
      then (let (r, w') = service.read resp.body 16_777_216 w in
          (answered url resp r, service.close resp.body w'))
      else ((none, e), w)

  -- the request, with a text for its body
  abbrev pub json_request : String → Option String → Request W
  json_request url body = record {
    view = record {
      method = call.method;
      url = url;
      header = [];
      content_type = elim body [ none ↦ "" | some b ↦ "application/json" ];
      timeout = pos 0;
    };
    body = elim body [ none ↦ none | some b ↦ some (λ w. ((b, nil), w)) ];
  }

  -- the rest of the call, once the body is a text
  unfoldable pub marshalled : String → String × Error → W → JsonResult A × W
  unfolding received
  marshalled url (buf, e) w =
      if is_nil e
      then received url (service.do_request (json_request url (some buf)) w)
      else ((none, configuration_error "body" (concat "json marshal: " (message e))), w)

  unfoldable pub with_body : String → Option B → W → JsonResult A × W
  unfolding received marshalled
  with_body url none w = received url (service.do_request (json_request url none) w)
  with_body url (some b) w = marshalled url (service.marshal b) w

  -- with what appendQuery returned
  unfoldable pub addressed : String × Error → W → JsonResult A × W
  unfolding with_body
  addressed (url, e) w =
      if is_nil e
      then with_body url call.body w
      else ((none, configuration_error "url" (message e)), w)

  -- DoJSON
  unfoldable pub do_json : W → JsonResult A × W
  unfolding append_query addressed
  do_json w = addressed (append_query call.query) w
