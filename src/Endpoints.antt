-- ===== src/Endpoints.antt =====
-- internal/endpoints: what the endpoint packages share, their calls of DoJSON with and without an
-- answer.
pub mod Url
pub mod Answers
pub mod Location
pub mod Create
pub mod Users
pub mod Groups
pub mod Clients
pub mod Roles
pub mod Presets
pub mod Projects
pub mod Applications
pub mod Reports
pub mod Scans
pub mod Audit
pub mod Migration
mod Examples
pub mod Filters
use cxone_sdk_golang.Prelude.{
  ℕ, true, false, String, Option, none, some, List, [], ◌∷◌, if◌then◌else◌,
}
use cxone_sdk_golang.Errors.{Error, nil, is_nil}
use cxone_sdk_golang.Transport.Types.{Request, Response}
pub use cxone_sdk_golang.Transport.Stream.{Funnel}
use cxone_sdk_golang.Transport.Json.{Query, JsonService, JsonResult, do_json}

-- encoding/json, for a body of type `B` and an answer of type `A`; `Unit` where there is none
pub record Codec (B A : Type 0) : Type 0 where
  pub marshal : B → String × Error
  pub unmarshal : String → A × Error

module _ {W B A : Type 0} (funnel : Funnel W) (codec : Codec B A) where
  abbrev pub json_service : JsonService W B A
  json_service = record {
    do_request = funnel.do_request;
    read = funnel.read;
    close = funnel.close;
    add_query = funnel.add_query;
    marshal = codec.marshal;
    unmarshal = codec.unmarshal;
    error_message = funnel.error_message;
  }

  -- `return &out, nil`, or `return nil, err`; `zero` is what `out` is declared with
  unfoldable pub answer : A → JsonResult A × W → (Option A × Error) × W
  answer zero ((none, e), w) = ((if is_nil e then some zero else none, e), w)
  answer zero ((some a, e), w) = ((if is_nil e then some a else none, e), w)

  -- a call of DoJSON with an answer
  unfoldable pub fetch :
      String → String → Query → Option B → List ℕ → A → W → (Option A × Error) × W
  fetch method url query body expected zero w = answer zero (
      do_json json_service
        (record {
          method = method;
          url = url;
          query = query;
          body = body;
          expected = expected;
          wants_out = true;
        })
        w)

  -- a call of DoJSON without one
  unfoldable pub send_query : String → String → Query → Option B → List ℕ → W → Error × W
  send_query method url query body expected w =
      let ((a, e), w') =
        do_json json_service
          (record {
            method = method;
            url = url;
            query = query;
            body = body;
            expected = expected;
            wants_out = false;
          })
          w in
      (e, w')

  -- the same without a query
  unfoldable pub send : String → String → Option B → List ℕ → W → Error × W
  send method url body expected w = send_query method url [] body expected w

-- a slice that is nil when there is none
abbrev pub slice_of : {A : Type 0} → Option (List A) → List A
slice_of none = []
slice_of (some xs) = xs

abbrev pub as_slice : {W A : Type 0} → (Option (List A) × Error) × W → (List A × Error) × W
as_slice ((xs, e), w) = ((slice_of xs, e), w)
