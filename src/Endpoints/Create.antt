-- ===== src/Endpoints/Create.antt =====
-- createAndExtractID of internal/endpoints/users/users.go and internal/endpoints/groups/groups.go:
-- a POST whose answer names the new resource in its Location header.
use cxone_sdk_golang.Prelude.{◌==◌, not, ◌&&◌, String, Option, none, some, [], ◌∷◌, if◌then◌else◌}
use cxone_sdk_golang.Prelude.Int.{pos}
use cxone_sdk_golang.Prelude.Text.{str_eq, concat, decimal}
use cxone_sdk_golang.Errors.{Error, nil, is_nil, configuration_error, response_error}
use cxone_sdk_golang.Errors.Message.{message}
use cxone_sdk_golang.Transport.Header.{Header, values}
use cxone_sdk_golang.Transport.Types.{Request, Response}
use cxone_sdk_golang.Endpoints.{Funnel, Codec}
use cxone_sdk_golang.Endpoints.Location.{location_id}

-- the first value of resp.Header.Get("Location")
unfoldable pub location_of : Header → String
location_of h = elim (values "Location" h) [ [] ↦ "" | v ∷ vs ↦ v ]

-- a ResponseError about the answer to a POST
abbrev pub post_refused : String → Response → String → Error
post_refused url resp reason =
    response_error
      (record {
        method = "POST";
        url = url;
        status_code = resp.status_code;
        correlation_id = resp.correlation_id;
        reason = reason;
      })
      nil

-- the new id, given the word the messages start with, the URL and the response
unfoldable pub created_id : String → String → Response → String × Error
created_id word url resp =
    if not (resp.status_code == 201) && not (resp.status_code == 200)
    then ("", post_refused url resp (concat "unexpected status " (decimal resp.status_code)))
    else if str_eq (location_of resp.header) ""
    then ("", post_refused url resp (concat word ": missing Location header"))
    else elim (location_id (location_of resp.header)) [
      | some id ↦ (id, nil)
      | none ↦ (
        "",
        post_refused url resp
            (concat word (concat ": malformed Location header: " (location_of resp.header))),
      )
    ]

module _ {W B A : Type 0} (funnel : Funnel W) (codec : Codec B A) (field word url : String) where
  -- what the POST is sent as
  abbrev pub post_request : String → Request W
  post_request body = record {
    view = record {
      method = "POST";
      url = url;
      header = [];
      content_type = "application/json";
      timeout = pos 0;
    };
    body = some (λ w. ((body, nil), w));
  }

  -- the answer, whose body is drained and closed
  unfoldable pub drained : (Option Response × Error) × W → (String × Error) × W
  drained ((none, e), w) = (("", e), w)
  drained ((some resp, e), w) =
      if is_nil e
      then (let (r, w') = funnel.read resp.body 65_536 w in
          (created_id word url resp, funnel.close resp.body w'))
      else (("", e), w)

  unfoldable pub posted : String × Error → W → (String × Error) × W
  posted (body, e) w =
      if is_nil e
      then drained (funnel.do_request (post_request body) w)
      else (("", configuration_error field (concat "json marshal: " (message e))), w)

  -- createAndExtractID
  unfoldable pub create_and_extract_id : B → W → (String × Error) × W
  create_and_extract_id b w = posted (codec.marshal b) w
