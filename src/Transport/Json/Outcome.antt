-- ===== src/Transport/Json/Outcome.antt =====
-- internal/transport/jsonexec.go: the errors of a request with a JSON answer.
use cxone_sdk_golang.Prelude.{
  ◌≡◌, refl, ◌⊎◌, inl, inr, Bool, true, false, ◌||◌, String, Option, none, some, arith, Bool-cases,
}
use cxone_sdk_golang.Prelude.Text.{str_eq}
use cxone_sdk_golang.Errors.{
  Error, nil, is_nil, response_error, chain_has, as_communication, as_auth,
}
use cxone_sdk_golang.Transport.Types.{Request, Response, Env, Config}
use cxone_sdk_golang.Transport.Executor.{do_request}
use cxone_sdk_golang.Transport.Executor.Budget.{IsClient, Accepts}
use cxone_sdk_golang.Transport.Executor.Contract.{is_catalogued, do_request-outcome}
use cxone_sdk_golang.Transport.Json.{
  JsonService, JsonCall, JsonResult, status_in, decoded, answered, received, marshalled, with_body,
  addressed, append_query, do_json,
}

abbrev is_response_error : Error → Bool
is_response_error (response_error i c) = true
is_response_error _ = false

-- an error of the catalog
abbrev pub is_known_error : Error → Bool
is_known_error e = is_catalogued e || is_response_error e

-- The funnel gives no response and an error of its own, or a response and no error.
abbrev pub IsFunnel : {W : Type 0} → (Request W → W → (Option Response × Error) × W) → Type 0
IsFunnel {W} funnel =
    (req : Request W) (w : W)
    → (((funnel req w).0.0 ≡ none) × (is_catalogued (funnel req w).0.1 ≡ true))
      ⊎ (((funnel req w).0.1 ≡ nil) × ((r : Response) × ((funnel req w).0.0 ≡ some r)))

-- Do, as the funnel of the other calls
abbrev pub executor_funnel :
    {W : Type 0} (redact redact_url : String → String) (env : Env W) (cfg : Config W)
    → Request W
    → W
    → (Option Response × Error) × W
executor_funnel redact redact_url env cfg req w =
    let (r, s) = do_request redact redact_url env cfg (some req) w in (r, s.world)

is_some_of-Accepts :
    (refreshed : Bool) (o : Option Response) → Accepts refreshed o → (r : Response) × (o ≡ some r)
is_some_of-Accepts refreshed none a = absurd a
is_some_of-Accepts refreshed (some r) a = (r, refl)

pub executor-IsFunnel :
    {W : Type 0} (redact redact_url : String → String) (env : Env W) (cfg : Config W)
    → IsClient env
    → IsFunnel (executor_funnel redact redact_url env cfg)
executor-IsFunnel redact redact_url env cfg client req w =
    elim (do_request-outcome redact redact_url env cfg client (some req) w) [
      | inl failed ↦ inl failed
      | inr (ok, accepted) ↦ inr (ok, is_some_of-Accepts _ _ accepted)
    ]

module _ {W B A : Type 0} (service : JsonService W B A) (call : JsonCall B) where
  -- the status of the response is an expected one and there is no error, or the error is known
  abbrev Sorted : Bool → JsonResult A → Type 0
  Sorted expected (a, e) = ((is_nil e ≡ true) × (expected ≡ true)) ⊎ (is_known_error e ≡ true)

  decoded-Sorted :
      (url : String) (resp : Response) (r : A × Error)
      → Sorted true (decoded service call url resp r)
  unfolding decoded as_communication as_auth chain_has
  decoded-Sorted url resp (a, e) = elim (Bool-cases (is_nil e)) [
    | inl ok ↦ rw ok (inl (refl, refl))
    | inr bad ↦ rw bad (inr (ground arith))
  ]

  answered-Sorted :
      (url : String) (resp : Response) (r : String × Error)
      → Sorted (status_in resp.status_code call.expected) (answered service call url resp r)
  unfolding answered as_communication as_auth chain_has
  answered-Sorted url resp (body, e) = elim (Bool-cases (is_nil e)) [
    | inr unread ↦ rw unread (inr (ground arith))
    | inl read ↦ elim (Bool-cases (status_in resp.status_code call.expected)) [
      | inr odd ↦ rw (read, odd) (inr refl)
      | inl expected ↦ elim (Bool-cases call.wants_out) [
        | inr unwanted ↦ rw (read, expected, unwanted) (inl (refl, refl))
        | inl wanted ↦ elim (Bool-cases (str_eq body "")) [
          | inl empty ↦ rw (read, expected, wanted, empty) (inl (refl, refl))
          | inr full ↦
              rw (read, expected, wanted, full) (decoded-Sorted url resp (service.unmarshal body))
        ]
      ]
    ]
  ]

  -- what a call of DoJSON that starts at `w` comes to
  abbrev pub Answers : W → JsonResult A → Type 0
  Answers w (a, e) =
      ((is_nil e ≡ true)
        × ((req : Request W) × (resp : Response) × ((service.do_request req w).0.0 ≡ some resp)
            × (status_in resp.status_code call.expected ≡ true)))
      ⊎ (is_known_error e ≡ true)

  Sorted-Answers :
      (req : Request W) (w : W) (resp : Response) (r : JsonResult A)
      → (service.do_request req w).0.0 ≡ some resp
      → Sorted (status_in resp.status_code call.expected) r
      → Answers w r
  Sorted-Answers req w resp (a, e) there (inl (ok, h)) = inl (ok, (req, resp, there, h))
  Sorted-Answers req w resp (a, e) there (inr known) = inr known

  received-Answers :
      (url : String) (req : Request W) (w : W) (o : Option Response) (e : Error) (v : W)
      → (service.do_request req w).0.0 ≡ o
      → ((o ≡ none) × (is_catalogued e ≡ true)) ⊎ ((e ≡ nil) × ((r : Response) × (o ≡ some r)))
      → Answers w (received service call url ((o, e), v)).0
  unfolding received
  received-Answers url req w none e v there (inl (missing, known)) = inr (ground (arith, known))
  received-Answers url req w none e v there (inr (ok, (r, is))) = absurd (ground arith)
  received-Answers url req w (some resp) e v there (inl (missing, known)) = absurd (ground arith)
  received-Answers url req w (some resp) e v there (inr (ok, (r, is))) = rw ok (
      Sorted-Answers req w resp
        (answered service call url resp (service.read resp.body 16_777_216 v).0) there
        (answered-Sorted url resp (service.read resp.body 16_777_216 v).0))

  module _ (funnel : IsFunnel service.do_request) where
    sent-Answers :
        (url : String) (req : Request W) (w : W)
        → Answers w (received service call url (service.do_request req w)).0
    sent-Answers url req w =
        received-Answers url req w (service.do_request req w).0.0 (service.do_request req w).0.1
          (service.do_request req w).1 refl (funnel req w)

    with_body-Answers :
        (url : String) (b : Option B) (w : W) → Answers w (with_body service call url b w).0
    unfolding with_body marshalled as_communication as_auth chain_has
    with_body-Answers url none w = sent-Answers url _ w
    with_body-Answers url (some b) w = elim (Bool-cases (is_nil (service.marshal b).1)) [
      | inl ok ↦ rw ok (sent-Answers url _ w)
      | inr bad ↦ rw bad (inr refl)
    ]

    -- Over a funnel that gives a response or an error of its own: DoJSON returns no error only if
    -- the funnel gave a response of an expected status, and else an error that is a ResponseError
    -- or has an error of the funnel or a ConfigurationError in its chain.
    pub do_json-Answers : (w : W) → Answers w (do_json service call w).0
    unfolding do_json addressed as_communication as_auth chain_has
    do_json-Answers w = elim (Bool-cases (is_nil (append_query service call call.query).1)) [
      | inl ok ↦ rw ok (with_body-Answers (append_query service call call.query).0 call.body w)
      | inr bad ↦ rw bad (inr refl)
    ]
