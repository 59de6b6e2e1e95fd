-- ===== src/Transport/Graphql.antt =====
-- internal/transport/graphql.go: a query of the GraphQL service.
use cxone_sdk_golang.Prelude.{
  ◌≡◌, refl, sym, subst, if_true, ◌⊎◌, inl, inr, Bool, true, false, ◌||◌, not, String, Option, none,
  some, List, [], ◌∷◌, arith, Bool-cases, if◌then◌else◌,
}
use cxone_sdk_golang.Prelude.Text.{str_eq, concat}
use cxone_sdk_golang.Errors.{
  Error, nil, is_nil, configuration_error, response_error, chain_has, as_communication, as_auth,
}
use cxone_sdk_golang.Errors.Message.{message}
use cxone_sdk_golang.Transport.Types.{Request, Response}
use cxone_sdk_golang.Transport.Json.{JsonService, JsonCall, JsonResult, status_in, do_json}
use cxone_sdk_golang.Transport.Json.Outcome.{IsFunnel, is_known_error, Answers, do_json-Answers}

-- GraphQLRequest; `V` is the type of the variables
pub record GraphqlRequest (V : Type 0) : Type 0 where
  pub query : String
  pub variables : V

-- GraphQLResponse, with its errors as their messages
pub record GraphqlResponse : Type 0 where
  pub payload : String
  pub errors : List String

-- GraphQLError about the endpoint's answer
abbrev graphql_refused : String → String → Error → Error
graphql_refused endpoint reason cause =
    response_error
      (record {
        method = "POST";
        url = endpoint;
        status_code = 200;
        correlation_id = "";
        reason = reason;
      })
      cause

module _ {W V A : Type 0} (service : JsonService W (GraphqlRequest V) GraphqlResponse)
    (decode : String → A × Error) (endpoint : String) where
  abbrev pub graphql_call : String → V → JsonCall (GraphqlRequest V)
  graphql_call query variables = record {
    method = "POST";
    url = endpoint;
    query = [];
    body = some (record { query = query; variables = variables });
    expected = 200 ∷ [];
    wants_out = true;
  }

  unfoldable pub data_decoded : A × Error → JsonResult A
  data_decoded (a, e) =
      if is_nil e
      then (some a, nil)
      else (none, graphql_refused endpoint (concat "decode graphql data: " (message e)) e)

  -- what is made of the envelope
  unfoldable pub envelope_read : Bool → GraphqlResponse → JsonResult A
  envelope_read wants_out resp = elim resp.errors [
    | m ∷ ms ↦ (none, graphql_refused endpoint (concat "graphql: " m) nil)
    | [] ↦
        if not wants_out || str_eq resp.payload ""
        then (none, nil)
        else data_decoded (decode resp.payload)
  ]

  abbrev empty_envelope : GraphqlResponse
  empty_envelope = record { payload = ""; errors = [] }

  unfoldable pub executed : Bool → JsonResult GraphqlResponse × W → JsonResult A × W
  executed wants_out ((none, e), w) =
      ((if is_nil e then envelope_read wants_out empty_envelope else (none, e)), w)
  executed wants_out ((some resp, e), w) =
      ((if is_nil e then envelope_read wants_out resp else (none, e)), w)

  -- Execute
  unfoldable pub execute : String → V → Bool → W → JsonResult A × W
  execute query variables wants_out w =
      if str_eq endpoint ""
      then ((none, configuration_error "GraphQL.Endpoint" "is required"), w)
      else if str_eq query ""
      then ((none, configuration_error "GraphQL.Query" "is required"), w)
      else executed wants_out (do_json service (graphql_call query variables) w)

  abbrev or_empty : Option GraphqlResponse → GraphqlResponse
  or_empty none = empty_envelope
  or_empty (some resp) = resp

  -- the envelope reports no error, and its data was decoded if it was wanted and there is any
  abbrev pub Accepted : Bool → GraphqlResponse → Option A → Type 0
  Accepted wants_out resp o =
      (resp.errors ≡ [])
      × ((((not wants_out || str_eq resp.payload "") ≡ true) × (o ≡ none))
          ⊎ (((not wants_out || str_eq resp.payload "") ≡ false)
              × (is_nil (decode resp.payload).1 ≡ true)
              × (o ≡ some (decode resp.payload).0)))

  envelope_read-Accepted :
      (wants_out : Bool) (payload : String) (errors : List String)
      → ((is_nil (envelope_read wants_out (record { payload = payload; errors = errors })).1 ≡ true)
          × Accepted wants_out
              (record { payload = payload; errors = errors })
              (envelope_read wants_out (record { payload = payload; errors = errors })).0)
        ⊎ (is_known_error
              (envelope_read wants_out (record { payload = payload; errors = errors })).1
            ≡ true)
  unfolding envelope_read data_decoded as_communication as_auth chain_has
  envelope_read-Accepted wants_out payload (m ∷ ms) = inr refl
  envelope_read-Accepted wants_out payload [] =
      elim (Bool-cases (not wants_out || str_eq payload "")) [
        | inl unread ↦ rw unread (inl (refl, (refl, inl (refl, refl))))
        | inr read ↦ elim (Bool-cases (is_nil (decode payload).1)) [
          | inl ok ↦ rw (read, ok) (inl (refl, (refl, inr (refl, refl, refl))))
          | inr bad ↦ rw (read, bad) (inr (ground arith))
        ]
      ]

  -- There is no error, the funnel gave a response of status 200, and DoJSON's answer `d` was
  -- accepted; or the error is a known one.
  abbrev pub Executes : JsonResult GraphqlResponse → Bool → W → JsonResult A → Type 0
  Executes d wants_out w r =
      ((is_nil r.1 ≡ true)
        × ((req : Request W) × (resp : Response) × ((service.do_request req w).0.0 ≡ some resp)
            × (status_in resp.status_code (200 ∷ []) ≡ true))
        × (is_nil d.1 ≡ true)
        × Accepted wants_out (or_empty d.0) r.0)
      ⊎ (is_known_error r.1 ≡ true)

  nil-unknown : (e : Error) → is_nil e ≡ true → is_known_error e ≡ true → ⊥
  unfolding as_communication as_auth chain_has
  nil-unknown nil ok known = ground (arith, known)
  nil-unknown _ ok known = ground (arith, ok)

  from_envelope :
      (d : JsonResult GraphqlResponse) (wants_out : Bool) (w : W)
      → is_nil d.1 ≡ true
      → (req : Request W) × (resp : Response) × ((service.do_request req w).0.0 ≡ some resp)
        × (status_in resp.status_code (200 ∷ []) ≡ true)
      → Executes d wants_out w (envelope_read wants_out (or_empty d.0))
  from_envelope (o, e) wants_out w ok there =
      elim (envelope_read-Accepted wants_out (or_empty o).payload (or_empty o).errors) [
        | inl (accepted, shown) ↦ inl (accepted, there, ok, shown)
        | inr known ↦ inr known
      ]

  executed-Executes :
      (query : String) (variables : V) (wants_out : Bool) (w : W)
      (r : JsonResult GraphqlResponse × W)
      → Answers service (graphql_call query variables) w r.0
      → Executes r.0 wants_out w (executed wants_out r).0
  unfolding executed
  executed-Executes query variables wants_out w ((o, e), v) (inr known) =
      elim (Bool-cases (is_nil e)) [
        | inl ok ↦ absurd (nil-unknown e ok known)
        | inr bad ↦ failed o bad known
      ]
    where
      failed :
          (p : Option GraphqlResponse)
          → is_nil e ≡ false
          → is_known_error e ≡ true
          → Executes (p, e) wants_out w (executed wants_out ((p, e), v)).0
      failed none bad h = rw bad (inr h)
      failed (some resp) bad h = rw bad (inr h)
  executed-Executes query variables wants_out w ((none, e), v) (inl (ok, there)) =
      subst (λ r. Executes (none, e) wants_out w r) (sym (if_true (is_nil e) _ _ ok))
        (from_envelope (none, e) wants_out w ok there)
  executed-Executes query variables wants_out w ((some resp, e), v) (inl (ok, there)) =
      subst (λ r. Executes (some resp, e) wants_out w r) (sym (if_true (is_nil e) _ _ ok))
        (from_envelope (some resp, e) wants_out w ok there)

  -- Over a funnel that gives a response or an error of its own: Execute returns no error only if
  -- the funnel gave a response of status 200 and DoJSON an envelope whose list of errors is empty,
  -- and then it returns what the data of the envelope decodes to without an error, or nothing where
  -- no value is wanted or there is no data; and else it returns an error that is a ResponseError or
  -- has an error of the funnel or a ConfigurationError in its chain.
  pub execute-Executes :
      IsFunnel service.do_request
      → (query : String) (variables : V) (wants_out : Bool) (w : W)
      → Executes
          (do_json service (graphql_call query variables) w).0
          wants_out
          w
          (execute query variables wants_out w).0
  unfolding execute as_communication as_auth chain_has
  execute-Executes sound query variables wants_out w = elim (Bool-cases (str_eq endpoint "")) [
    | inl nowhere ↦ rw nowhere (inr refl)
    | inr there ↦ elim (Bool-cases (str_eq query "")) [
      | inl empty ↦ rw (there, empty) (inr refl)
      | inr full ↦
          rw (there, full)
            (executed-Executes query variables wants_out w
              (do_json service (graphql_call query variables) w)
              (do_json-Answers service (graphql_call query variables) sound w))
    ]
  ]
