-- ===== src/Auth/Fetch/Result.antt =====
-- auth/fetch.go: what a request for a token comes to.
use cxone_sdk_golang.Prelude.{
  ℕ, ◌≡◌, refl, ◌⊎◌, inl, inr, Bool, true, false, not, ◌&&◌, ◌||◌, String, List, ltb, leb, arith,
  Bool-cases,
}
use cxone_sdk_golang.Prelude.Text.{str_eq}
use cxone_sdk_golang.Errors.{Error, nil, is_nil, as_auth, is_cancellation, chain_has}
use cxone_sdk_golang.Retry.{Outcome, success, retry, fatal, classify_status, run}
use cxone_sdk_golang.Retry.Transient.{is_transient}
use cxone_sdk_golang.Retry.Rule.{Settled, Invariant, run-Ends}
use cxone_sdk_golang.Auth.Fetch.{
  TokenConfig, TokenResponse, TokenReply, answered, failed, TokenRequest, TokenService, Fetching,
  Attempted, fetching_context, fetching_random, closed, status_reason, retried_status,
  refused_status, decoded, parsed, judged, settled, replied, ask, concluded, policy_of, post_form,
}

-- The HTTP client's errors are not nil.
abbrev pub IsTokenClient : {W : Type 0} → TokenService W → Type 0
IsTokenClient {W} service =
    (r : TokenRequest) (w : W) (e : Error) → (service.post r w).0 ≡ failed e → is_nil e ≡ false

-- an AuthError, or a transport error that looks transient
abbrev pub is_expected : Error → Bool
is_expected e = not (is_nil e) && (as_auth e || is_transient e)

-- a token, or an error of the two kinds
abbrev pub Fetched : String × Error → Type 0
Fetched (token, e) =
    ((is_nil e ≡ true) × (str_eq token "" ≡ false))
    ⊎ ((is_expected e ≡ true) × (str_eq token "" ≡ true))

expected_transient : (e : Error) → is_nil e ≡ false → is_transient e ≡ true → is_expected e ≡ true
expected_transient e real h = elim (Bool-cases (as_auth e)) [
  | inl auth ↦ rw (real, auth) refl
  | inr other ↦ rw (real, other, h) refl
]

module _ {W : Type 0} where
  -- the last error that was kept is none, or one of those
  abbrev Kept : Fetching W → Type 0
  Kept s = (is_nil s.last_http_err ≡ true) ⊎ (is_expected s.last_http_err ≡ true)

  -- before an attempt, after a retry, at the end
  abbrev Before : ℕ → Fetching W → Type 0
  Before n s = Kept s

  abbrev Retried : ℕ → Error → Fetching W → Type 0
  Retried n e s = Kept s × (is_nil e ≡ false)

  abbrev Ended : ℕ → Error → Fetching W → Type 0
  Ended n e s = Kept s × ((is_nil e ≡ false) ⊎ (str_eq s.token "" ≡ false))

  abbrev Judged : Attempted W → Type 0
  Judged ((success, e), s) = Kept s × (str_eq s.token "" ≡ false)
  Judged ((fatal, e), s) = Kept s × (is_nil e ≡ false)
  Judged ((retry, e), s) = Kept s × (is_nil e ≡ false)

module _ {W : Type 0} (service : TokenService W) (cfg : TokenConfig) where
  decoded-Judged :
      (status : ℕ) (r : String × Error) (s : Fetching W)
      → Kept s
      → Judged (decoded service cfg status r s)
  unfolding decoded
  decoded-Judged status (token, e) s h = ground arith

  parsed-Judged :
      (status : ℕ) (r : (String × Error) × Fetching W)
      → Kept r.1
      → Judged (parsed service cfg status r)
  unfolding parsed
  parsed-Judged status ((body, e), s) h = elim (Bool-cases (is_nil e)) [
    | inl ok ↦ rw ok (decoded-Judged status (service.decode_token body) s h)
    | inr bad ↦ rw bad (h, refl)
  ]

  retried_status-Judged :
      (status : ℕ) (r : String × Fetching W) → Judged (retried_status service cfg status r)
  unfolding retried_status as_auth chain_has
  retried_status-Judged status (reason, s) = (inr refl, refl)

  settled-Judged :
      (resp : TokenResponse W) (s : Fetching W) → Kept s → Judged (settled service cfg resp s)
  unfolding settled refused_status status_reason
  settled-Judged resp s h =
      elim (Bool-cases (ltb resp.status_code 200 || leb 300 resp.status_code)) [
        | inl refused ↦ rw refused (h, refl)
        | inr good ↦ rw good (parsed-Judged resp.status_code _ h)
      ]

  judged-Judged :
      (o : Outcome) (resp : TokenResponse W) (s : Fetching W)
      → Kept s
      → Judged (judged service cfg o resp s)
  unfolding judged
  judged-Judged retry resp s h =
      retried_status-Judged resp.status_code (status_reason service cfg resp s)
  judged-Judged success resp s h = settled-Judged resp s h
  judged-Judged fatal resp s h = settled-Judged resp s h

  closed-Judged :
      (resp : TokenResponse W) (r : Attempted W) → Judged r → Judged (closed resp.body r)
  closed-Judged resp ((success, e), s) h = h
  closed-Judged resp ((fatal, e), s) h = h
  closed-Judged resp ((retry, e), s) h = h

  replied-Judged :
      (r : TokenReply W × Fetching W)
      → ((e : Error) → r.0 ≡ failed e → is_nil e ≡ false)
      → Kept r.1
      → Judged (replied service cfg r)
  unfolding replied
  replied-Judged (answered resp, s) real h =
      closed-Judged resp _ (judged-Judged (classify_status resp.status_code) resp s h)
  replied-Judged (failed e, s) real h = elim (Bool-cases (is_cancellation e)) [
    | inl over ↦ rw over (h, real e refl)
    | inr going ↦ elim (Bool-cases (is_transient e)) [
      | inl transient ↦
          rw (going, transient) (inr (expected_transient e (real e refl) transient), real e refl)
      | inr lasting ↦ rw (going, lasting) (h, refl)
    ]
  ]

  module _ (client : IsTokenClient service) where
    ask-Judged :
        (encoded : String) (n : ℕ) (s : Fetching W) → Kept s → Judged (ask service cfg encoded n s)
    unfolding ask
    ask-Judged encoded n s h = elim (Bool-cases (is_nil (service.build cfg.token_url))) [
      | inl built ↦ rw built (replied-Judged _ (client _ s.world) h)
      | inr bad ↦ rw bad (h, refl)
    ]

    called :
        (n : ℕ) (encoded : String) (r : Attempted W)
        → Judged r
        → Settled
            (fetching_context service.ctx)
            (fetching_random service.int63n)
            (policy_of service cfg)
            (ask service cfg encoded)
            Retried
            Ended
            n
            r
    called n encoded ((success, e), s) h = (h.0, inr h.1)
    called n encoded ((fatal, e), s) h = (h.0, inl h.1)
    called n encoded ((retry, e), s) h = h

    ask-Invariant :
        (encoded : String)
        → Invariant
            (fetching_context service.ctx)
            (fetching_random service.int63n)
            (policy_of service cfg)
            (ask service cfg encoded)
            Before
            Retried
            Ended
    ask-Invariant encoded = record {
      observed = λ n s h. h;
      cancelled = λ n s le h e. (h, inl e);
      called = λ n s le h. called n encoded _ (ask-Judged encoded n s h);
      exhausted = λ e s h. (h.0, inl h.1);
      looked = λ n e s h. h;
      waited = λ n e d s h. h;
      drawn = λ n e k s h. h;
      abandoned = λ n e s seen lt h q there. (h.0, inl q);
      resumed = λ n e s h. h.0;
    }

  concluded-Fetched :
      (r : (ℕ × Error) × Fetching W)
      → Kept r.1
      → (is_nil r.0.1 ≡ false) ⊎ (str_eq r.1.token "" ≡ false)
      → Fetched (concluded service cfg r).0
  unfolding concluded as_auth chain_has
  concluded-Fetched ((n, e), s) kept h = elim (Bool-cases (is_nil e)) [
    | inl ok ↦ rw ok (inl (refl, ground (arith, h)))
    | inr bad ↦ elim (Bool-cases (as_auth e)) [
      | inl auth ↦ rw (bad, auth) (inr (rw (bad, auth) refl, refl))
      | inr other ↦ elim (Bool-cases (is_nil s.last_http_err)) [
        | inl none_kept ↦ rw (bad, other, none_kept) (inr (refl, refl))
        | inr some_kept ↦ rw (bad, other, some_kept) (inr (ground (arith, kept), refl))
      ]
    ]
  ]

concluded-run :
    {W : Type 0} (service : TokenService W) (cfg : TokenConfig)
    → IsTokenClient service
    → (encoded : String) (w : W)
    → Fetched
        (concluded service cfg (
          run
            (fetching_context service.ctx)
            (fetching_random service.int63n)
            (policy_of service cfg)
            (ask service cfg encoded)
            (record { world = w; token = ""; last_http_err = nil }))).0
concluded-run service cfg client encoded w =
    let h =
      run-Ends _ _ _ _ (ask-Invariant service cfg client encoded)
        (record { world = w; token = ""; last_http_err = nil }) (inl refl) in
    concluded-Fetched service cfg _ h.0 h.1

-- For an HTTP client whose errors are not nil: a request for a token gives a token that is not
-- empty and no error, or no token and an error that has an AuthError in its chain or is a transport
-- error that looks transient.
pub post_form-result :
    {W : Type 0} (service : TokenService W) (cfg : TokenConfig)
    → IsTokenClient service
    → (form : List (String × String)) (w : W) → Fetched (post_form service cfg form w).0
unfolding post_form as_auth chain_has
post_form-result service cfg client form w = elim (Bool-cases (not cfg.has_client)) [
  | inl missing ↦ rw missing (inr (refl, refl))
  | inr there ↦ elim (Bool-cases (str_eq cfg.token_url "")) [
    | inl missing ↦ rw (there, missing) (inr (refl, refl))
    | inr addressed ↦
        rw (there, addressed) (concluded-run service cfg client (service.encode form) w)
  ]
]
