-- ===== src/Auth/Fetch.antt =====
-- auth/fetch.go, auth/oauth.go, auth/apikey.go, auth/auth.go: the request for a token.
pub mod Result
use cxone_sdk_golang.Prelude.{
  ℕ, Bool, true, false, not, ◌||◌, ◌++◌, String, Option, none, some, List, [], ◌∷◌, ltb, leb, ◌==◌,
  if◌then◌else◌,
}
use cxone_sdk_golang.Prelude.Int.{is_zero}
use cxone_sdk_golang.Prelude.Text.{str_eq, concat}
use cxone_sdk_golang.Context.{Context}
use cxone_sdk_golang.Errors.{
  Error, nil, is_nil, auth_error, configuration_error, as_auth, is_cancellation,
}
use cxone_sdk_golang.Errors.Message.{message}
use cxone_sdk_golang.Retry.{
  Policy, default_policy, Outcome, success, retry, fatal, classify_status, run,
}
use cxone_sdk_golang.Retry.Transient.{is_transient}
use cxone_sdk_golang.Auth.Cache.{Fetcher}

-- auth.Config
pub record TokenConfig : Type 0 where
  pub has_client : Bool
  pub token_url : String
  pub user_agent : String
  pub policy : Policy

pub record TokenRequest : Type 0 where
  pub url : String
  pub header : List (String × String)
  pub body : String

-- the body of a response: what reads so many bytes of it at most, and what closes it
pub record Body (W : Type 0) : Type 0 where
  pub read : ℕ → W → (String × Error) × W
  pub close : W → W

pub record TokenResponse (W : Type 0) : Type 0 where
  pub status : String
  pub status_code : ℕ
  pub body : Body W

pub data TokenReply (W : Type 0) : Type 0 where
  answered : TokenResponse W → TokenReply W
  failed : Error → TokenReply W

-- What postForm calls and does not implement: the context, the random source, the constructor of
-- HTTP requests, the HTTP client, the decoders of JSON and redact.String. `decode_token` yields
-- `access_token`, and `decode_error` the fields `error` and `error_description`.
pub record TokenService (W : Type 0) : Type 0 where
  pub ctx : Context W
  pub int63n : ℕ → W → ℕ × W
  pub encode : List (String × String) → String
  pub build : String → Error
  pub post : TokenRequest → W → TokenReply W × W
  pub decode_token : String → String × Error
  pub decode_error : String → (String × String) × Error
  pub trim_space : String → String
  pub redact : String → String

-- The world, and the variables `token` and `lastHTTPErr`.
pub record Fetching (W : Type 0) : Type 0 where
  pub world : W
  pub token : String
  pub last_http_err : Error

abbrev pub Attempted : Type 0 → Type 0
Attempted W = (Outcome × Error) × Fetching W

module _ {W : Type 0} where
  abbrev pub at_world : {A : Type 0} → A × W → Fetching W → A × Fetching W
  at_world (a, w) s = (a, record s { world = w })

  abbrev pub fetching_context : Context W → Context (Fetching W)
  fetching_context ctx = record {
    err = λ s. at_world (ctx.err s.world) s;
    wait = λ d s. at_world (ctx.wait d s.world) s;
  }

  abbrev pub fetching_random : (ℕ → W → ℕ × W) → ℕ → Fetching W → ℕ × Fetching W
  fetching_random int63n n s = at_world (int63n n s.world) s

  -- defer resp.Body.Close()
  abbrev pub closed : Body W → Attempted W → Attempted W
  closed b (r, s) = (r, record s { world = b.close s.world })

module _ {W : Type 0} (service : TokenService W) (cfg : TokenConfig) where
  -- statusReason, from what reading the body gave
  unfoldable pub reason_of : String → String × Error → String
  reason_of status (body, e) =
      if not (is_nil e) || str_eq body ""
      then status
      else let ((code, description), bad) = service.decode_error body in
        if is_nil bad
        then (if str_eq code ""
            then concat status (concat ": " (service.redact (service.trim_space body)))
            else if str_eq description ""
            then code
            else concat code (concat ": " description))
        else concat status (concat ": " (service.redact (service.trim_space body)))

  -- statusReason
  unfoldable pub status_reason : TokenResponse W → Fetching W → String × Fetching W
  unfolding reason_of
  status_reason resp s =
      let (r, s') = at_world (resp.body.read 4096 s.world) s in (reason_of resp.status r, s')

  -- a status that asks for a retry
  unfoldable pub retried_status : ℕ → String × Fetching W → Attempted W
  retried_status status (reason, s) =
      let e = auth_error reason status nil in ((retry, e), record s { last_http_err = e })

  -- a status that is neither 2xx nor one to retry
  unfoldable pub refused_status : ℕ → String × Fetching W → Attempted W
  refused_status status (reason, s) = ((fatal, auth_error reason status nil), s)

  -- the decoded token
  unfoldable pub decoded : ℕ → String × Error → Fetching W → Attempted W
  decoded status (token, e) s =
      if is_nil e
      then if str_eq token ""
        then ((fatal, auth_error "token response missing access_token" status nil), s)
        else ((success, nil), record s { token = token })
      else (
        (
          fatal,
          auth_error (concat "decode token response: " (service.redact (message e))) status e,
        ),
        s,
      )

  -- the body of a 2xx response
  unfoldable pub parsed : ℕ → (String × Error) × Fetching W → Attempted W
  unfolding decoded
  parsed status ((body, e), s) =
      if is_nil e then decoded status (service.decode_token body) s else (
        (
          fatal,
          auth_error (concat "read token response body: " (service.redact (message e))) status e,
        ),
        s,
      )

  -- a status that is not one to retry
  unfoldable pub settled : TokenResponse W → Fetching W → Attempted W
  unfolding status_reason refused_status parsed
  settled resp s =
      if ltb resp.status_code 200 || leb 300 resp.status_code
      then refused_status resp.status_code (status_reason resp s)
      else parsed resp.status_code (at_world (resp.body.read 1_048_576 s.world) s)

  -- what is made of a response, by the class of its status
  unfoldable pub judged : Outcome → TokenResponse W → Fetching W → Attempted W
  unfolding retried_status status_reason settled
  judged retry resp s = retried_status resp.status_code (status_reason resp s)
  judged success resp s = settled resp s
  judged fatal resp s = settled resp s

  -- what is made of the client's reply
  unfoldable pub replied : TokenReply W × Fetching W → Attempted W
  unfolding judged
  replied (failed e, s) =
      if is_cancellation e
      then ((fatal, e), s)
      else if is_transient e
      then ((retry, e), record s { last_http_err = e })
      else ((fatal, auth_error (concat "transport: " (service.redact (message e))) 0 e), s)
  replied (answered resp, s) = closed resp.body (judged (classify_status resp.status_code) resp s)

  -- the headers of the request
  abbrev pub token_header : List (String × String)
  token_header =
      ("Content-Type", "application/x-www-form-urlencoded")
      ∷ ("Accept", "application/json")
      ∷ (if str_eq cfg.user_agent "" then [] else ("User-Agent", cfg.user_agent) ∷ [])

  -- the closure that postForm hands to retry.Do
  unfoldable pub ask : String → ℕ → Fetching W → Attempted W
  unfolding replied
  ask encoded attempt s =
      let bad = service.build cfg.token_url in
      if is_nil bad
      then replied (
          at_world
            (service.post (record { url = cfg.token_url; header = token_header; body = encoded })
              s.world)
            s)
      else (
        (fatal, auth_error (concat "build token request: " (service.redact (message bad))) 0 bad),
        s,
      )

  -- the end of postForm
  unfoldable pub concluded : (ℕ × Error) × Fetching W → (String × Error) × W
  concluded ((n, e), s) =
      if is_nil e
      then ((s.token, nil), s.world)
      else if as_auth e
      then (("", e), s.world)
      else if not (is_nil s.last_http_err)
      then (("", s.last_http_err), s.world)
      else (
        ("", auth_error (concat "token fetch failed: " (service.redact (message e))) 0 e),
        s.world,
      )

  abbrev pub policy_of : Policy
  policy_of = if is_zero cfg.policy.max_attempts then default_policy else cfg.policy

  -- postForm
  unfoldable pub post_form : List (String × String) → W → (String × Error) × W
  unfolding ask concluded
  post_form form w =
      if not cfg.has_client
      then (("", auth_error "auth: HTTPClient is nil" 0 nil), w)
      else if str_eq cfg.token_url ""
      then (("", auth_error "auth: TokenURL is empty" 0 nil), w)
      else concluded (
          run (fetching_context service.ctx) (fetching_random service.int63n) policy_of
            (ask (service.encode form)) (record { world = w; token = ""; last_http_err = nil }))

  -- oauthFetcher
  abbrev pub oauth_fetcher : String → String → Fetcher W
  oauth_fetcher client_id client_secret = record {
    fetch = post_form (
        ("grant_type", "client_credentials")
        ∷ ("client_id", client_id)
        ∷ ("client_secret", client_secret)
        ∷ []);
    close = λ w. w;
  }

  -- apiKeyFetcher
  abbrev pub api_key_fetcher : String → Fetcher W
  api_key_fetcher api_key = record {
    fetch = post_form (
        ("grant_type", "refresh_token")
        ∷ ("client_id", "ast-app")
        ∷ ("refresh_token", api_key)
        ∷ []);
    close = λ w. w;
  }

-- the tests that the two constructors share
abbrev pub checked_config : TokenConfig → Error
checked_config cfg =
    if not cfg.has_client
    then configuration_error "auth.HTTPClient" "is required"
    else if str_eq cfg.token_url ""
    then configuration_error "auth.TokenURL" "is required"
    else nil

-- the error of NewOAuthClientCredentials
unfoldable pub check_oauth : TokenConfig → String → String → Error
check_oauth cfg client_id client_secret =
    if str_eq client_id ""
    then configuration_error "OAuth.ClientID" "is required"
    else if str_eq client_secret ""
    then configuration_error "OAuth.ClientSecret" "is required"
    else checked_config cfg

-- the error of NewAPIKey
unfoldable pub check_api_key : TokenConfig → String → Error
check_api_key cfg api_key =
    if str_eq api_key "" then configuration_error "APIKey" "is required" else checked_config cfg
