-- ===== src/Retry/Transient.antt =====
-- internal/retry/retry.go: IsTransientNetworkError. A url.Error never is its own cause.
use cxone_sdk_golang.Prelude.{
  ◌≡◌, refl, Bool, true, false, not, ◌||◌, String, List, [], ◌∷◌, arith, any, if◌then◌else◌,
}
use cxone_sdk_golang.Prelude.Text.{contains, to_lower}
use cxone_sdk_golang.Errors.{
  Error, nil, sentinel, endpoint_error, auth_error, communication_error, response_error, scan_error,
  configuration_error, report_error, op_error, dns_error, url_error, wrapped, opaque, is_nil,
  chain_has, errors_is, as_op, as_dns, is_cancellation,
}
use cxone_sdk_golang.Errors.Message.{message}

abbrev needles : List String
needles =
    "connection reset" ∷ "connection refused" ∷ "broken pipe" ∷ "i/o timeout" ∷ "timeout"
    ∷ "no such host" ∷ "proxy" ∷ "eof" ∷ []

-- the fallback on the text of the error
unfoldable pub looks_transient : Error → Bool
unfolding message contains to_lower
looks_transient e = let msg = to_lower (message e) in any (contains msg) needles

-- the tests before the search for a url.Error; `rest` is what follows them
unfoldable pub screened : Error → Bool → Bool
screened e rest =
    if is_nil e
    then false
    else if is_cancellation e
    then false
    else if as_op e
    then true
    else if as_dns e
    then true
    else rest

-- From the first url.Error along `node` on; `root` is the error that was asked about.
unfoldable pub unwrapped_verdict : Error → Error → Bool
unfolding screened
unwrapped_verdict root (url_error t timeout c) =
    if is_nil c
    then (if timeout then true else looks_transient root)
    else screened c (unwrapped_verdict c c)
unwrapped_verdict root (endpoint_error r c) = unwrapped_verdict root c
unwrapped_verdict root (auth_error r s c) = unwrapped_verdict root c
unwrapped_verdict root (communication_error i c) = unwrapped_verdict root c
unwrapped_verdict root (response_error i c) = unwrapped_verdict root c
unwrapped_verdict root (scan_error i r c) = unwrapped_verdict root c
unwrapped_verdict root (report_error i r c) = unwrapped_verdict root c
unwrapped_verdict root (op_error t c) = unwrapped_verdict root c
unwrapped_verdict root (dns_error t c) = unwrapped_verdict root c
unwrapped_verdict root (wrapped t c) = unwrapped_verdict root c
unwrapped_verdict root nil = looks_transient root
unwrapped_verdict root (sentinel s) = looks_transient root
unwrapped_verdict root (configuration_error f r) = looks_transient root
unwrapped_verdict root (opaque t) = looks_transient root

-- IsTransientNetworkError
unfoldable pub is_transient : Error → Bool
unfolding unwrapped_verdict
is_transient e = screened e (unwrapped_verdict e e)

-- What net/http wraps is judged as what it wraps: a url.Error around an error is transient exactly
-- when that error is, whatever the text and the timeout flag of the url.Error.
pub is_transient-url_error :
    (t : String) (timeout : Bool) (e : Error)
    → is_nil e ≡ false
    → is_transient (url_error t timeout e) ≡ is_transient e
unfolding is_transient errors_is as_op as_dns chain_has
is_transient-url_error t timeout e h = ground arith

is_nil_of_network : (e : Error) → (as_op e || as_dns e) ≡ true → is_nil e ≡ false
unfolding as_op as_dns chain_has
is_nil_of_network nil h = ground arith
is_nil_of_network _ h = refl

-- A connection failure or a failed name lookup, anywhere along the causes, is transient exactly
-- when no cancellation or passed deadline stands along them.
pub is_transient-network :
    (e : Error) → (as_op e || as_dns e) ≡ true → is_transient e ≡ not (is_cancellation e)
unfolding is_transient
is_transient-network e h = ground (arith, is_nil_of_network e h)
