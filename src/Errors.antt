-- ===== src/Errors.antt =====
-- cxerrors/errors.go, and the values of Go's `error` that the program meets.
pub mod Message
pub mod Chain
use cxone_sdk_golang.Prelude.{ℕ, Bool, true, false, String, ◌||◌, if◌then◌else◌}

-- errors that the program knows by identity
pub data Sentinel : Type 0 where
  canceled deadline_exceeded : Sentinel
  auth communication response : Sentinel

-- the diagnostic fields of a CommunicationError
pub record CommInfo : Type 0 where
  pub method : String
  pub url : String
  pub status_code : ℕ
  pub attempt : ℕ
  pub correlation_id : String

-- the diagnostic fields of a ResponseError
pub record ResponseInfo : Type 0 where
  pub method : String
  pub url : String
  pub status_code : ℕ
  pub correlation_id : String
  pub reason : String

-- A value of Go's interface `error`, `nil` included. The seven types of the catalog have their
-- fields, the cause last. Errors of the standard library carry the text that their `Error()`
-- returns: `op_error` is *net.OpError, `dns_error` *net.DNSError, `url_error` *url.Error with what
-- its `Timeout()` says, `wrapped` any error with an `Unwrap`, and `opaque` one with none.
pub data Error : Type 0 where
  nil : Error
  sentinel : Sentinel → Error
  endpoint_error : String → Error → Error
  auth_error : String → ℕ → Error → Error
  communication_error : CommInfo → Error → Error
  response_error : ResponseInfo → Error → Error
  scan_error : String → String → Error → Error
  configuration_error : String → String → Error
  report_error : String → String → Error → Error
  op_error : String → Error → Error
  dns_error : String → Error → Error
  url_error : String → Bool → Error → Error
  wrapped : String → Error → Error
  opaque : String → Error

-- err == nil
abbrev pub is_nil : Error → Bool
is_nil nil = true
is_nil _ = false

unfoldable pub unwrap : Error → Error
unwrap nil = nil
unwrap (sentinel s) = nil
unwrap (endpoint_error r c) = c
unwrap (auth_error r s c) = c
unwrap (communication_error i c) = c
unwrap (response_error i c) = c
unwrap (scan_error i r c) = c
unwrap (configuration_error f r) = nil
unwrap (report_error i r c) = c
unwrap (op_error t c) = c
unwrap (dns_error t c) = c
unwrap (url_error t to c) = c
unwrap (wrapped t c) = c
unwrap (opaque t) = nil

abbrev pub same_sentinel : Sentinel → Sentinel → Bool
same_sentinel canceled canceled = true
same_sentinel deadline_exceeded deadline_exceeded = true
same_sentinel auth auth = true
same_sentinel communication communication = true
same_sentinel response response = true
same_sentinel _ _ = false

-- the methods Is of the catalog, and identity
abbrev pub matches : Error → Sentinel → Bool
matches (sentinel s) target = same_sentinel s target
matches (auth_error r s c) target = same_sentinel auth target
matches (communication_error i c) target = same_sentinel communication target
matches (response_error i c) target = same_sentinel response target
matches _ target = false

-- the loop of the standard library over the chain of an error and its causes
module _ (test : Error → Bool) where
  unfoldable pub chain_has : Error → Bool
  chain_has nil = false
  chain_has (sentinel s) = test (sentinel s)
  chain_has (endpoint_error r c) = test (endpoint_error r c) || chain_has c
  chain_has (auth_error r s c) = test (auth_error r s c) || chain_has c
  chain_has (communication_error i c) = test (communication_error i c) || chain_has c
  chain_has (response_error i c) = test (response_error i c) || chain_has c
  chain_has (scan_error i r c) = test (scan_error i r c) || chain_has c
  chain_has (configuration_error f r) = test (configuration_error f r)
  chain_has (report_error i r c) = test (report_error i r c) || chain_has c
  chain_has (op_error t c) = test (op_error t c) || chain_has c
  chain_has (dns_error t c) = test (dns_error t c) || chain_has c
  chain_has (url_error t to c) = test (url_error t to c) || chain_has c
  chain_has (wrapped t c) = test (wrapped t c) || chain_has c
  chain_has (opaque t) = test (opaque t)

-- errors.Is(err, target)
unfoldable pub errors_is : Error → Sentinel → Bool
errors_is e target = chain_has (λ x. matches x target) e

abbrev pub is_auth_error : Error → Bool
is_auth_error (auth_error r s c) = true
is_auth_error _ = false

abbrev pub is_communication_error : Error → Bool
is_communication_error (communication_error i c) = true
is_communication_error _ = false

abbrev pub is_op_error : Error → Bool
is_op_error (op_error t c) = true
is_op_error _ = false

abbrev pub is_dns_error : Error → Bool
is_dns_error (dns_error t c) = true
is_dns_error _ = false

-- errors.As(err, &e) for *AuthError, *CommunicationError, *net.OpError, *net.DNSError
unfoldable pub as_auth : Error → Bool
as_auth e = chain_has is_auth_error e

unfoldable pub as_communication : Error → Bool
as_communication e = chain_has is_communication_error e

unfoldable pub as_op : Error → Bool
as_op e = chain_has is_op_error e

unfoldable pub as_dns : Error → Bool
as_dns e = chain_has is_dns_error e

-- errors.Is(err, context.Canceled) || errors.Is(err, context.DeadlineExceeded)
abbrev pub is_cancellation : Error → Bool
is_cancellation e = errors_is e canceled || errors_is e deadline_exceeded
