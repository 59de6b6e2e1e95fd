-- ===== src/Errors/Chain.antt =====
-- What the walk along the causes of an error finds.
use cxone_sdk_golang.Prelude.{◌≡◌, refl, Bool, false, ◌||◌, arith}
use cxone_sdk_golang.Errors.{
  Error, nil, sentinel, endpoint_error, auth_error, communication_error, response_error, scan_error,
  configuration_error, report_error, op_error, dns_error, url_error, wrapped, opaque, unwrap,
  chain_has,
}

-- A walk finds what it looks for in the error itself or along its cause, and nothing in `nil`.
pub chain_has-unwrap :
    (test : Error → Bool) (e : Error)
    → test nil ≡ false
    → chain_has test e ≡ (test e || chain_has test (unwrap e))
unfolding chain_has unwrap
chain_has-unwrap test nil h = ground arith
chain_has-unwrap test (sentinel s) h = ground arith
chain_has-unwrap test (configuration_error f r) h = ground arith
chain_has-unwrap test (opaque t) h = ground arith
chain_has-unwrap test (endpoint_error r c) h = refl
chain_has-unwrap test (auth_error r s c) h = refl
chain_has-unwrap test (communication_error i c) h = refl
chain_has-unwrap test (response_error i c) h = refl
chain_has-unwrap test (scan_error i r c) h = refl
chain_has-unwrap test (report_error i r c) h = refl
chain_has-unwrap test (op_error t c) h = refl
chain_has-unwrap test (dns_error t c) h = refl
chain_has-unwrap test (url_error t to c) h = refl
chain_has-unwrap test (wrapped t c) h = refl
