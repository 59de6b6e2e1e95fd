-- ===== src/Errors/Message.antt =====
-- The texts of errors: the methods `Error()` of cxerrors/errors.go.
use cxone_sdk_golang.Prelude.{ℕ, String, [], ◌∷◌, ◌==◌, if◌then◌else◌}
use cxone_sdk_golang.Prelude.Text.{decimal, quoted, concat_all, str_eq}
use cxone_sdk_golang.Errors.{
  Error, Sentinel, CommInfo, ResponseInfo, is_nil, nil, sentinel, endpoint_error, auth_error,
  communication_error, response_error, scan_error, configuration_error, report_error, op_error,
  dns_error, url_error, wrapped, opaque,
}

abbrev pub sentinel_message : Sentinel → String
sentinel_message Sentinel.canceled = "context canceled"
sentinel_message Sentinel.deadline_exceeded = "context deadline exceeded"
sentinel_message Sentinel.auth = "cxone: auth"
sentinel_message Sentinel.communication = "cxone: communication"
sentinel_message Sentinel.response = "cxone: response"

-- `shown` is the text of the cause
unfoldable pub endpoint_message : String → Error → String → String
endpoint_message reason cause shown =
    let plain = concat_all ("cxone: endpoint configuration invalid: " ∷ reason ∷ []) in
    if is_nil cause then plain else concat_all (plain ∷ ": " ∷ shown ∷ [])

unfoldable pub auth_message : String → ℕ → Error → String → String
auth_message reason status cause shown =
    if status == 0
    then (if is_nil cause
        then concat_all ("cxone: authentication failed: " ∷ reason ∷ [])
        else concat_all ("cxone: authentication failed: " ∷ reason ∷ ": " ∷ shown ∷ []))
    else concat_all ("cxone: authentication failed (status " ∷ decimal status ∷ "): " ∷ reason ∷ [])

-- %v of a nil cause is <nil>
abbrev cause_text : Error → String → String
cause_text cause shown = if is_nil cause then "<nil>" else shown

unfoldable pub communication_message : CommInfo → Error → String → String
communication_message i cause shown =
    let head = concat_all (
      "cxone: "
      ∷ i.method
      ∷ " "
      ∷ i.url
      ∷ " failed after "
      ∷ decimal i.attempt
      ∷ " attempt(s)"
      ∷ []) in
    if i.status_code == 0
    then concat_all
        (head ∷ " (correlationId=" ∷ i.correlation_id ∷ "): " ∷ cause_text cause shown ∷ [])
    else concat_all (
        head
        ∷ " with status "
        ∷ decimal i.status_code
        ∷ " (correlationId="
        ∷ i.correlation_id
        ∷ ")"
        ∷ [])

unfoldable pub response_message : ResponseInfo → String
response_message i = concat_all (
    "cxone: "
    ∷ i.method
    ∷ " "
    ∷ i.url
    ∷ " returned an unexpected response (status "
    ∷ decimal i.status_code
    ∷ ", correlationId="
    ∷ i.correlation_id
    ∷ "): "
    ∷ i.reason
    ∷ [])

unfoldable pub scan_message : String → String → String
scan_message scan_id reason =
    if str_eq scan_id ""
    then concat_all ("cxone: scan failed: " ∷ reason ∷ [])
    else concat_all ("cxone: scan " ∷ scan_id ∷ " failed: " ∷ reason ∷ [])

unfoldable pub configuration_message : String → String → String
configuration_message field reason =
    if str_eq field ""
    then concat_all ("cxone: invalid configuration: " ∷ reason ∷ [])
    else concat_all ("cxone: invalid configuration for " ∷ quoted field ∷ ": " ∷ reason ∷ [])

unfoldable pub report_message : String → String → String
report_message report_id reason =
    if str_eq report_id ""
    then concat_all ("cxone: report failed: " ∷ reason ∷ [])
    else concat_all ("cxone: report " ∷ report_id ∷ " failed: " ∷ reason ∷ [])

-- err.Error()
unfoldable pub message : Error → String
unfolding endpoint_message auth_message communication_message response_message scan_message
    configuration_message report_message decimal quoted concat_all
message nil = ""
message (sentinel s) = sentinel_message s
message (endpoint_error r c) = endpoint_message r c (message c)
message (auth_error r s c) = auth_message r s c (message c)
message (communication_error i c) = communication_message i c (message c)
message (response_error i c) = response_message i
message (scan_error i r c) = scan_message i r
message (configuration_error f r) = configuration_message f r
message (report_error i r c) = report_message i r
message (op_error t c) = t
message (dns_error t c) = t
message (url_error t to c) = t
message (wrapped t c) = t
message (opaque t) = t
