-- ===== src/Region.antt =====
-- region.go: the hosts of a region, and which of them are accepted.
pub mod Valid
mod Examples
use cxone_sdk_golang.Prelude.{Bool, not, ◌&&◌, String, List, [], ◌∷◌, if◌then◌else◌}
use cxone_sdk_golang.Prelude.Text.{str_eq, concat, contains, contains_any, to_lower}
use cxone_sdk_golang.Errors.{Error, nil, is_nil, endpoint_error}

pub record Region : Type 0 where
  pub name : String
  pub auth_host : String
  pub api_host : String
  pub scheme : String

abbrev pub refusal : String → Error
refusal reason = endpoint_error reason nil

abbrev pub field_refusal : String → String → String → Error
field_refusal field what value = refusal (concat "region: " (concat field (concat what value)))

-- the loop over the two hosts
unfoldable pub check_hosts : List (String × String) → Error
check_hosts [] = nil
check_hosts ((field, value) ∷ hs) =
    if contains_any value " \t\r\n"
    then field_refusal field " contains whitespace: " value
    else if contains value "://"
    then field_refusal field " must be a bare hostname (no scheme), got " value
    else if contains_any value "/?#"
    then field_refusal field " must not contain a path or query, got " value
    else check_hosts hs

-- Validate
unfoldable pub validate : Region → Error
unfolding check_hosts
validate r =
    if str_eq r.auth_host ""
    then refusal "region: AuthHost is required"
    else if str_eq r.api_host ""
    then refusal "region: APIHost is required"
    else if not (str_eq r.scheme "")
        && (not (str_eq r.scheme "http") && not (str_eq r.scheme "https"))
    then refusal (concat "region: Scheme must be http or https, got " r.scheme)
    else check_hosts (("AuthHost", r.auth_host) ∷ ("APIHost", r.api_host) ∷ [])

abbrev pub no_region : Region
no_region = record { name = ""; auth_host = ""; api_host = ""; scheme = "" }

abbrev pub or_refused : Region → Error → Region × Error
or_refused r e = if is_nil e then (r, nil) else (no_region, e)

-- NewCustomRegion
unfoldable pub new_custom_region : String → String → Region × Error
unfolding validate
new_custom_region auth_host api_host =
    let r : Region = record {
      name = "custom";
      auth_host = auth_host;
      api_host = api_host;
      scheme = "https";
    } in
    or_refused r (validate r)

-- WithScheme
unfoldable pub with_scheme : Region → String → Region × Error
unfolding validate
with_scheme r given =
    let scheme = to_lower given in
    if not (str_eq scheme "http") && not (str_eq scheme "https")
    then (no_region, refusal (concat "scheme must be http or https, got " scheme))
    else or_refused (record r { scheme = scheme }) (validate (record r { scheme = scheme }))

-- Region.scheme
abbrev pub scheme_of : Region → String
scheme_of r = if str_eq r.scheme "" then "https" else r.scheme
