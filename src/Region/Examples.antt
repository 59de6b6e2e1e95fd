-- ===== src/Region/Examples.antt =====
-- region.go: the theorems at concrete inputs.
use cxone_sdk_golang.Prelude.{◌≡◌, ◌↔◌, ◌⊎◌, refl, true}
use cxone_sdk_golang.Prelude.Text.{
  contains, contains_any, has_char, has_prefix, to_lower, to_lower_char, translate,
}
use cxone_sdk_golang.Errors.{is_nil}
use cxone_sdk_golang.Region.{Region, check_hosts, validate, with_scheme}
use cxone_sdk_golang.Region.Valid.{IsValid, validate-IsValid, with_scheme-IsValid}

abbrev custom : Region
custom = record {
  name = "custom";
  auth_host = "iam.example.net";
  api_host = "ast.example.net";
  scheme = "https";
}

validate-IsValid_example : (is_nil (validate custom) ≡ true) ↔ IsValid custom
validate-IsValid_example = validate-IsValid custom

with_scheme-IsValid_example :
    IsValid (with_scheme custom "HTTP").0
    × ((with_scheme custom "HTTP").0 ≡ record custom { scheme = to_lower "HTTP" })
    × ((to_lower "HTTP" ≡ "http") ⊎ (to_lower "HTTP" ≡ "https"))
unfolding with_scheme check_hosts contains contains_any has_char has_prefix to_lower to_lower_char
    translate
with_scheme-IsValid_example = with_scheme-IsValid custom "HTTP" refl
