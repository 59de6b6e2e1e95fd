-- ===== src/Region/Valid.antt =====
-- region.go: a description of the regions that are accepted.
use mathlib.Core.Bool.{false≢true}
use cxone_sdk_golang.Prelude.{
  sym, subst, if_false, ◌≡◌, ◌↔◌, refl, ◌⊎◌, inl, inr, Bool, true, false, not, ◌&&◌, String, List,
  [], ◌∷◌, arith, Bool-cases, eq_iff, ◌∙◌,
}
use cxone_sdk_golang.Prelude.Text.{str_eq, concat, contains, contains_any, to_lower}
use cxone_sdk_golang.Errors.{Error, is_nil}
use cxone_sdk_golang.Region.{
  Region, check_hosts, validate, or_refused, with_scheme, no_region, refusal,
}

-- a bare name of a host: not empty, with no white space, no path, no query and no fragment
pub record IsBare (h : String) : Type 0 where
  pub there : str_eq h "" ≡ false
  pub unspaced : contains_any h " \t\r\n" ≡ false
  pub schemeless : contains h "://" ≡ false
  pub pathless : contains_any h "/?#" ≡ false

pub record IsValid (r : Region) : Type 0 where
  pub auth : IsBare r.auth_host
  pub api : IsBare r.api_host
  pub scheme : (r.scheme ≡ "") ⊎ (r.scheme ≡ "http") ⊎ (r.scheme ≡ "https")

-- the three tests of a host
abbrev Tested : String → Type 0
Tested h =
    (contains_any h " \t\r\n" ≡ false) × (contains h "://" ≡ false) × (contains_any h "/?#" ≡ false)

check_hosts-Tested :
    (field h : String) (hs : List (String × String))
    → is_nil (check_hosts ((field, h) ∷ hs)) ≡ true
    → Tested h × (is_nil (check_hosts hs) ≡ true)
unfolding check_hosts
check_hosts-Tested field h hs q = ground arith

Tested-check_hosts :
    (field h : String) (hs : List (String × String))
    → Tested h
    → is_nil (check_hosts hs) ≡ true
    → is_nil (check_hosts ((field, h) ∷ hs)) ≡ true
unfolding check_hosts
Tested-check_hosts field h hs (spaces, scheme, path) q = rw (spaces, scheme, path) q

-- the test of Validate for a scheme to refuse
abbrev is_odd : String → Bool
is_odd s = not (str_eq s "") && (not (str_eq s "http") && not (str_eq s "https"))

scheme_of_even : (s : String) → is_odd s ≡ false → (s ≡ "") ⊎ (s ≡ "http") ⊎ (s ≡ "https")
scheme_of_even s h = ground (arith, eq_iff s "", eq_iff s "http", eq_iff s "https")

even_of_scheme : (s : String) → (s ≡ "") ⊎ (s ≡ "http") ⊎ (s ≡ "https") → is_odd s ≡ false
even_of_scheme s (inl q) = rw q refl
even_of_scheme s (inr (inl q)) = rw q refl
even_of_scheme s (inr (inr q)) = rw q refl

abbrev hosts_of : Region → List (String × String)
hosts_of r = ("AuthHost", r.auth_host) ∷ ("APIHost", r.api_host) ∷ []

validate_parts :
    (r : Region)
    → is_nil (validate r) ≡ true
    → (str_eq r.auth_host "" ≡ false)
      × (str_eq r.api_host "" ≡ false)
      × (is_odd r.scheme ≡ false)
      × (is_nil (check_hosts (hosts_of r)) ≡ true)
unfolding validate
validate_parts r q = elim (Bool-cases (str_eq r.auth_host "")) [
  | inl missing ↦ absurd (false≢true (rw missing at q))
  | inr auth ↦ elim (Bool-cases (str_eq r.api_host "")) [
    | inl missing ↦ absurd (false≢true (rw (auth, missing) at q))
    | inr api ↦ elim (Bool-cases (is_odd r.scheme)) [
      | inl odd ↦ absurd (false≢true (rw (auth, api, odd) at q))
      | inr even ↦ (auth, api, even, rw (auth, api, even) at q)
    ]
  ]
]

validate-accepted : (r : Region) → is_nil (validate r) ≡ true → IsValid r
validate-accepted r q =
    let (auth, api, even, hosts) = validate_parts r q in
    let (auth_tests, rest) =
      check_hosts-Tested "AuthHost" r.auth_host (("APIHost", r.api_host) ∷ []) hosts in
    let (api_tests, none_left) = check_hosts-Tested "APIHost" r.api_host [] rest in
    record {
      auth = record {
        there = auth;
        unspaced = auth_tests.0;
        schemeless = auth_tests.1;
        pathless = auth_tests.2;
      };
      api = record {
        there = api;
        unspaced = api_tests.0;
        schemeless = api_tests.1;
        pathless = api_tests.2;
      };
      scheme = scheme_of_even r.scheme even;
    }

validate-accepts : (r : Region) → IsValid r → is_nil (validate r) ≡ true
unfolding validate check_hosts
validate-accepts r v =
    rw (v.auth.there, v.api.there, even_of_scheme r.scheme v.scheme)
      (Tested-check_hosts "AuthHost" r.auth_host (("APIHost", r.api_host) ∷ [])
        (v.auth.unspaced, v.auth.schemeless, v.auth.pathless)
        (Tested-check_hosts "APIHost" r.api_host []
          (v.api.unspaced, v.api.schemeless, v.api.pathless) refl))

-- Validate returns no error for exactly the regions with two bare hosts and a scheme that is
-- missing, http or https.
pub validate-IsValid : (r : Region) → (is_nil (validate r) ≡ true) ↔ IsValid r
validate-IsValid r = (validate-accepted r, validate-accepts r)

or_refused-accepted :
    (r : Region) (e : Error)
    → is_nil (or_refused r e).1 ≡ true
    → (is_nil e ≡ true) × ((or_refused r e).0 ≡ r)
or_refused-accepted r e h = elim (Bool-cases (is_nil e)) [
  | inl ok ↦ (ok, rw ok refl)
  | inr bad ↦ absurd (false≢true (sym bad ∙ rw bad at h))
]

-- WithScheme returns a region without an error only if that is valid, with the two hosts of the
-- given one and the given scheme in small letters, which is http or https.
pub with_scheme-IsValid :
    (r : Region) (s : String)
    → is_nil (with_scheme r s).1 ≡ true
    → IsValid (with_scheme r s).0
      × ((with_scheme r s).0 ≡ record r { scheme = to_lower s })
      × ((to_lower s ≡ "http") ⊎ (to_lower s ≡ "https"))
unfolding with_scheme
with_scheme-IsValid r s h =
    elim (Bool-cases (not (str_eq (to_lower s) "http") && not (str_eq (to_lower s) "https"))) [
      | inl odd ↦ absurd (false≢true (rw odd at h))
      | inr even ↦
          let r' : Region = record r { scheme = to_lower s } in
          let branch =
            if_false {A = Region × Error}
              (not (str_eq (to_lower s) "http") && not (str_eq (to_lower s) "https"))
              (no_region, refusal (concat "scheme must be http or https, got " (to_lower s)))
              (or_refused r' (validate r')) even in
          let (ok, same) =
            or_refused-accepted r' (validate r')
              (subst {A = Region × Error} (λ p. is_nil p.1 ≡ true) branch h) in
          subst {A = Region × Error}
            (λ p. IsValid p.0 × (p.0 ≡ r') × ((to_lower s ≡ "http") ⊎ (to_lower s ≡ "https")))
            (sym branch)
            (
              subst IsValid (sym same) (validate-accepted r' ok),
              same,
              ground (arith, eq_iff (to_lower s) "http", eq_iff (to_lower s) "https"),
            )
    ]
