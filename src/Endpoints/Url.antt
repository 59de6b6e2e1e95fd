-- ===== src/Endpoints/Url.antt =====
-- JoinURL of internal/transport/jsonexec.go.
use Prim.Native.Char.{Char, code}
use Prim.Native.String.append
use Prim.Native.String.compare
use cxone_sdk_golang.Prelude.{
  ◌≡◌, refl, sym, ap, subst, ◌∙◌, Bool, true, false, ◌==◌, String, if◌then◌else◌,
}
use cxone_sdk_golang.Prelude.Text.{str_eq, concat}

-- strings.HasSuffix(s, "/")
unfoldable pub ends_in_slash : String → Bool
ends_in_slash String.[] = false
ends_in_slash (String.◌∷◌ c s) = if str_eq s "" then code c == b'/' else ends_in_slash s

-- strings.TrimLeft(s, "/")
unfoldable pub trim_left_slashes : String → String
trim_left_slashes String.[] = String.[]
trim_left_slashes (String.◌∷◌ c s) = if code c == b'/' then trim_left_slashes s else String.◌∷◌ c s

-- JoinURL
unfoldable pub join_url : String → String → String
unfolding ends_in_slash trim_left_slashes
join_url base path =
    if str_eq path ""
    then base
    else concat (if ends_in_slash base then base else concat base "/") (trim_left_slashes path)

cons-is_full : (c : Char) (s : String) → str_eq (String.◌∷◌ c s) "" ≡ false
cons-is_full c s = rw (compare.cons-nil c s) refl

ends_in_slash-concat : (base : String) → ends_in_slash (concat base "/") ≡ true
unfolding ends_in_slash
ends_in_slash-concat String.[] = refl
ends_in_slash-concat (String.◌∷◌ c String.[]) =
    subst (λ v. ends_in_slash v ≡ true)
      (sym (append.cons c "" "/" ∙ ap (String.◌∷◌ c) (append.nil "/"))) refl
ends_in_slash-concat (String.◌∷◌ c (String.◌∷◌ d s)) =
    subst (λ v. ends_in_slash v ≡ true)
      (sym (append.cons c (String.◌∷◌ d s) "/" ∙ ap (String.◌∷◌ c) (append.cons d s "/")))
      (rw cons-is_full (
        subst (λ v. ends_in_slash v ≡ true) (append.cons d s "/")
          (ends_in_slash-concat (String.◌∷◌ d s))))

abbrev pub starts_with_slash : String → Bool
starts_with_slash String.[] = false
starts_with_slash (String.◌∷◌ c s) = code c == b'/'

trim_left_slashes-id :
    (path : String) → starts_with_slash path ≡ false → trim_left_slashes path ≡ path
unfolding trim_left_slashes
trim_left_slashes-id String.[] h = refl
trim_left_slashes-id (String.◌∷◌ c s) h = rw h refl

slash-cons : (path : String) → concat "/" path ≡ String.◌∷◌ "/" path
slash-cons path = append.cons "/" "" path ∙ ap (String.◌∷◌ "/") (append.nil path)

trim_left_slashes-slash :
    (path : String) → starts_with_slash path ≡ false → trim_left_slashes (concat "/" path) ≡ path
unfolding trim_left_slashes
trim_left_slashes-slash path h =
    subst (λ s. trim_left_slashes s ≡ path) (sym (slash-cons path)) (trim_left_slashes-id path h)

-- For a base that does not end in a slash and a path that is not empty and does not start with one:
-- JoinURL puts one slash between the two, whether or not the base has a slash added at its end or
-- the path one at its start.
pub join_url-slashes :
    (base path : String)
    → ends_in_slash base ≡ false
    → starts_with_slash path ≡ false
    → str_eq path "" ≡ false
    → (join_url base path ≡ concat (concat base "/") path)
      × (join_url (concat base "/") path ≡ concat (concat base "/") path)
      × (join_url base (concat "/" path) ≡ concat (concat base "/") path)
      × (join_url (concat base "/") (concat "/" path) ≡ concat (concat base "/") path)
unfolding join_url
join_url-slashes base path open_end bare full =
    rw
      (
        full,
        open_end,
        ends_in_slash-concat base,
        trim_left_slashes-id path bare,
        trim_left_slashes-slash path bare,
        slash-cons path,
        cons-is_full,
      )
      (refl, refl, refl, refl)
