-- ===== src/Endpoints/Location.antt =====
-- The id at the end of a Location header, as createAndExtractID of internal/endpoints/users/users.go
-- and of internal/endpoints/groups/groups.go read it.
use Prim.Native.Char.{Char, code}
use Prim.Native.String.append
use text.Mathlib.TextEquality.{Char-path}
use cxone_sdk_golang.Prelude.{
  ◌≡◌, refl, sym, ap, subst, ◌∙◌, Bool, true, false, ◌==◌, ◌↔◌, inl, inr, String, Option, none,
  some, arith, Option-cases, Bool-cases, if◌then◌else◌,
}
use cxone_sdk_golang.Prelude.Text.{str_eq, concat}

-- what follows the last slash of `c` before `s`, given what follows the last one of `s`
unfoldable pub found_after : Char → String → Option String → Option String
found_after c s (some t) = some t
found_after c s none = if code c == b'/' then some s else none

-- what follows the last slash, if there is one
unfoldable pub after_last_slash : String → Option String
unfolding found_after
after_last_slash String.[] = none
after_last_slash (String.◌∷◌ c s) = found_after c s (after_last_slash s)

unfoldable pub if_full : Option String → Option String
if_full none = none
if_full (some t) = if str_eq t "" then none else some t

-- location[idx+1:], if there is a slash and something follows it
unfoldable pub location_id : String → Option String
unfolding after_last_slash if_full
location_id location = if_full (after_last_slash location)

abbrev pub slash_free : String → Bool
slash_free s = elim (after_last_slash s) [ none ↦ true | some t ↦ false ]

after_last_slash-none : (s : String) → slash_free s ≡ true → after_last_slash s ≡ none
after_last_slash-none s h = elim (Option-cases (after_last_slash s)) [
  | inl e ↦ e
  | inr (t, e) ↦ absurd (ground (arith, e))
]

after_last_slash-slash :
    (parent id : String)
    → slash_free id ≡ true
    → after_last_slash (concat parent (String.◌∷◌ "/" id)) ≡ some id
unfolding after_last_slash
after_last_slash-slash String.[] id h =
    subst (λ v. after_last_slash v ≡ some id) (sym (append.nil (String.◌∷◌ "/" id)))
      (ap (found_after "/" id) (after_last_slash-none id h))
after_last_slash-slash (String.◌∷◌ c s) id h =
    subst (λ v. after_last_slash v ≡ some id) (sym (append.cons c s (String.◌∷◌ "/" id)))
      (ap (found_after c _) (after_last_slash-slash s id h))

-- the text ends in a slash and `t`, which has none
abbrev Splits : String → String → Type 0
Splits s t = (slash_free t ≡ true) × ((parent : String) × (s ≡ concat parent (String.◌∷◌ "/" t)))

Splits-cons : (c : Char) (s t : String) → Splits s t → Splits (String.◌∷◌ c s) t
Splits-cons c s t (free, (parent, e)) =
    (free, (String.◌∷◌ c parent, ap (String.◌∷◌ c) e ∙ sym (append.cons c parent _)))

found_after-Splits :
    (c : Char) (s t : String) (o : Option String)
    → after_last_slash s ≡ o
    → ((u : String) → o ≡ some u → Splits s u)
    → found_after c s o ≡ some t
    → Splits (String.◌∷◌ c s) t
unfolding found_after
found_after-Splits c s t (some u) e below found =
    Splits-cons c s t (subst (Splits s) (ground (arith, found)) (below u refl))
found_after-Splits c s t none e below found = elim (Bool-cases (code c == b'/')) [
  | inl slash ↦
      subst (λ u. Splits (String.◌∷◌ c s) u) (ground (arith, found, slash))
        ((
          rw (e, slash_free) refl,
          (
            String.[],
            ap (λ d. String.◌∷◌ d s) (Char-path c "/" (ground arith)) ∙ sym (append.nil _),
          ),
        ))
  | inr other ↦ absurd (ground (arith, found))
]

after_last_slash-Splits : (s t : String) → after_last_slash s ≡ some t → Splits s t
unfolding after_last_slash
after_last_slash-Splits String.[] t e = absurd (ground (arith, e))
after_last_slash-Splits (String.◌∷◌ c s) t e =
    found_after-Splits c s t (after_last_slash s) refl (λ u q. after_last_slash-Splits s u q) e

if_full-some :
    (o : Option String) (id : String) → if_full o ≡ some id → (o ≡ some id) × (str_eq id "" ≡ false)
unfolding if_full
if_full-some none id e = absurd (ground (arith, e))
if_full-some (some t) id e = elim (Bool-cases (str_eq t "")) [
  | inl empty ↦ absurd (ground (arith, e))
  | inr full ↦ (ground (arith, e), ground (arith, e))
]

-- An id that has a slash nowhere and is not empty is what is read from any location that ends in a
-- slash and this id; and what is read from a location is not empty, has no slash, and ends the
-- location after a slash.
pub location_id-roundtrip :
    (location id : String)
    → (location_id location ≡ some id) ↔ (
        (slash_free id ≡ true)
        × (str_eq id "" ≡ false)
        × ((parent : String) × (location ≡ concat parent (String.◌∷◌ "/" id))))
unfolding location_id after_last_slash
location_id-roundtrip location id = (
  λ read.
      let (last, full) = if_full-some (after_last_slash location) id read in
      let (free, ends) = after_last_slash-Splits location id last in (free, full, ends),
  λ (free, full, (parent, e)).
      subst (λ v. location_id v ≡ some id) (sym e)
        (ap if_full (after_last_slash-slash parent id free) ∙ rw full refl),
)
