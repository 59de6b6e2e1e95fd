-- ===== src/Transport/Header.antt =====
-- net/http's Header as internal/transport/executor.go uses it: a map from canonical names to lists
-- of values.
use Prim.Native.Char.{Char, code}
use cxone_sdk_golang.Prelude.{
  ◌≡◌, refl, Bool, true, ◌&&◌, ◌||◌, ◌==◌, leb, String, List, [], ◌∷◌, ◌++◌, arith, eq_iff, eq_refl,
  if◌then◌else◌,
}
use cxone_sdk_golang.Prelude.Text.{
  str_eq, has_char, translate, upper_letters, lower_letters, to_lower_char,
}

abbrev pub Header : Type 0
Header = List (String × List String)

abbrev is_alphanumeric : Char → Bool
is_alphanumeric c =
    leb b'0' (code c) && leb (code c) b'9'
    || leb b'A' (code c) && leb (code c) b'Z'
    || leb b'a' (code c) && leb (code c) b'z'

-- every byte may stand in a header's name
unfoldable pub is_token : String → Bool
unfolding has_char
is_token String.[] = true
is_token (String.◌∷◌ c s) = (is_alphanumeric c || has_char c "!#$%&'*+-.^_`|~") && is_token s

-- the first letter, and each after a dash, is a capital
unfoldable pub capitalize : Bool → String → String
unfolding translate to_lower_char
capitalize first String.[] = String.[]
capitalize first (String.◌∷◌ c s) =
    let c' : Char = if first then translate lower_letters upper_letters c else to_lower_char c in
    String.◌∷◌ c' (capitalize (code c == b'-') s)

-- CanonicalMIMEHeaderKey
unfoldable pub canonical : String → String
unfolding is_token capitalize
canonical k = if is_token k then capitalize true k else k

-- h[k], for a canonical k; a missing name has no value
unfoldable pub values : String → Header → List String
values k [] = []
values k ((j, vs) ∷ h) = if str_eq j k then vs else values k h

unfoldable pub put : String → List String → Header → Header
put k vs [] = (k, vs) ∷ []
put k vs ((j, ws) ∷ h) = if str_eq j k then (j, vs) ∷ h else (j, ws) ∷ put k vs h

-- h.Add(k, v)
unfoldable pub add : String → String → Header → Header
unfolding values put
add k v h = put (canonical k) (values (canonical k) h ++ v ∷ []) h

-- h.Set(k, v)
unfoldable pub set : String → String → Header → Header
unfolding put
set k v h = put (canonical k) (v ∷ []) h

pub values-put :
    (k j : String) (vs : List String) (h : Header)
    → values j (put k vs h) ≡ (if str_eq k j then vs else values j h)
unfolding values put
values-put k j vs [] = refl
values-put k j vs ((i, ws) ∷ h) =
    ground (arith, eq_iff i k, eq_iff i j, eq_iff k j, values-put k j vs h)

pub values-set :
    (k j v : String) (h : Header)
    → values j (set k v h) ≡ (if str_eq (canonical k) j then v ∷ [] else values j h)
unfolding set
values-set k j v h = values-put (canonical k) j (v ∷ []) h

pub values-set_self : (k v : String) (h : Header) → values (canonical k) (set k v h) ≡ v ∷ []
values-set_self k v h = simp (values-set, eq_refl)
