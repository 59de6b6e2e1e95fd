-- ===== src/Prelude/Text.antt =====
-- What the program uses of Go's `strings`, `strconv` and `fmt`, over native texts. Letters outside
-- ASCII are left as they are by `to_lower`.
use Prim.Native.Char.{Char, code}
use Prim.Native.Nat.{ℕ, zero, suc, Ordering, ◌/◌, ◌%◌}
use Prim.Native.String.{String, [], ◌∷◌, ◌++◌, compare}
use mathlib.Core.Bool.{Bool, true, false, ◌&&◌, ◌||◌}
use mathlib.Core.List.{List}
use text.Mathlib.Text.{◌==◌ as text_eq}
use cxone_sdk_golang.Prelude.Tests.{◌==◌, if◌then◌else◌}

abbrev pub str_eq : String → String → Bool
str_eq s t = text_eq s t

-- s < t, by the codes of the characters
abbrev pub text_less : String → String → Bool
text_less s t = elim (compare s t) [ Ordering.lt ↦ true | _ ↦ false ]

-- s + t
abbrev pub concat : String → String → String
concat s t = s ++ t

-- strings.HasPrefix(s, t)
unfoldable pub has_prefix : String → String → Bool
has_prefix s [] = true
has_prefix [] (c ∷ t) = false
has_prefix (d ∷ s) (c ∷ t) = code d == code c && has_prefix s t

-- strings.Contains(s, t)
unfoldable pub contains : String → String → Bool
unfolding has_prefix
contains [] t = has_prefix [] t
contains (c ∷ s) t = has_prefix (c ∷ s) t || contains s t

unfoldable pub has_char : Char → String → Bool
has_char c [] = false
has_char c (d ∷ s) = code c == code d || has_char c s

-- strings.ContainsAny(s, chars)
unfoldable pub contains_any : String → String → Bool
unfolding has_char
contains_any [] chars = false
contains_any (c ∷ s) chars = has_char c chars || contains_any s chars

-- the character of `to` at the place where `c` stands in `from`
unfoldable pub translate : String → String → Char → Char
translate [] to c = c
translate (f ∷ from) [] c = c
translate (f ∷ from) (t ∷ to) c = if code c == code f then t else translate from to c

abbrev pub upper_letters : String
upper_letters = "ABCDEFGHIJKLMNOPQRSTUVWXYZ"

abbrev pub lower_letters : String
lower_letters = "abcdefghijklmnopqrstuvwxyz"

unfoldable pub to_lower_char : Char → Char
unfolding translate
to_lower_char c = translate upper_letters lower_letters c

-- strings.ToLower(s)
unfoldable pub to_lower : String → String
unfolding to_lower_char
to_lower [] = []
to_lower (c ∷ s) = to_lower_char c ∷ to_lower s

digit : ℕ → String
digit zero = "0"
digit (suc zero) = "1"
digit (suc (suc zero)) = "2"
digit (suc (suc (suc zero))) = "3"
digit (suc (suc (suc (suc zero)))) = "4"
digit (suc (suc (suc (suc (suc zero))))) = "5"
digit (suc (suc (suc (suc (suc (suc zero)))))) = "6"
digit (suc (suc (suc (suc (suc (suc (suc zero))))))) = "7"
digit (suc (suc (suc (suc (suc (suc (suc (suc zero)))))))) = "8"
digit _ = "9"

digits_from : ℕ → ℕ → String → String
digits_from zero n acc = acc
digits_from (suc fuel) n acc =
    let shown = digit (n % 10) ++ acc in
    let rest = digits_from fuel (n / 10) shown in if n / 10 == 0 then shown else rest

-- fmt's %d of a number that is not negative; `n` rounds are more than its digits
unfoldable pub decimal : ℕ → String
unfolding digits_from digit
decimal n = digits_from (suc n) n ""

-- fmt's %q of a text of printable characters: the quote and the backslash are escaped
unfoldable pub quoted_from : String → String
quoted_from [] = "\""
quoted_from (c ∷ s) =
    if code c == b'"' || code c == b'\\' then "\\" ++ (c ∷ quoted_from s) else c ∷ quoted_from s

unfoldable pub quoted : String → String
unfolding quoted_from
quoted s = "\"" ++ quoted_from s

-- the arguments of a format, written one after another
unfoldable pub concat_all : List String → String
concat_all List.[] = ""
concat_all (List.◌∷◌ s ss) = s ++ concat_all ss
