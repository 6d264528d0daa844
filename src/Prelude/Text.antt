-- ===== src/Prelude/Text.antt =====
-- What the program uses of Go's strings and fmt packages, over native texts.
use Prim.Native.Nat.{ℕ, zero, suc, ◌+◌, ◌-◌, ◌/◌, ◌%◌}
use Prim.Native.Char.{code}
use Prim.Native.String.{String, len, slice, ◌++◌ as append}
use mathlib.Core.Path.{◌≡◌, refl}
use mathlib.Core.Bool.{Bool, true, false, ◌&&◌, ◌||◌}
use mathlib.Core.List.{List, [], ◌∷◌}
pub use text.Mathlib.Text.{◌==◌ as str_eq, starts_with}
use text.Mathlib.Text.{find?}
pub use text.Mathlib.TextEquality.{eq_iff}
use k8s_recommendation_engin.Prelude.Tests.{leb, ◌==◌, if◌then◌else◌, is_some}

infixr 65 ◌<>◌
abbrev pub ◌<>◌ : String → String → String
s <> t = append s t

-- strings.Contains
abbrev pub contains : String → String → Bool
contains s t = is_some (find? s t)

-- strings.HasSuffix
abbrev pub ends_with : String → String → Bool
ends_with s t = leb (len t) (len s) && str_eq (slice s (len s - len t) (len s)) t

-- strings.Join
abbrev pub join : String → List String → String
join separator [] = ""
join separator (s ∷ []) = s
join separator (s ∷ (t ∷ r)) = s <> separator <> join separator (t ∷ r)

-- A loop over a slice of texts that looks for one of them.
abbrev pub contains_text : List String → String → Bool
contains_text [] want = false
contains_text (s ∷ r) want = str_eq s want || contains_text r want

-- `%d` of an integer that is not negative. A 64-bit integer has at most 20 digits.
decimal_from : ℕ → ℕ → String → String
decimal_from zero n rest = rest
decimal_from (suc digits) n rest =
    let all = slice "0123456789" (n % 10) (n % 10 + 1) <> rest in
    let more = decimal_from digits (n / 10) all in if n / 10 == 0 then all else more

unfoldable pub decimal : ℕ → String
unfolding decimal_from
decimal n = decimal_from 20 n ""

-- strings.TrimSpace, over the white space of ASCII.
abbrev is_space : ℕ → Bool
is_space c = c == 32 || (leb 9 c && leb c 13)

trim_left : String → String
trim_left String.[] = ""
trim_left (String.◌∷◌ c s) =
    let rest = trim_left s in if is_space (code c) then rest else String.◌∷◌ c s

trim_right : String → String
trim_right String.[] = ""
trim_right (String.◌∷◌ c s) =
    let rest = trim_right s in if str_eq rest "" && is_space (code c) then "" else String.◌∷◌ c rest

unfoldable pub trim_space : String → String
unfolding trim_left trim_right
trim_space s = trim_left (trim_right s)

decimal_example : decimal 2047 ≡ "2047"
unfolding decimal
decimal_example = refl

trim_space_example : trim_space "  a b " ≡ "a b"
unfolding trim_space
trim_space_example = refl

texts_example :
    (contains "policy allowAutoCommit" "allow" ≡ true)
    × (ends_with "spec.resources.requests.cpu" ".resources.requests.cpu" ≡ true)
    × (join ", " ("a" ∷ "b" ∷ "c" ∷ []) ≡ "a, b, c")
texts_example = (refl, refl, refl)
