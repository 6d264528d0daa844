-- ===== src/Stamp.antt =====
-- The two time formats in which internal/state writes times to SQLite: `time.RFC3339Nano`, which
-- drops the zeros at the end of the fraction, and `availabilityRecoveryTimeFormat`, which keeps nine
-- digits. SQLite orders the texts, not the times. A text is modelled by the second that its fixed
-- width part, `2006-01-02T15:04:05`, stands for (the order of these parts is that of the seconds up
-- to the year 9999) and by the characters after it, in UTC.
pub mod Order
pub mod RoundTrip
use Prim.Native.Nat.{compare, Ordering}
use k8s_recommendation_engin.Prelude.{
  ℕ, zero, suc, ◌+◌, ◌-◌, ◌*◌, ◌/◌, ◌%◌, Bool, true, false, ◌&&◌, ◌||◌, Option, none, some, List,
  [], ◌∷◌, ◌++◌, ltb, leb, ◌==◌, if◌then◌else◌, is_empty,
}

abbrev pub second : ℕ
second = 1_000_000_000

abbrev pub minute : ℕ
minute = 60 * second

abbrev pub hour : ℕ
hour = 3600 * second

pub record Stamp : Type 0 where
  pub seconds : ℕ
  pub fraction : List ℕ

-- The last digits of a number, as many as asked, the highest first.
unfoldable pub digits : ℕ → ℕ → List ℕ
digits zero n = []
digits (suc k) n = digits k (n / 10) ++ (b'0' + n % 10) ∷ []

unfoldable pub trim_zeros : List ℕ → List ℕ
trim_zeros [] = []
trim_zeros (d ∷ ds) =
    let rest = trim_zeros ds in if is_empty rest && d == b'0' then [] else d ∷ rest

unfoldable pub nano_fraction : ℕ → List ℕ
nano_fraction n = if n == 0 then b'Z' ∷ [] else b'.' ∷ (trim_zeros (digits 9 n) ++ b'Z' ∷ [])

-- `Format(time.RFC3339Nano)`.
unfoldable pub format_nano : ℕ → Stamp
format_nano t = record { seconds = t / second; fraction = nano_fraction (t % second) }

-- `Format(availabilityRecoveryTimeFormat)`.
unfoldable pub format_fixed : ℕ → Stamp
format_fixed t = record {
  seconds = t / second;
  fraction = b'.' ∷ (digits 9 (t % second) ++ b'Z' ∷ []);
}

abbrev pub then_compare : Ordering → Ordering → Ordering
then_compare Ordering.lt next = Ordering.lt
then_compare Ordering.eq next = next
then_compare Ordering.gt next = Ordering.gt

-- SQLite's comparison of texts, byte by byte.
unfoldable pub text_compare : List ℕ → List ℕ → Ordering
text_compare [] [] = Ordering.eq
text_compare [] (d ∷ ds) = Ordering.lt
text_compare (c ∷ cs) [] = Ordering.gt
text_compare (c ∷ cs) (d ∷ ds) = then_compare (compare c d) (text_compare cs ds)

unfoldable pub stamp_compare : Stamp → Stamp → Ordering
stamp_compare a b = then_compare (compare a.seconds b.seconds) (text_compare a.fraction b.fraction)

abbrev pub is_before : Ordering → Bool
is_before Ordering.lt = true
is_before _ = false

-- `a >= b` of SQLite.
abbrev pub stamp_ge : Stamp → Stamp → Bool
stamp_ge a b = elim (stamp_compare a b) [ Ordering.lt ↦ false | _ ↦ true ]

-- The digits of a fraction, with `k` places still to fill.
unfoldable pub read_fraction : ℕ → ℕ → List ℕ → Option ℕ
read_fraction k acc [] = none
read_fraction zero acc (c ∷ cs) = if c == b'Z' && is_empty cs then some acc else none
read_fraction (suc k) acc (c ∷ cs) =
    let digit = read_fraction k (acc * 10 + (c - b'0')) cs in
    let padded = read_fraction k (acc * 10) (c ∷ cs) in
    if leb b'0' c && leb c b'9' then digit else padded

-- `time.Parse(time.RFC3339Nano, …)` on the texts that the two formats write.
unfoldable pub parse_fraction : List ℕ → Option ℕ
parse_fraction [] = none
parse_fraction (c ∷ cs) =
    if c == b'.' then read_fraction 9 0 cs else if c == b'Z' && is_empty cs then some 0 else none

unfoldable pub parse_stamp : Stamp → Option ℕ
parse_stamp s = elim (parse_fraction s.fraction) [
  | none ↦ none
  | some nanos ↦ some (s.seconds * second + nanos)
]
