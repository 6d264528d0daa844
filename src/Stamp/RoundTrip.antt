-- ===== src/Stamp/RoundTrip.antt =====
-- `time.Parse` on the texts of times.
use k8s_recommendation_engin.Prelude.{
  ℕ, zero, suc, ◌+◌, ◌-◌, ◌*◌, ◌/◌, ◌%◌, ◌≤◌, ◌<◌, ◌≡◌, refl, ◌∙◌, ap, some, List, [], ◌∷◌, ◌++◌,
  arith, ◌==◌, length, All, All-append, Bool-cases, inl, inr,
}
use k8s_recommendation_engin.Stamp.{
  second, digits, trim_zeros, nano_fraction, format_nano, format_fixed, read_fraction,
  parse_fraction, parse_stamp,
}
use k8s_recommendation_engin.Stamp.Order.{pow10, length-digits}

abbrev IsDigit : ℕ → Type 0
IsDigit c = (b'0' ≤ c) × (c ≤ b'9')

-- The number that a text of digits stands for, after the digits read before.
abbrev value_from : ℕ → List ℕ → ℕ
value_from acc [] = acc
value_from acc (c ∷ cs) = value_from (acc * 10 + (c - b'0')) cs

value_from-append :
    (acc d : ℕ) (cs : List ℕ) → value_from acc (cs ++ d ∷ []) ≡ value_from acc cs * 10 + (d - b'0')
value_from-append acc d [] = refl
value_from-append acc d (c ∷ cs) = value_from-append (acc * 10 + (c - b'0')) d cs

digits-IsDigit : (k n : ℕ) → All IsDigit (digits k n)
unfolding digits
digits-IsDigit zero n = tt
digits-IsDigit (suc k) n =
    All-append IsDigit (digits k (n / 10)) ((b'0' + n % 10) ∷ []) (digits-IsDigit k (n / 10))
      (omega arith)

value_from-digits : (k n : ℕ) → n < pow10 k → value_from 0 (digits k n) ≡ n
unfolding digits
value_from-digits zero n h = omega arith
value_from-digits (suc k) n h =
    value_from-append 0 (b'0' + n % 10) (digits k (n / 10))
    ∙ rw (value_from-digits k (n / 10) (omega arith)) (omega arith)

-- Digits, all of them written, and then `Z`.
read_fraction-digits :
    (k acc : ℕ) (cs : List ℕ)
    → length cs ≡ k
    → All IsDigit cs
    → read_fraction k acc (cs ++ b'Z' ∷ []) ≡ some (value_from acc cs)
unfolding read_fraction
read_fraction-digits zero acc [] h d = refl
read_fraction-digits (suc k) acc [] h d = absurd (omega arith)
read_fraction-digits zero acc (c ∷ cs) h d = absurd (omega arith)
read_fraction-digits (suc k) acc (c ∷ cs) h d =
    ground (arith, read_fraction-digits k (acc * 10 + (c - b'0')) cs (omega arith) d.1)

-- Digits without the zeros at their end.
read_fraction-trim_zeros :
    (k acc : ℕ) (cs : List ℕ)
    → length cs ≡ k
    → All IsDigit cs
    → read_fraction k acc (trim_zeros cs ++ b'Z' ∷ []) ≡ some (value_from acc cs)
unfolding read_fraction trim_zeros
read_fraction-trim_zeros zero acc [] h d = refl
read_fraction-trim_zeros (suc k) acc [] h d = absurd (omega arith)
read_fraction-trim_zeros zero acc (c ∷ cs) h d = absurd (omega arith)
read_fraction-trim_zeros (suc k) acc (c ∷ cs) h d =
    let ih = read_fraction-trim_zeros k (acc * 10 + (c - b'0')) cs (omega arith) d.1 in
    let ih0 = read_fraction-trim_zeros k (acc * 10) cs (omega arith) d.1 in ground (arith, ih, ih0)

parse_fraction-fixed :
    (n : ℕ) → n < second → parse_fraction (b'.' ∷ (digits 9 n ++ b'Z' ∷ [])) ≡ some n
unfolding parse_fraction
parse_fraction-fixed n h =
    read_fraction-digits 9 0 (digits 9 n) (length-digits 9 n) (digits-IsDigit 9 n)
    ∙ ap some (value_from-digits 9 n (omega arith))

parse_fraction-nano : (n : ℕ) → n < second → parse_fraction (nano_fraction n) ≡ some n
unfolding parse_fraction nano_fraction
parse_fraction-nano n h = elim (Bool-cases (n == 0)) [
  | inl none_left ↦ ground arith
  | inr some_left ↦ rw some_left (
      read_fraction-trim_zeros 9 0 (digits 9 n) (length-digits 9 n) (digits-IsDigit 9 n)
      ∙ ap some (value_from-digits 9 n (omega arith)))
]

parts : (t : ℕ) → t / second * second + t % second ≡ t
parts t = omega arith

-- A time written with the fixed width format is read back whole.
pub parse_stamp-format_fixed : (t : ℕ) → parse_stamp (format_fixed t) ≡ some t
unfolding parse_stamp format_fixed
parse_stamp-format_fixed t =
    rw (parse_fraction-fixed (t % second) (omega arith), parse_stamp) (ap some (parts t))

-- A time written with RFC3339Nano is read back whole.
pub parse_stamp-format_nano : (t : ℕ) → parse_stamp (format_nano t) ≡ some t
unfolding parse_stamp format_nano
parse_stamp-format_nano t =
    rw (parse_fraction-nano (t % second) (omega arith), parse_stamp) (ap some (parts t))
