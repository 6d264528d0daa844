-- ===== src/Stamp/Order.antt =====
-- The order of the texts of times.
use Prim.Native.Nat.{compare, Ordering}
use k8s_recommendation_engin.Prelude.{
  ℕ, zero, suc, ◌+◌, ◌*◌, ◌/◌, ◌%◌, ◌<◌, ◌≡◌, ◌≢◌, refl, sym, ◌∙◌, List, [], ◌∷◌, ◌++◌, arith,
  length, length-append,
}
use k8s_recommendation_engin.Stamp.{
  second, digits, format_nano, nano_fraction, format_fixed, then_compare, text_compare,
  stamp_compare,
}

abbrev pub pow10 : ℕ → ℕ
pow10 zero = 1
pow10 (suc k) = 10 * pow10 k

pub length-digits : (k n : ℕ) → length (digits k n) ≡ k
unfolding digits
length-digits zero n = refl
length-digits (suc k) n =
    omega
      (arith, length-append (digits k (n / 10)) ((b'0' + n % 10) ∷ []), length-digits k (n / 10))

then_compare_assoc :
    (a b c : Ordering) → then_compare (then_compare a b) c ≡ then_compare a (then_compare b c)
then_compare_assoc Ordering.lt b c = refl
then_compare_assoc Ordering.eq b c = refl
then_compare_assoc Ordering.gt b c = refl

text_compare-append :
    (xs ys us vs : List ℕ)
    → length xs ≡ length ys
    → text_compare (xs ++ us) (ys ++ vs) ≡ then_compare (text_compare xs ys) (text_compare us vs)
unfolding text_compare
text_compare-append [] [] us vs h = refl
text_compare-append [] (y ∷ ys) us vs h = absurd (omega arith)
text_compare-append (x ∷ xs) [] us vs h = absurd (omega arith)
text_compare-append (x ∷ xs) (y ∷ ys) us vs h =
    rw (text_compare-append xs ys us vs (omega arith))
      (sym (then_compare_assoc (compare x y) (text_compare xs ys) (text_compare us vs)))

text_compare-one : (c d : ℕ) → text_compare (c ∷ []) (d ∷ []) ≡ compare c d
unfolding text_compare
text_compare-one c d = ground arith

compare_tens :
    (a b : ℕ)
    → then_compare (compare (a / 10) (b / 10)) (compare (b'0' + a % 10) (b'0' + b % 10))
      ≡ compare a b
compare_tens a b = ground arith

text_compare-digits :
    (k a b : ℕ) → a < pow10 k → b < pow10 k → text_compare (digits k a) (digits k b) ≡ compare a b
unfolding digits
text_compare-digits zero a b p q = unfold text_compare in ground arith
text_compare-digits (suc k) a b p q =
    rw
      (
        text_compare-append (digits k (a / 10)) (digits k (b / 10)) ((b'0' + a % 10) ∷ [])
            ((b'0' + b % 10) ∷ []) (length-digits k (a / 10) ∙ sym (length-digits k (b / 10))),
        text_compare-digits k (a / 10) (b / 10) (omega arith) (omega arith),
        text_compare-one (b'0' + a % 10) (b'0' + b % 10),
      )
      (compare_tens a b)

compare_parts :
    (s t : ℕ)
    → then_compare (compare (s / second) (t / second)) (compare (s % second) (t % second))
      ≡ compare s t
compare_parts s t = ground arith

fixed_fraction_compare :
    (a b : ℕ)
    → a < second
    → b < second
    → text_compare (b'.' ∷ (digits 9 a ++ b'Z' ∷ [])) (b'.' ∷ (digits 9 b ++ b'Z' ∷ []))
      ≡ compare a b
fixed_fraction_compare a b p q =
    text_compare-dot (digits 9 a ++ b'Z' ∷ []) (digits 9 b ++ b'Z' ∷ [])
    ∙ text_compare-append (digits 9 a) (digits 9 b) (b'Z' ∷ []) (b'Z' ∷ [])
        (length-digits 9 a ∙ sym (length-digits 9 b))
    ∙ rw (text_compare-digits 9 a b (omega arith) (omega arith), text_compare-one b'Z' b'Z')
        (then_compare-eq (compare a b))
  where
    text_compare-dot : (xs ys : List ℕ) → text_compare (b'.' ∷ xs) (b'.' ∷ ys) ≡ text_compare xs ys
    text_compare-dot xs ys = unfold text_compare in refl

    then_compare-eq : (o : Ordering) → then_compare o Ordering.eq ≡ o
    then_compare-eq Ordering.lt = refl
    then_compare-eq Ordering.eq = refl
    then_compare-eq Ordering.gt = refl

-- The texts of the fixed width format are ordered as the times are.
pub format_fixed-compare : (s t : ℕ) → stamp_compare (format_fixed s) (format_fixed t) ≡ compare s t
unfolding stamp_compare format_fixed
format_fixed-compare s t =
    rw (fixed_fraction_compare (s % second) (t % second) (omega arith) (omega arith))
      (compare_parts s t)

-- The texts of RFC3339Nano of two different seconds are ordered as the times are.
pub format_nano-compare_seconds :
    (s t : ℕ)
    → s / second ≢ t / second
    → stamp_compare (format_nano s) (format_nano t) ≡ compare s t
unfolding stamp_compare format_nano
format_nano-compare_seconds s t h = ground arith

-- A time inside a second sorts before the whole second in RFC3339Nano, although it is later.
pub format_nano-fraction_first :
    (s n : ℕ)
    → 0 < n
    → n < second
    → stamp_compare (format_nano (s * second + n)) (format_nano (s * second)) ≡ Ordering.lt
unfolding stamp_compare format_nano
format_nano-fraction_first s n p q =
    rw (whole, part, left, right) (rw (fraction_lt n p) (same_second s))
  where
    whole : (s * second + n) / second ≡ s
    whole = omega arith

    part : (s * second + n) % second ≡ n
    part = omega arith

    left : s * second / second ≡ s
    left = omega arith

    right : s * second % second ≡ 0
    right = omega arith

    fraction_lt : (m : ℕ) → 0 < m → text_compare (nano_fraction m) (nano_fraction 0) ≡ Ordering.lt
    fraction_lt m h = unfold nano_fraction text_compare in ground arith

    same_second : (m : ℕ) → then_compare (compare m m) Ordering.lt ≡ Ordering.lt
    same_second m = ground arith
