-- ===== src/Loser/Numbers.antt =====
-- The number of a commit as MP1/MP1.c prints it and reads it back.
use ntu_system_programming.Common.{
  ℕ, zero, suc, ◌+◌, ◌*◌, ◌-◌, ◌/◌, ◌%◌, ◌^◌, ◌≤◌, ◌<◌, ◌≡◌, refl, ◌∙◌, arith, true, false, some,
  [], ◌∷◌, ◌++◌, ltb, length, length-append, Bool-cases, inl, inr,
}
use ntu_system_programming.Common.Strings.{Text}
use ntu_system_programming.Loser.{is_digit, is_blank, read_digits, read_number, skip_blanks}
use ntu_system_programming.Loser.Status.{decimal}

pub data AllDigits : Text → Type 0 where
  no_digits : AllDigits []
  and_digit : {b : ℕ} {t : Text} → 48 ≤ b → b < 58 → AllDigits t → AllDigits (b ∷ t)

AllDigits-append : (s t : Text) → AllDigits s → AllDigits t → AllDigits (s ++ t)
AllDigits-append [] t no_digits q = q
AllDigits-append (b ∷ s) t (and_digit low high p) q = and_digit low high (AllDigits-append s t p q)

one_digit : (b : ℕ) → 48 ≤ b → b < 58 → AllDigits (b ∷ [])
one_digit b low high = and_digit low high no_digits

pub decimal-AllDigits : (fuel n : ℕ) → AllDigits (decimal fuel n)
unfolding decimal
decimal-AllDigits zero n = no_digits
decimal-AllDigits (suc fuel) n = elim (Bool-cases (ltb n 10)) [
  | inl small ↦ rw small (one_digit (48 + n) (omega arith) (ground arith))
  | inr large ↦ rw large (
      AllDigits-append (decimal fuel (n / 10)) ((48 + n % 10) ∷ [])
        (decimal-AllDigits fuel (n / 10)) (one_digit (48 + n % 10) (omega arith) (omega arith)))
]

read_digits-snoc :
    (a d : ℕ) (t : Text)
    → AllDigits t
    → 48 ≤ d
    → d < 58
    → read_digits a (t ++ d ∷ []) ≡ read_digits a t * 10 + (d - 48)
unfolding read_digits
read_digits-snoc a d [] no_digits low high =
    let digit : is_digit d ≡ true = ground arith in rw digit refl
read_digits-snoc a d (b ∷ t) (and_digit low' high' p) low high =
    let digit : is_digit b ≡ true = ground arith in
    rw digit (read_digits-snoc (a * 10 + (b - 48)) d t p low high)

read_digits-decimal : (fuel n : ℕ) → n < fuel → read_digits 0 (decimal fuel n) ≡ n
unfolding decimal
read_digits-decimal zero n enough = absurd (omega arith)
read_digits-decimal (suc fuel) n enough = elim (Bool-cases (ltb n 10)) [
  | inl small ↦ rw small (
      read_digits-snoc 0 (48 + n) [] no_digits (omega arith) (ground arith)
      ∙ unfold read_digits in omega arith)
  | inr large ↦
      let ih = read_digits-decimal fuel (n / 10) (ground arith) in
      rw large (
        read_digits-snoc 0 (48 + n % 10) (decimal fuel (n / 10)) (decimal-AllDigits fuel (n / 10))
          (omega arith) (omega arith)
        ∙ omega (arith, ih))
]

unfoldable pow10 : ℕ → ℕ
pow10 zero = 1
pow10 (suc k) = 10 * pow10 k

length-decimal : (k fuel n : ℕ) → n < pow10 (suc k) → length (decimal fuel n) ≤ suc k
unfolding decimal pow10
length-decimal k zero n small = omega arith
length-decimal zero (suc fuel) n small =
    let digit : ltb n 10 ≡ true = ground arith in rw digit (omega arith)
length-decimal (suc k) (suc fuel) n small = elim (Bool-cases (ltb n 10)) [
  | inl digit ↦ rw digit (omega arith)
  | inr large ↦ rw large (
      let ih = length-decimal k fuel (n / 10) (omega (arith, small)) in
      omega (arith, ih, length-append (decimal fuel (n / 10)) ((48 + n % 10) ∷ [])))
]

-- The digits of an `int`.
pub int_digits : (n : ℕ) → n < 2 ^ 31 → length (decimal (suc n) n) ≤ 10
int_digits n small = length-decimal 9 (suc n) n (unfold pow10 in omega (arith, small))

read_number-AllDigits :
    (t : Text) (n : ℕ)
    → AllDigits t
    → 0 < length t
    → read_digits 0 t ≡ n
    → n < 2 ^ 31
    → read_number (skip_blanks (32 ∷ t)) ≡ some n
unfolding read_number skip_blanks
read_number-AllDigits [] n p some_digit e small = absurd (omega arith)
read_number-AllDigits (b ∷ t) n (and_digit low high p) some_digit e small =
    let digit : is_digit b ≡ true = ground arith in
    let not_blank : is_blank b ≡ false = ground arith in
    let fits : ltb n (2 ^ 31) ≡ true = ground arith in rw (not_blank, e, digit, fits) refl

some_digit : (n : ℕ) → 0 < length (decimal (suc n) n)
unfolding decimal
some_digit n = elim (Bool-cases (ltb n 10)) [
  | inl small ↦ rw small (omega arith)
  | inr large ↦ rw large (omega (arith, length-append (decimal n (n / 10)) ((48 + n % 10) ∷ [])))
]

-- A number that fits an `int` is read back as it was printed, behind a blank.
pub read_number-decimal :
    (n : ℕ) → n < 2 ^ 31 → read_number (skip_blanks (32 ∷ decimal (suc n) n)) ≡ some n
read_number-decimal n small =
    read_number-AllDigits (decimal (suc n) n) n (decimal-AllDigits (suc n) n) (some_digit n)
      (read_digits-decimal (suc n) n (omega arith)) small
