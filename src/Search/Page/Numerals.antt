-- ===== src/Search/Page/Numerals.antt =====
-- A number that is written in decimal digits is read back.
use podlog.Base.{
  ℕ, zero, suc, ◌+◌, ◌-◌, ◌*◌, ◌/◌, ◌%◌, ◌≤◌, ◌<◌, ◌≡◌, refl, sym, ap, ◌∙◌, true, false, Option,
  some, [], ◌∷◌, ◌++◌, All-append, Text, is_empty, ltb, ltb→lt, Bool-cases, inl, inr, arith,
}
use podlog.Base.Digits.{
  is_digit, value_from, value, Whole, plus, parse_int, parse_int-IsDigits, IsDigits,
}
use podlog.Export.{digit, digits_of, decimal}

value_from-append : (k : ℕ) (s t : Text) → value_from k (s ++ t) ≡ value_from (value_from k s) t
unfolding value_from
value_from-append k [] t = refl
value_from-append k (c ∷ s) t = value_from-append (k * 10 + (c - b'0')) s t

is_digit-digit : (n : ℕ) → n < 10 → is_digit (b'0' + n) ≡ true
unfolding is_digit
is_digit-digit n h = ground arith

digits_of-IsDigits : (fuel n : ℕ) → IsDigits (digits_of fuel n)
unfolding digits_of
digits_of-IsDigits zero n = (is_digit-digit (n % 10) (omega arith), tt)
digits_of-IsDigits (suc fuel) n = elim (Bool-cases (ltb n 10)) [
  | inl e ↦ rw e (is_digit-digit n (ltb→lt n 10 e), tt)
  | inr e ↦ rw e (
      All-append _ (digits_of fuel (n / 10)) (digit (n % 10) ∷ [])
        (digits_of-IsDigits fuel (n / 10)) (is_digit-digit (n % 10) (omega arith), tt))
]

one_digit : (n : ℕ) → n < 10 → value_from 0 (digit n ∷ []) ≡ n
unfolding value_from
one_digit n h = omega arith

ten_times : (k n : ℕ) → n < 10 → value_from k (digit n ∷ []) ≡ k * 10 + n
unfolding value_from
ten_times k n h = omega arith

tenth : (fuel n : ℕ) → n ≤ suc fuel → n / 10 ≤ fuel
tenth fuel n h = omega arith

whole : (n : ℕ) → n / 10 * 10 + n % 10 ≡ n
whole n = omega arith

value-digits_of : (fuel n : ℕ) → n ≤ fuel → value (digits_of fuel n) ≡ n
unfolding digits_of
value-digits_of zero n h = one_digit (n % 10) (omega arith) ∙ omega arith
value-digits_of (suc fuel) n h = elim (Bool-cases (ltb n 10)) [
  | inl e ↦ rw e (one_digit n (ltb→lt n 10 e))
  | inr e ↦ rw e (
      value_from-append 0 (digits_of fuel (n / 10)) (digit (n % 10) ∷ [])
      ∙ (ap (λ k. value_from k (digit (n % 10) ∷ []))
            (value-digits_of fuel (n / 10) (tenth fuel n h))
          ∙ (ten_times (n / 10) (n % 10) (omega arith) ∙ whole n)))
]

digits_of-first : (fuel n : ℕ) → is_empty (digits_of fuel n) ≡ false
unfolding digits_of
digits_of-first zero n = refl
digits_of-first (suc fuel) n = elim (Bool-cases (ltb n 10)) [
  | inl e ↦ rw e refl
  | inr e ↦ rw e (front_first (digits_of fuel (n / 10)) (digit (n % 10)))
]
  where
    front_first : (s : Text) (c : ℕ) → is_empty (s ++ c ∷ []) ≡ false
    front_first [] c = refl
    front_first (d ∷ s) c = refl

read_all : (s : Text) → IsDigits s → is_empty s ≡ false → parse_int s ≡ some (plus (value s))
read_all [] d h = cc
read_all (c ∷ s) d h = parse_int-IsDigits c s d

-- `parseInt(String(n), 10)` is n.
pub parse_int-decimal : (n : ℕ) → parse_int (decimal n) ≡ some (plus n)
parse_int-decimal n =
    read_all (digits_of n n) (digits_of-IsDigits n n) (digits_of-first n n)
    ∙ ap (λ m. some (plus m)) (value-digits_of n n (omega arith))

abbrev whole_of : Option Whole → ℕ
whole_of (some (plus n)) = n
whole_of _ = 0

pub decimal_inj : (m n : ℕ) → decimal m ≡ decimal n → m ≡ n
decimal_inj m n e =
    sym (ap whole_of (parse_int-decimal m))
    ∙ (ap (λ s. whole_of (parse_int s)) e ∙ ap whole_of (parse_int-decimal n))

-- A written number has no other code than those of digits.
pub decimal-IsDigits : (n : ℕ) → IsDigits (decimal n)
decimal-IsDigits n = digits_of-IsDigits n n
