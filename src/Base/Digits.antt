-- ===== src/Base/Digits.antt =====
-- Decimal digits in front of a text, and `parseInt(text, 10)`. A number of the source with more
-- than fifteen digits loses precision there; here it is exact.
use Prim.Native.Nat.{ℕ, ◌+◌, ◌-◌, ◌*◌}
use mathlib.Core.Path.{◌≡◌, refl}
use mathlib.Core.Bool.{Bool, true, false, ◌&&◌}
use mathlib.Core.List.{[], ◌∷◌, ◌++◌}
use mathlib.Core.Option.{Option, none, some}
use native.Mathlib.Omega.{arith}
use podlog.Base.Test.{leb, ◌==◌, if◌then◌else◌}
use podlog.Base.Lists.{All}
use podlog.Base.Str.{Text, trim_start, is_empty, is_space, IsVisible}

unfoldable pub is_digit : ℕ → Bool
is_digit c = leb b'0' c && leb c b'9'

-- `\d*`, as long as it goes, and what follows it.
unfoldable pub digits_front : Text → Text
digits_front [] = []
digits_front (c ∷ s) = if is_digit c then c ∷ digits_front s else []

unfoldable pub digits_rest : Text → Text
digits_rest [] = []
digits_rest (c ∷ s) = if is_digit c then digits_rest s else c ∷ s

unfoldable pub value_from : ℕ → Text → ℕ
value_from n [] = n
value_from n (c ∷ s) = value_from (n * 10 + (c - b'0')) s

abbrev pub value : Text → ℕ
value = value_from 0

-- A whole number that was read: `minus n` is -n.
pub data Whole : Type 0 where
  plus minus : ℕ → Whole

abbrev digits_value : (ℕ → Whole) → Text → Option Whole
digits_value sign s =
    if is_empty (digits_front s) then none else some (sign (value (digits_front s)))

abbrev signed_value : Text → Option Whole
signed_value [] = none
signed_value (c ∷ s) =
    if c == b'-'
    then digits_value minus s
    else if c == b'+'
    then digits_value plus s
    else digits_value plus (c ∷ s)

-- `parseInt(text, 10)`, with `none` for NaN.
unfoldable pub parse_int : Text → Option Whole
unfolding trim_start digits_front value_from is_digit
parse_int s = signed_value (trim_start s)

abbrev pub IsDigits : Text → Type 0
IsDigits = All (λ c. is_digit c ≡ true)

-- The text does not go on with a digit.
abbrev pub Stops : Text → Type 0
Stops [] = Unit
Stops (c ∷ s) = is_digit c ≡ false

pub digits_front-append :
    (ds rest : Text) → IsDigits ds → Stops rest → digits_front (ds ++ rest) ≡ ds
unfolding digits_front
digits_front-append [] [] d h = refl
digits_front-append [] (c ∷ rest) d h = rw h refl
digits_front-append (c ∷ ds) rest (e, d) h = rw (e, digits_front-append ds rest d h) refl

pub digits_rest-append :
    (ds rest : Text) → IsDigits ds → Stops rest → digits_rest (ds ++ rest) ≡ rest
unfolding digits_rest
digits_rest-append [] [] d h = refl
digits_rest-append [] (c ∷ rest) d h = rw h refl
digits_rest-append (c ∷ ds) rest (e, d) h = rw (e, digits_rest-append ds rest d h) refl

is_space_of_digit : (c : ℕ) → is_digit c ≡ true → is_space c ≡ false
unfolding is_digit is_space
is_space_of_digit c h = ground arith

pub IsDigits-IsVisible : (ds : Text) → IsDigits ds → IsVisible ds
IsDigits-IsVisible [] d = tt
IsDigits-IsVisible (c ∷ ds) (e, d) = (is_space_of_digit c e, IsDigits-IsVisible ds d)

sign_of_digit : (c : ℕ) → is_digit c ≡ true → ((c == b'-') ≡ false) × ((c == b'+') ≡ false)
unfolding is_digit
sign_of_digit c h = (ground arith, ground arith)

front_all : (s : Text) → IsDigits s → digits_front s ≡ s
unfolding digits_front
front_all [] d = refl
front_all (c ∷ s) (e, d) = rw (e, front_all s d) refl

-- `parseInt` of digits, of which there is at least one.
pub parse_int-IsDigits :
    (c : ℕ) (s : Text) → IsDigits (c ∷ s) → parse_int (c ∷ s) ≡ some (plus (value (c ∷ s)))
unfolding parse_int trim_start
parse_int-IsDigits c s (e, d) =
    let (minus_no, plus_no) = sign_of_digit c e in
    rw (is_space_of_digit c e, minus_no, plus_no, front_all (c ∷ s) (e, d)) refl
