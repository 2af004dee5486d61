-- ===== src/Prelude/Decimal.antt =====
-- strconv: a number as a decimal text. A text without a number, or one that does not fit in 64 bits,
-- gives none.
use Prim.Native.Char.{Char, code}
use Prim.Native.Nat.{ℕ, zero, suc, ◌+◌, ◌-◌, ◌*◌, ◌/◌, ◌%◌, ◌^◌, ◌≤◌, ◌<◌}
use Prim.Native.String.{String}
use mathlib.Core.Path.{◌≡◌, refl, ◌∙◌, ap}
use mathlib.Core.Bool.{false, ◌&&◌}
use mathlib.Core.Option.{Option, none, some}
use mathlib.Core.Logic.{inl, inr}
use native.Mathlib.Omega.{arith}
use flintlock.Prelude.Tests.{ltb, leb, ◌==◌, if◌then◌else◌, Bool-cases, lt→ltb}
use flintlock.Prelude.Int.{ℤ, pos, negsuc}

-- the character that stands at a place of a text
abbrev pub char_at : String → ℕ → Char
char_at String.[] n = "0"
char_at (String.◌∷◌ c s) zero = c
char_at (String.◌∷◌ c s) (suc n) = char_at s n

abbrev digit : ℕ → Char
digit n = char_at "0123456789" n

-- The digits of `n` before `rest`; as many rounds as `fuel` and one more.
unfoldable decimal : ℕ → ℕ → String → String
decimal zero n rest = String.◌∷◌ (digit (n % 10)) rest
decimal (suc fuel) n rest =
    let more = decimal fuel (n / 10) (String.◌∷◌ (digit (n % 10)) rest) in
    if ltb n 10 then String.◌∷◌ (digit n) rest else more

-- Itoa of a number that is not negative
unfoldable pub itoa : ℕ → String
unfolding decimal
itoa n = decimal n n ""

abbrev digit_value : Char → Option ℕ
digit_value c = if leb b'0' (code c) && leb (code c) b'9' then some (code c - b'0') else none

abbrev shift : Option ℕ → ℕ → ℕ
shift none acc = acc
shift (some d) acc = acc * 10 + d

abbrev if_some : Option ℕ → Option ℕ → Option ℕ
if_some none rest = none
if_some (some d) rest = rest

-- The number of the digits so far followed by a text of digits.
unfoldable digits_value : String → ℕ → Option ℕ
digits_value String.[] acc = some acc
digits_value (String.◌∷◌ c s) acc =
    if_some (digit_value c) (digits_value s (shift (digit_value c) acc))

abbrev opposite : ℕ → ℤ
opposite zero = pos 0
opposite (suc n) = negsuc n

abbrev positive : Option ℕ → Option ℤ
positive none = none
positive (some n) = if ltb n (2 ^ 63) then some (pos n) else none

abbrev negative : Option ℕ → Option ℤ
negative none = none
negative (some n) = if leb n (2 ^ 63) then some (opposite n) else none

abbrev unsigned : String → Option ℕ
unsigned String.[] = none
unsigned (String.◌∷◌ c s) = digits_value (String.◌∷◌ c s) 0

-- Atoi
unfoldable pub atoi : String → Option ℤ
unfolding digits_value
atoi String.[] = none
atoi (String.◌∷◌ c s) =
    if code c == b'-'
    then negative (unsigned s)
    else if code c == b'+'
    then positive (unsigned s)
    else positive (unsigned (String.◌∷◌ c s))

too_large : (d : ℕ) → suc (suc (suc (suc (suc (suc (suc (suc (suc (suc d))))))))) < 10 → ⊥
too_large d h = omega arith

-- the digit of a number below ten has that value
digit_value-digit : (d : ℕ) → d < 10 → digit_value (digit d) ≡ some d
digit_value-digit zero h = refl
digit_value-digit (suc zero) h = refl
digit_value-digit (suc (suc zero)) h = refl
digit_value-digit (suc (suc (suc zero))) h = refl
digit_value-digit (suc (suc (suc (suc zero)))) h = refl
digit_value-digit (suc (suc (suc (suc (suc zero))))) h = refl
digit_value-digit (suc (suc (suc (suc (suc (suc zero)))))) h = refl
digit_value-digit (suc (suc (suc (suc (suc (suc (suc zero))))))) h = refl
digit_value-digit (suc (suc (suc (suc (suc (suc (suc (suc zero)))))))) h = refl
digit_value-digit (suc (suc (suc (suc (suc (suc (suc (suc (suc zero))))))))) h = refl
digit_value-digit (suc (suc (suc (suc (suc (suc (suc (suc (suc (suc d)))))))))) h =
    elim (too_large d h) [ ]

digits_value-digit :
    (d acc : ℕ) (rest : String)
    → d < 10
    → digits_value (String.◌∷◌ (digit d) rest) acc ≡ digits_value rest (acc * 10 + d)
unfolding digits_value
digits_value-digit d acc rest h = rw (digit_value-digit d h) refl

-- Printed digits are read back.
digits_value-decimal :
    (fuel n : ℕ) (rest : String)
    → n ≤ fuel
    → digits_value (decimal fuel n rest) 0 ≡ digits_value rest n
unfolding decimal
digits_value-decimal zero n rest h =
    let same : 0 * 10 + n % 10 ≡ n = omega arith in
    digits_value-digit (n % 10) 0 rest (omega arith) ∙ ap (digits_value rest) same
digits_value-decimal (suc fuel) n rest h = elim (Bool-cases (ltb n 10)) [
  | inl e ↦ rw e (digits_value-digit n 0 rest (ground arith) ∙ ap (digits_value rest) (omega arith))
  | inr e ↦
      let more = String.◌∷◌ (digit (n % 10)) rest in
      let same : n / 10 * 10 + n % 10 ≡ n = omega arith in
      let ih = digits_value-decimal fuel (n / 10) more (ground arith) in
      rw e
        (ih ∙ digits_value-digit (n % 10) (n / 10) rest (omega arith) ∙ ap (digits_value rest) same)
]

-- A text that starts with a digit.
abbrev StartsWithDigit : String → Type 0
StartsWithDigit String.[] = ⊥
StartsWithDigit (String.◌∷◌ c s) = (code c == b'-' ≡ false) × (code c == b'+' ≡ false)

digit-no_sign :
    (d : ℕ) → d < 10 → (code (digit d) == b'-' ≡ false) × (code (digit d) == b'+' ≡ false)
digit-no_sign zero h = (refl, refl)
digit-no_sign (suc zero) h = (refl, refl)
digit-no_sign (suc (suc zero)) h = (refl, refl)
digit-no_sign (suc (suc (suc zero))) h = (refl, refl)
digit-no_sign (suc (suc (suc (suc zero)))) h = (refl, refl)
digit-no_sign (suc (suc (suc (suc (suc zero))))) h = (refl, refl)
digit-no_sign (suc (suc (suc (suc (suc (suc zero)))))) h = (refl, refl)
digit-no_sign (suc (suc (suc (suc (suc (suc (suc zero))))))) h = (refl, refl)
digit-no_sign (suc (suc (suc (suc (suc (suc (suc (suc zero)))))))) h = (refl, refl)
digit-no_sign (suc (suc (suc (suc (suc (suc (suc (suc (suc zero))))))))) h = (refl, refl)
digit-no_sign (suc (suc (suc (suc (suc (suc (suc (suc (suc (suc d)))))))))) h =
    elim (too_large d h) [ ]

decimal-StartsWithDigit : (fuel n : ℕ) (rest : String) → StartsWithDigit (decimal fuel n rest)
unfolding decimal
decimal-StartsWithDigit zero n rest = digit-no_sign (n % 10) (omega arith)
decimal-StartsWithDigit (suc fuel) n rest = elim (Bool-cases (ltb n 10)) [
  | inl e ↦ rw e (digit-no_sign n (ground arith))
  | inr e ↦ rw e (decimal-StartsWithDigit fuel (n / 10) (String.◌∷◌ (digit (n % 10)) rest))
]

atoi-of_digits :
    (s : String) (n : ℕ)
    → StartsWithDigit s
    → digits_value s 0 ≡ some n
    → n < 2 ^ 63
    → atoi s ≡ some (pos n)
unfolding atoi
atoi-of_digits String.[] n h v b = elim h [ ]
atoi-of_digits (String.◌∷◌ c s) n h v b = rw (h.0, h.1, v, lt→ltb n (2 ^ 63) b) refl

-- A printed number that fits in 64 bits is read back.
pub atoi-itoa : (n : ℕ) → n < 2 ^ 63 → atoi (itoa n) ≡ some (pos n)
unfolding itoa digits_value
atoi-itoa n h =
    atoi-of_digits (decimal n n "") n (decimal-StartsWithDigit n n "")
      (digits_value-decimal n n "" (omega arith)) h

-- Every character is a digit.
abbrev pub IsDecimal : String → Type 0
IsDecimal String.[] = Unit
IsDecimal (String.◌∷◌ c s) = (b'0' ≤ code c) × (code c ≤ b'9') × IsDecimal s

IsDecimal-of_value : (s : String) (acc n : ℕ) → digits_value s acc ≡ some n → IsDecimal s
unfolding digits_value
IsDecimal-of_value String.[] acc n h = tt
IsDecimal-of_value (String.◌∷◌ c s) acc n h =
    elim (Bool-cases (leb b'0' (code c) && leb (code c) b'9')) [
      | inl e ↦ (
        ground arith,
        ground arith,
        IsDecimal-of_value s (acc * 10 + (code c - b'0')) n (rw e at h),
      )
      | inr e ↦ let never : none ≡ some n = rw e at h in cc
    ]

pub itoa-IsDecimal : (n : ℕ) → IsDecimal (itoa n)
unfolding itoa digits_value
itoa-IsDecimal n =
    IsDecimal-of_value (decimal n n "") 0 n (digits_value-decimal n n "" (omega arith))
