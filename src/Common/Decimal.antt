-- ===== src/Common/Decimal.antt =====
-- Decimal texts: `%d`, `strconv.Itoa` and `strconv.Atoi`.
use Prim.Native.Char.{Char, code}
use Prim.Native.String.{String}
use Prim.Native.Nat.{ℕ, zero, suc, ◌+◌, ◌-◌, ◌*◌, ◌/◌, ◌%◌, ◌^◌, ◌<◌}
use mathlib.Core.Path.{◌≡◌, refl, ◌∙◌, ap}
use mathlib.Core.Logic.{inl, inr}
use mathlib.Core.Bool.{Bool, true, ◌&&◌}
use mathlib.Core.Option.{Option, none, some}
use native.Mathlib.Omega.{arith}
use ljfxznode.Common.Tests.{ltb, leb, nat_beq, if◌then◌else◌, Bool-cases, lt→ltb}
use ljfxznode.Common.Int.{ℤ, pos, negsuc, sub_ℕ}

abbrev digit : ℕ → Char
digit zero = "0"
digit (suc zero) = "1"
digit (suc (suc zero)) = "2"
digit (suc (suc (suc zero))) = "3"
digit (suc (suc (suc (suc zero)))) = "4"
digit (suc (suc (suc (suc (suc zero))))) = "5"
digit (suc (suc (suc (suc (suc (suc zero)))))) = "6"
digit (suc (suc (suc (suc (suc (suc (suc zero))))))) = "7"
digit (suc (suc (suc (suc (suc (suc (suc (suc zero)))))))) = "8"
digit (suc (suc (suc (suc (suc (suc (suc (suc (suc n))))))))) = "9"

-- `%d` of a number; the fuel is the number, which has no more digits than that, and one.
unfoldable pub decimal_from : ℕ → ℕ → String → String
decimal_from zero n rest = rest
decimal_from (suc fuel) n rest =
    let more = decimal_from fuel (n / 10) (String.◌∷◌ (digit (n % 10)) rest) in
    if ltb n 10 then String.◌∷◌ (digit n) rest else more

unfoldable pub decimal : ℕ → String
unfolding decimal_from
decimal n = decimal_from (suc n) n ""

abbrev is_digit : Char → Bool
is_digit c = leb b'0' (code c) && leb (code c) b'9'

-- The number that the digits of a text continue; `none` is a character that is no digit.
unfoldable pub digits : ℕ → String → Option ℕ
digits acc String.[] = some acc
digits acc (String.◌∷◌ c s) =
    let rest = digits (acc * 10 + (code c - b'0')) s in if is_digit c then rest else none

-- A result of `strconv.Atoi`; out of range it comes with the nearest `int`.
pub data Parsed : Type 0 where
  no_number : Parsed
  out_of_range : ℤ → Parsed
  parsed : ℤ → Parsed

abbrev unsigned : Option ℕ → Parsed
unsigned none = no_number
unsigned (some n) = if ltb n (2 ^ 63) then parsed (pos n) else out_of_range (pos (2 ^ 63 - 1))

abbrev negative : Option ℕ → Parsed
negative none = no_number
negative (some n) =
    if leb n (2 ^ 63) then parsed (sub_ℕ 0 n) else out_of_range (negsuc (2 ^ 63 - 1))

-- The digits after a sign, of which there is one at least.
unfoldable pub digits_of : String → Option ℕ
unfolding digits
digits_of String.[] = none
digits_of (String.◌∷◌ c s) = digits 0 (String.◌∷◌ c s)

unfoldable pub atoi : String → Parsed
unfolding digits_of
atoi String.[] = no_number
atoi (String.◌∷◌ c s) =
    if nat_beq (code c) b'-'
    then negative (digits_of s)
    else (if nat_beq (code c) b'+'
        then unsigned (digits_of s)
        else unsigned (digits 0 (String.◌∷◌ c s)))

digits-digit :
    (acc d : ℕ) (rest : String)
    → d < 10
    → digits acc (String.◌∷◌ (digit d) rest) ≡ digits (acc * 10 + d) rest
unfolding digits
digits-digit acc zero rest h = ap (λ m. digits m rest) (omega arith)
digits-digit acc (suc zero) rest h = ap (λ m. digits m rest) (omega arith)
digits-digit acc (suc (suc zero)) rest h = ap (λ m. digits m rest) (omega arith)
digits-digit acc (suc (suc (suc zero))) rest h = ap (λ m. digits m rest) (omega arith)
digits-digit acc (suc (suc (suc (suc zero)))) rest h = ap (λ m. digits m rest) (omega arith)
digits-digit acc (suc (suc (suc (suc (suc zero))))) rest h = ap (λ m. digits m rest) (omega arith)
digits-digit acc (suc (suc (suc (suc (suc (suc zero)))))) rest h =
    ap (λ m. digits m rest) (omega arith)
digits-digit acc (suc (suc (suc (suc (suc (suc (suc zero))))))) rest h =
    ap (λ m. digits m rest) (omega arith)
digits-digit acc (suc (suc (suc (suc (suc (suc (suc (suc zero)))))))) rest h =
    ap (λ m. digits m rest) (omega arith)
digits-digit acc (suc (suc (suc (suc (suc (suc (suc (suc (suc zero))))))))) rest h =
    ap (λ m. digits m rest) (omega arith)
digits-digit acc (suc (suc (suc (suc (suc (suc (suc (suc (suc (suc n)))))))))) rest h =
    absurd (omega arith)

digits-decimal_from :
    (fuel n : ℕ) (rest : String) → n < fuel → digits 0 (decimal_from fuel n rest) ≡ digits n rest
unfolding decimal_from
digits-decimal_from zero n rest h = absurd (omega arith)
digits-decimal_from (suc fuel) n rest h = elim (Bool-cases (ltb n 10)) [
  | inl small ↦
      rw small (digits-digit 0 n rest (ground arith) ∙ ap (λ m. digits m rest) (omega arith))
  | inr large ↦ rw large (
      digits-decimal_from fuel (n / 10) (String.◌∷◌ (digit (n % 10)) rest) (ground arith)
      ∙ digits-digit (n / 10) (n % 10) rest (omega arith)
      ∙ ap (λ m. digits m rest) (omega arith))
]

-- A text that starts with a digit.
abbrev Numeral : String → Type 0
Numeral String.[] = ⊥
Numeral (String.◌∷◌ c s) = is_digit c ≡ true

digit-Numeral : (d : ℕ) (rest : String) → Numeral (String.◌∷◌ (digit d) rest)
digit-Numeral zero rest = refl
digit-Numeral (suc zero) rest = refl
digit-Numeral (suc (suc zero)) rest = refl
digit-Numeral (suc (suc (suc zero))) rest = refl
digit-Numeral (suc (suc (suc (suc zero)))) rest = refl
digit-Numeral (suc (suc (suc (suc (suc zero))))) rest = refl
digit-Numeral (suc (suc (suc (suc (suc (suc zero)))))) rest = refl
digit-Numeral (suc (suc (suc (suc (suc (suc (suc zero))))))) rest = refl
digit-Numeral (suc (suc (suc (suc (suc (suc (suc (suc zero)))))))) rest = refl
digit-Numeral (suc (suc (suc (suc (suc (suc (suc (suc (suc n))))))))) rest = refl

decimal_from-Numeral :
    (fuel n : ℕ) (rest : String) → Numeral rest → Numeral (decimal_from fuel n rest)
unfolding decimal_from
decimal_from-Numeral zero n rest h = h
decimal_from-Numeral (suc fuel) n rest h = elim (Bool-cases (ltb n 10)) [
  | inl small ↦ rw small (digit-Numeral n rest)
  | inr large ↦ rw large (
      decimal_from-Numeral fuel (n / 10) (String.◌∷◌ (digit (n % 10)) rest)
        (digit-Numeral (n % 10) rest))
]

decimal-Numeral : (n : ℕ) → Numeral (decimal n)
unfolding decimal decimal_from
decimal-Numeral n = elim (Bool-cases (ltb n 10)) [
  | inl small ↦ rw small (digit-Numeral n "")
  | inr large ↦
      rw large (
        decimal_from-Numeral n (n / 10) (String.◌∷◌ (digit (n % 10)) "")
          (digit-Numeral (n % 10) ""))
]

atoi-Numeral : (s : String) → Numeral s → atoi s ≡ unsigned (digits 0 s)
unfolding atoi
atoi-Numeral String.[] h = absurd h
atoi-Numeral (String.◌∷◌ c s) h = ground arith

-- What is printed is read back.
pub atoi-decimal : (n : ℕ) → n < 2 ^ 63 → atoi (decimal n) ≡ parsed (pos n)
unfolding decimal digits
atoi-decimal n h =
    atoi-Numeral (decimal n) (decimal-Numeral n)
    ∙ ap unsigned (digits-decimal_from (suc n) n "" (omega arith))
    ∙ rw (lt→ltb n (2 ^ 63) h) refl
