-- ===== src/Prelude/Decimal.antt =====
-- strconv.Itoa and strconv.Atoi of Go, on a machine with 64-bit `int`.
use Prim.Native.Char.{Char, code}
use Prim.Native.String.{[], ◌∷◌, String}
use Prim.Native.Nat.{ℕ, zero, suc, ◌+◌, ◌-◌, ◌*◌, ◌/◌, ◌%◌, ◌^◌, ◌≤◌, ◌<◌}
use mathlib.Core.Path.{◌≡◌, refl, ◌∙◌, ap}
use mathlib.Core.Logic.{inl, inr}
use mathlib.Core.Bool.{Bool, true, false, ◌&&◌}
use mathlib.Core.Option
use mathlib.Core.Option.{Option, none, some}
use native.Mathlib.Omega.{arith}
use soothe_client_go.Prelude.Tests.{leb, eqb, if◌then◌else◌, Bool-cases}
use soothe_client_go.Prelude.Int.{ℤ, pos, negsuc, negate}
use soothe_client_go.Prelude.Text.{is_space, trim_right, keep_right}

abbrev digit_char : ℕ → Char
digit_char zero = "0"
digit_char (suc zero) = "1"
digit_char (suc (suc zero)) = "2"
digit_char (suc (suc (suc zero))) = "3"
digit_char (suc (suc (suc (suc zero)))) = "4"
digit_char (suc (suc (suc (suc (suc zero))))) = "5"
digit_char (suc (suc (suc (suc (suc (suc zero)))))) = "6"
digit_char (suc (suc (suc (suc (suc (suc (suc zero))))))) = "7"
digit_char (suc (suc (suc (suc (suc (suc (suc (suc zero)))))))) = "8"
digit_char (suc (suc (suc (suc (suc (suc (suc (suc (suc n))))))))) = "9"

-- The digits of `n` in front of `tail`; `n < fuel` is enough fuel.
emit : ℕ → ℕ → String → String
emit zero n tail = tail
emit (suc fuel) n tail =
    let longer = emit fuel (n / 10) (digit_char (n % 10) ∷ tail) in
    if eqb (n / 10) 0 then digit_char (n % 10) ∷ tail else longer

unfoldable pub decimal : ℕ → String
unfolding emit
decimal n = emit (suc n) n []

-- strconv.Itoa
unfoldable pub itoa : ℤ → String
unfolding decimal
itoa (pos n) = decimal n
itoa (negsuc n) = "-" ∷ decimal (suc n)

is_digit : Char → Bool
is_digit c = leb 48 (code c) && leb (code c) 57

read_digits : ℕ → String → Option ℕ
unfolding is_digit
read_digits n [] = some n
read_digits n (c ∷ s) =
    let rest = read_digits (n * 10 + (code c - 48)) s in if is_digit c then rest else none

unsigned : String → Option ℕ
unfolding read_digits
unsigned [] = none
unsigned (c ∷ s) = read_digits 0 (c ∷ s)

abbrev max_int : ℕ
max_int = 2 ^ 63 - 1

at_most : ℕ → Option ℕ → Option ℕ
at_most bound none = none
at_most bound (some n) = if leb n bound then some n else none

-- strconv.Atoi, `none` for an error: no digits, another character, or out of range
unfoldable pub atoi : String → Option ℤ
unfolding unsigned at_most
atoi [] = none
atoi (c ∷ s) =
    if eqb (code c) 45
    then Option.map negate (at_most (max_int + 1) (unsigned s))
    else if eqb (code c) 43
    then Option.map pos (at_most max_int (unsigned s))
    else Option.map pos (at_most max_int (unsigned (c ∷ s)))

code-digit_char : (n : ℕ) → n < 10 → code (digit_char n) ≡ 48 + n
code-digit_char zero h = refl
code-digit_char (suc zero) h = refl
code-digit_char (suc (suc zero)) h = refl
code-digit_char (suc (suc (suc zero))) h = refl
code-digit_char (suc (suc (suc (suc zero)))) h = refl
code-digit_char (suc (suc (suc (suc (suc zero))))) h = refl
code-digit_char (suc (suc (suc (suc (suc (suc zero)))))) h = refl
code-digit_char (suc (suc (suc (suc (suc (suc (suc zero))))))) h = refl
code-digit_char (suc (suc (suc (suc (suc (suc (suc (suc zero)))))))) h = refl
code-digit_char (suc (suc (suc (suc (suc (suc (suc (suc (suc n))))))))) h = omega arith

is_digit-digit_char : (n : ℕ) → n < 10 → is_digit (digit_char n) ≡ true
unfolding is_digit
is_digit-digit_char n h = ground (arith, code-digit_char n h)

read_digits-digit :
    (a n : ℕ) (s : String) → n < 10 → read_digits a (digit_char n ∷ s) ≡ read_digits (a * 10 + n) s
read_digits-digit a n s h =
    unfold read_digits in
    rw (is_digit-digit_char n h)
      (ap (λ (m : ℕ). read_digits m s) (omega (arith, code-digit_char n h)))

read_digits-emit :
    (fuel n : ℕ) (s : String) → n < fuel → read_digits 0 (emit fuel n s) ≡ read_digits n s
unfolding emit
read_digits-emit zero n s h = absurd (omega arith)
read_digits-emit (suc fuel) n s h = elim (Bool-cases (eqb (n / 10) 0)) [
  | inl done ↦ rw done (
      read_digits-digit 0 (n % 10) s (omega arith) ∙ ap (λ (m : ℕ). read_digits m s) (ground arith))
  | inr more ↦ rw more (
      read_digits-emit fuel (n / 10) (digit_char (n % 10) ∷ s) (ground arith)
      ∙ read_digits-digit (n / 10) (n % 10) s (omega arith)
      ∙ ap (λ (m : ℕ). read_digits m s) (omega arith))
]

-- Every character of the text is a digit.
abbrev pub AllDigits : String → Type 0
AllDigits [] = Unit
AllDigits (c ∷ s) = (48 ≤ code c) × (code c ≤ 57) × AllDigits s

emit-AllDigits : (fuel n : ℕ) (s : String) → AllDigits s → AllDigits (emit fuel n s)
unfolding emit
emit-AllDigits zero n s h = h
emit-AllDigits (suc fuel) n s h =
    let digit = code-digit_char (n % 10) (omega arith) in
    let here : AllDigits (digit_char (n % 10) ∷ s) =
      (omega (arith, digit), omega (arith, digit), h) in
    elim (Bool-cases (eqb (n / 10) 0)) [
      | inl done ↦ rw done here
      | inr more ↦ rw more (emit-AllDigits fuel (n / 10) (digit_char (n % 10) ∷ s) here)
    ]

emit-cons :
    (fuel n : ℕ) (c : Char) (s : String) → (d : Char) × (t : String) × (emit fuel n (c ∷ s) ≡ d ∷ t)
unfolding emit
emit-cons zero n c s = (c, s, refl)
emit-cons (suc fuel) n c s = elim (Bool-cases (eqb (n / 10) 0)) [
  | inl done ↦ rw done (digit_char (n % 10), c ∷ s, refl)
  | inr more ↦ rw more (emit-cons fuel (n / 10) (digit_char (n % 10)) (c ∷ s))
]

pub decimal-cons : (n : ℕ) → (d : Char) × (t : String) × (decimal n ≡ d ∷ t)
unfolding decimal emit
decimal-cons n = elim (Bool-cases (eqb (n / 10) 0)) [
  | inl done ↦ rw done (digit_char (n % 10), [], refl)
  | inr more ↦ rw more (emit-cons n (n / 10) (digit_char (n % 10)) [])
]

pub decimal-AllDigits : (n : ℕ) → AllDigits (decimal n)
unfolding decimal
decimal-AllDigits n = emit-AllDigits (suc n) n [] tt

atoi-digits :
    (c : Char) (t : String) (n : ℕ)
    → AllDigits (c ∷ t)
    → read_digits 0 (c ∷ t) ≡ some n
    → n ≤ max_int
    → atoi (c ∷ t) ≡ some (pos n)
unfolding atoi
atoi-digits c t n (low, high, digits) e h =
    rw (not_eqb (code c) 45 (omega arith), not_eqb (code c) 43 (omega arith))
      (ap (λ (o : Option ℕ). Option.map pos (at_most max_int o)) e ∙ ground arith)
  where
    not_eqb : (a b : ℕ) → b < a → eqb a b ≡ false
    not_eqb a b lt = ground arith

-- Atoi reads back what Itoa prints, up to the greatest `int`.
pub atoi-decimal : (n : ℕ) → n ≤ max_int → atoi (decimal n) ≡ some (pos n)
atoi-decimal n h =
    let (c, t, e) = decimal-cons n in
    rw e (
      atoi-digits c t n (rw e at (decimal-AllDigits n))
        (rw (← e) (unfold decimal read_digits in read_digits-emit (suc n) n [] (omega arith))) h)

is_space-digit : (c : Char) → 48 ≤ code c → code c ≤ 57 → is_space c ≡ false
unfolding is_space
is_space-digit c low high = ground arith

keep_right-digit : (c : Char) (s : String) → is_space c ≡ false → keep_right c s ≡ c ∷ s
unfolding keep_right
keep_right-digit c [] h = rw h
keep_right-digit c (d ∷ s) h = refl

pub trim_right-AllDigits : (s : String) → AllDigits s → trim_right s ≡ s
unfolding trim_right
trim_right-AllDigits [] h = refl
trim_right-AllDigits (c ∷ s) (low, high, digits) =
    rw (trim_right-AllDigits s digits) (keep_right-digit c s (is_space-digit c low high))
