-- ===== src/TurnId/RoundTrip.antt =====
-- Turn ids read back: ParseTurnGeneration after FormatTurnID.
use Prim.Native.Char.{code}
use Prim.Native.String.{[] as empty, ◌∷◌ as prepend, ◌++◌ as concat}
use text.Mathlib.TextLemmas.{nil-append, cons-append, cons-ne-nil}
use soothe_client_go.Prelude.{
  ℕ, ◌≤◌, ◌<◌, ◌^◌, ◌-◌, String, ◌≡◌, ◌≢◌, refl, ap, true, false, List, [], ◌∷◌, ◌++◌, ◌==◌, eqb,
  inl, inr, some, trim_space, trim_right, keep_right, is_space, contains, trim_space-concat, ne→==,
  Bool-cases, arith,
}
use soothe_client_go.Prelude.Int.{pos, is_positive}
use soothe_client_go.Prelude.Decimal.{
  decimal, itoa, atoi, AllDigits, decimal-AllDigits, atoi-decimal, trim_right-AllDigits,
}
use soothe_client_go.TurnId.{split, last_part, format_turn_id, parse_turn_generation}

split-AllDigits : (s : String) → AllDigits s → split ":" s ≡ s ∷ []
unfolding split
split-AllDigits empty h = refl
split-AllDigits (prepend c s) (low, high, digits) =
    rw (not_colon (code c) high, split-AllDigits s digits)
  where
    not_colon : (n : ℕ) → n ≤ 57 → eqb n 58 ≡ false
    not_colon n le = ground arith

-- Behind the last colon stands the text that has none.
split-concat :
    (s d : String)
    → AllDigits d
    → (p : String) × (ps : List String) × (split ":" (concat s (prepend ":" d))
        ≡ p ∷ (ps ++ d ∷ []))
unfolding split
split-concat empty d h =
    ("", [], rw nil-append (ap (λ (l : List String). "" ∷ l) (split-AllDigits d h)))
split-concat (prepend c s) d h =
    let (p, ps, e) = split-concat s d h in
    elim (Bool-cases (eqb (code c) 58)) [
      | inl sep ↦ ("", p ∷ ps, rw cons-append (rw (sep, e)))
      | inr other ↦ (prepend c p, ps, rw cons-append (rw (other, e)))
    ]

last_part-append : (p : String) (ps : List String) (d : String) → last_part (p ∷ (ps ++ d ∷ [])) ≡ d
unfolding last_part
last_part-append p [] d = refl
last_part-append p (q ∷ ps) d = last_part-append q ps d

contains-colon : (s d : String) → contains (concat s (prepend ":" d)) ":" ≡ true
unfolding contains
contains-colon empty d = rw nil-append
contains-colon (prepend c s) d = rw cons-append (rw (contains-colon s d) (ground arith))

last_part-split :
    (s d : String) → AllDigits d → last_part (split ":" (concat s (prepend ":" d))) ≡ d
last_part-split s d h = let (p, ps, e) = split-concat s d h in rw e (last_part-append p ps d)

trim_right-suffix : (d : String) → AllDigits d → trim_right (prepend ":" d) ≡ prepend ":" d
unfolding trim_right keep_right is_space
trim_right-suffix d h = rw (trim_right-AllDigits d h) (keep_colon d)
  where
    keep_colon : (s : String) → keep_right ":" s ≡ prepend ":" s
    keep_colon empty = refl
    keep_colon (prepend c s) = refl

ne-empty_concat : (s d : String) → (concat s (prepend ":" d) == "") ≡ false
ne-empty_concat s d = ne→== (concat s (prepend ":" d)) "" (not_empty s)
  where
    not_empty : (r : String) → concat r (prepend ":" d) ≢ ""
    not_empty empty e = cons-ne-nil ":" d (rw nil-append at e)
    not_empty (prepend c r) e = cons-ne-nil c (concat r (prepend ":" d)) (rw cons-append at e)

parse-concat :
    (l d : String) (n : ℕ)
    → trim_space l ≢ ""
    → AllDigits d
    → atoi d ≡ some (pos n)
    → 0 < n
    → parse_turn_generation (concat (trim_space l) (prepend ":" d)) ≡ pos n
unfolding parse_turn_generation
parse-concat l d n some_loop digits read positive =
    rw (trim_space-concat l (trim_space l) ":" d refl some_loop (trim_right-suffix d digits)) (
      rw (contains-colon (trim_space l) d, last_part-split (trim_space l) d digits, read)
        (rw (ne-empty_concat (trim_space l) d) (ground arith)))

-- For a loop id that is not blank and a generation from 1 to the greatest `int`, the id that
-- FormatTurnID makes reads back as that generation in ParseTurnGeneration.
pub parse_turn_generation-format_turn_id :
    (loop_id : String) (n : ℕ)
    → trim_space loop_id ≢ ""
    → 0 < n
    → n ≤ 2 ^ 63 - 1
    → parse_turn_generation (format_turn_id loop_id (pos n)) ≡ pos n
unfolding format_turn_id itoa
parse_turn_generation-format_turn_id loop_id n some_loop positive fits =
    rw (ne→== (trim_space loop_id) "" some_loop) (
      rw (is_positive_pos n positive) (
        rw (prepend_colon (decimal n)) (
          parse-concat loop_id (decimal n) n some_loop (decimal-AllDigits n) (atoi-decimal n fits)
            positive)))
  where
    is_positive_pos : (m : ℕ) → 0 < m → is_positive (pos m) ≡ true
    is_positive_pos m h = ground arith

    prepend_colon : (d : String) → concat ":" d ≡ prepend ":" d
    prepend_colon d = rw (cons-append ":" empty d, nil-append)
