-- ===== src/Prelude/Runes.antt =====
-- A Go string as its runes.
use Prim.Native.Nat.{ℕ, zero, suc, ◌+◌, ◌≤◌}
use Prim.Native.String.{String, [], ◌∷◌, ◌++◌ as concat}
use Prim.Native.Char.{Char}
use mathlib.Core.Bool.{true}
use soothe_client_go.Prelude.Tests.{if_cases}
use soothe_client_go.Prelude.Text.{
  is_space, trim_left, keep_right, trim_right, trim_space, has_prefix,
}
use mathlib.Core.Path.{◌≡◌, refl}
use text.Mathlib.TextLemmas.{nil-append, cons-append}
use native.Mathlib.Omega.{arith}

-- `len([]rune(s))`
unfoldable pub rune_count : String → ℕ
rune_count [] = 0
rune_count (c ∷ s) = suc (rune_count s)

-- `string([]rune(s)[:n])`
unfoldable pub take_runes : ℕ → String → String
take_runes zero s = []
take_runes (suc n) [] = []
take_runes (suc n) (c ∷ s) = c ∷ take_runes n s

pub rune_count-take_runes : (n : ℕ) (s : String) → rune_count (take_runes n s) ≤ n
unfolding rune_count take_runes
rune_count-take_runes zero s = omega arith
rune_count-take_runes (suc n) [] = omega arith
rune_count-take_runes (suc n) (c ∷ s) = omega (arith, rune_count-take_runes n s)

pub rune_count-concat : (s t : String) → rune_count (concat s t) ≡ rune_count s + rune_count t
unfolding rune_count
rune_count-concat [] t = rw nil-append (omega arith)
rune_count-concat (c ∷ s) t = rw cons-append (omega (arith, rune_count-concat s t))

-- What is left of `s` behind its first runes, as many as `prefix` has
unfoldable pub drop_prefix : String → String → String
drop_prefix s [] = s
drop_prefix [] (p ∷ ps) = []
drop_prefix (c ∷ s) (p ∷ ps) = drop_prefix s ps

pub rune_count-trim_left : (s : String) → rune_count (trim_left s) ≤ rune_count s
unfolding rune_count trim_left
rune_count-trim_left [] = omega arith
rune_count-trim_left (c ∷ s) =
    if_cases (λ (t : String). rune_count t ≤ suc (rune_count s)) (is_space c) _ _
      (λ _. omega (arith, rune_count-trim_left s)) (λ _. omega arith)

rune_count-keep_right : (c : Char) (s : String) → rune_count (keep_right c s) ≤ suc (rune_count s)
unfolding rune_count keep_right
rune_count-keep_right c [] =
    if_cases (λ (t : String). rune_count t ≤ 1) (is_space c) _ _ (λ _. omega arith)
      (λ _. omega arith)
rune_count-keep_right c (d ∷ s) = omega arith

rune_count-trim_right : (s : String) → rune_count (trim_right s) ≤ rune_count s
unfolding rune_count trim_right
rune_count-trim_right [] = omega arith
rune_count-trim_right (c ∷ s) =
    omega (arith, rune_count-keep_right c (trim_right s), rune_count-trim_right s)

pub rune_count-trim_space : (s : String) → rune_count (trim_space s) ≤ rune_count s
unfolding trim_space
rune_count-trim_space s = omega (arith, rune_count-trim_right (trim_left s), rune_count-trim_left s)

pub has_prefix-concat : (p s : String) → has_prefix (concat p s) p ≡ true
unfolding has_prefix
has_prefix-concat [] s = refl
has_prefix-concat (c ∷ p) s = rw cons-append (ground (arith, has_prefix-concat p s))

pub drop_prefix-concat : (p s : String) → drop_prefix (concat p s) p ≡ s
unfolding drop_prefix
drop_prefix-concat [] s = nil-append s
drop_prefix-concat (c ∷ p) s = rw cons-append (drop_prefix-concat p s)
