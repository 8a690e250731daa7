-- ===== src/Verbosity.antt =====
-- verbosity.go: what is shown at which verbosity. A tier and a level are ints.
use soothe_client_go.Prelude.{
  String, ◌≡◌, Bool, true, false, none, some, List, [], ◌∷◌, lookup, arith, refl, inl, inr,
  Bool-cases, if◌then◌else◌,
}
use soothe_client_go.Prelude.Int.{ℤ, pos, negsuc, leb_ℤ, eqb_ℤ}

-- TierQuiet, TierNormal, TierDetailed, TierDebug and TierInternal
abbrev pub tier_quiet : ℤ
tier_quiet = pos 0

abbrev pub tier_internal : ℤ
tier_internal = pos 99

-- verbosityLevelValues
abbrev pub verbosity_level_values : List (String × ℤ)
verbosity_level_values = ("quiet", pos 0) ∷ ("normal", pos 1) ∷ ("debug", pos 3) ∷ []

-- `level`, which is that of normal for an unknown verbosity
unfoldable pub level_of : String → ℤ
level_of verbosity = elim (lookup verbosity verbosity_level_values) [
  | none ↦ pos 1
  | some level ↦ level
]

-- ShouldShow
unfoldable pub should_show : ℤ → String → Bool
should_show tier verbosity =
    if eqb_ℤ tier tier_internal then false else leb_ℤ tier (level_of verbosity)

-- IsValidVerbosityLevel
unfoldable pub is_valid_verbosity_level : String → Bool
is_valid_verbosity_level s = elim (lookup s verbosity_level_values) [
  | none ↦ false
  | some level ↦ true
]

leb_ℤ-trans : (i j k : ℤ) → leb_ℤ i j ≡ true → leb_ℤ j k ≡ true → leb_ℤ i k ≡ true
leb_ℤ-trans (pos i) (pos j) (pos k) h g = ground arith
leb_ℤ-trans (negsuc i) (pos j) (pos k) h g = refl
leb_ℤ-trans (negsuc i) (negsuc j) (pos k) h g = refl
leb_ℤ-trans (negsuc i) (negsuc j) (negsuc k) h g = ground arith
leb_ℤ-trans (pos i) (pos j) (negsuc k) h g = cc
leb_ℤ-trans (pos i) (negsuc j) k h g = cc
leb_ℤ-trans (negsuc i) (pos j) (negsuc k) h g = cc

-- What is shown at one verbosity is shown at every verbosity of a level that is not lower.
pub should_show_mono :
    (tier : ℤ) (low high : String)
    → leb_ℤ (level_of low) (level_of high) ≡ true
    → should_show tier low ≡ true
    → should_show tier high ≡ true
unfolding should_show
should_show_mono tier low high le shown = elim (Bool-cases (eqb_ℤ tier tier_internal)) [
  | inl e ↦ cc (rw e at shown)
  | inr e ↦ rw e (leb_ℤ-trans tier (level_of low) (level_of high) (rw e at shown) le)
]
