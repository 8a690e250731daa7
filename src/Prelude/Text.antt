-- ===== src/Prelude/Text.antt =====
-- The functions of Go's package `strings` that the client uses, over native texts.
use Prim.Native.Nat.{ℕ, ◌+◌}
use Prim.Native.Char.{Char, code}
use Prim.Native.String.{String, [], ◌∷◌, ◌++◌ as concat}
use text.Mathlib.TextLemmas.{nil-append, cons-append}
use mathlib.Core.Path.{◌≡◌, refl, subst, ap, ◌∙◌}
use mathlib.Core.Logic.{inl, inr, ◌≢◌}
use mathlib.Core.Bool.{Bool, true, false, ◌&&◌, ◌||◌}
use native.Mathlib.Omega.{arith}
use text.Mathlib.Text.{◌==◌}
use text.Mathlib.TextEquality.{eq_iff}
use soothe_client_go.Prelude.Tests.{leb, eqb, if◌then◌else◌, Bool-cases}

-- unicode.IsSpace
unfoldable pub is_space : Char → Bool
is_space c =
    let n = code c in
    (leb 9 n && leb n 13)
    || eqb n 32
    || eqb n 0x85
    || eqb n 0xa0
    || eqb n 0x1680
    || (leb 0x2000 n && leb n 0x200a)
    || eqb n 0x2028
    || eqb n 0x2029
    || eqb n 0x202f
    || eqb n 0x205f
    || eqb n 0x3000

unfoldable pub trim_left : String → String
trim_left [] = []
trim_left (c ∷ s) = let rest = trim_left s in if is_space c then rest else c ∷ s

-- the step of `trim_right`
unfoldable pub keep_right : Char → String → String
keep_right c [] = if is_space c then [] else c ∷ []
keep_right c (d ∷ s) = c ∷ d ∷ s

unfoldable pub trim_right : String → String
unfolding keep_right
trim_right [] = []
trim_right (c ∷ s) = keep_right c (trim_right s)

-- strings.TrimSpace
unfoldable pub trim_space : String → String
unfolding is_space trim_left trim_right
trim_space s = trim_right (trim_left s)

-- strings.HasPrefix
unfoldable pub has_prefix : String → String → Bool
has_prefix s [] = true
has_prefix [] (p ∷ ps) = false
has_prefix (c ∷ s) (p ∷ ps) = eqb (code c) (code p) && has_prefix s ps

-- `s` ends with the suffix: hasSuffix of appkit/chunk_filter.go, strings.HasSuffix
unfoldable pub has_suffix : String → String → Bool
has_suffix [] suffix = suffix == ""
has_suffix (c ∷ s) suffix = (c ∷ s) == suffix || has_suffix s suffix

-- strings.Contains
unfoldable pub contains : String → String → Bool
unfolding has_prefix
contains [] sub = sub == ""
contains (c ∷ s) sub = has_prefix (c ∷ s) sub || contains s sub

-- The simple case folding of Unicode, as far as it meets ASCII: ſ folds to s and the Kelvin sign
-- to k.
unfoldable pub fold : Char → ℕ
fold c =
    let n = code c in
    if leb 65 n && leb n 90
    then n + 32
    else if eqb n 0x17f
    then 115
    else if eqb n 0x212a
    then 107
    else n

-- strings.EqualFold where one side is ASCII, as at every call of the client
unfoldable pub equal_fold : String → String → Bool
equal_fold [] [] = true
equal_fold [] (d ∷ t) = false
equal_fold (c ∷ s) [] = false
equal_fold (c ∷ s) (d ∷ t) = eqb (fold c) (fold d) && equal_fold s t

-- The lower case of Unicode, as far as it meets ASCII: the Kelvin sign goes to k and İ to i.
lower : Char → ℕ
lower c =
    let n = code c in
    if leb 65 n && leb n 90
    then n + 32
    else if eqb n 0x130
    then 105
    else if eqb n 0x212a
    then 107
    else n

-- `strings.ToLower(s) == t` for an ASCII text `t`
unfoldable pub lowers_to : String → String → Bool
unfolding lower
lowers_to [] [] = true
lowers_to [] (d ∷ t) = false
lowers_to (c ∷ s) [] = false
lowers_to (c ∷ s) (d ∷ t) = eqb (lower c) (code d) && lowers_to s t

trim_left_idem : (s : String) → trim_left (trim_left s) ≡ trim_left s
unfolding trim_left
trim_left_idem [] = refl
trim_left_idem (c ∷ s) = ground (arith, trim_left_idem s)

trim_right-keep_right :
    (c : Char) (r : String) → trim_right r ≡ r → trim_right (keep_right c r) ≡ keep_right c r
unfolding trim_right
trim_right-keep_right c [] h = elim (Bool-cases (is_space c)) [
  | inl e ↦ rw e
  | inr e ↦ rw (e, trim_right, e)
]
trim_right-keep_right c (d ∷ r) h = rw h

trim_right_idem : (s : String) → trim_right (trim_right s) ≡ trim_right s
unfolding trim_right
trim_right_idem [] = refl
trim_right_idem (c ∷ s) = trim_right-keep_right c (trim_right s) (trim_right_idem s)

keep_right_comm :
    (c : Char) (s r : String)
    → trim_left r ≡ trim_right (trim_left s)
    → trim_right s ≡ r
    → trim_left (keep_right c r) ≡ trim_right (if is_space c then trim_left s else c ∷ s)
unfolding trim_left trim_right
keep_right_comm c s [] h e = elim (Bool-cases (is_space c)) [
  | inl p ↦ rw p h
  | inr p ↦ rw p (simp (p, e))
]
keep_right_comm c s (d ∷ r) h e = elim (Bool-cases (is_space c)) [
  | inl p ↦ rw p h
  | inr p ↦ rw p (simp e)
]

trim_left-trim_right : (s : String) → trim_left (trim_right s) ≡ trim_right (trim_left s)
unfolding trim_left trim_right
trim_left-trim_right [] = refl
trim_left-trim_right (c ∷ s) = keep_right_comm c s (trim_right s) (trim_left-trim_right s) refl

pub trim_space_idem : (s : String) → trim_space (trim_space s) ≡ trim_space s
unfolding trim_space
trim_space_idem s =
    rw (trim_left-trim_right (trim_left s), trim_left_idem s) (trim_right_idem (trim_left s))

-- The first character is not white space.
abbrev pub StartsClean : String → Type 0
StartsClean [] = Unit
StartsClean (c ∷ s) = is_space c ≡ false

trim_left-StartsClean : (s : String) → StartsClean (trim_left s)
unfolding trim_left
trim_left-StartsClean [] = tt
trim_left-StartsClean (c ∷ s) = elim (Bool-cases (is_space c)) [
  | inl p ↦ rw p (trim_left-StartsClean s)
  | inr p ↦ rw p p
]

keep_right-StartsClean : (c : Char) (r : String) → is_space c ≡ false → StartsClean (keep_right c r)
unfolding keep_right
keep_right-StartsClean c [] p = rw p p
keep_right-StartsClean c (d ∷ r) p = p

trim_right-StartsClean : (s : String) → StartsClean s → StartsClean (trim_right s)
unfolding trim_right
trim_right-StartsClean [] h = tt
trim_right-StartsClean (c ∷ s) h = keep_right-StartsClean c (trim_right s) h

pub trim_space-StartsClean : (s t : String) → trim_space s ≡ t → StartsClean t
unfolding trim_space
trim_space-StartsClean s t e =
    subst StartsClean e (trim_right-StartsClean (trim_left s) (trim_left-StartsClean s))

keep_right-concat :
    (c : Char) (s : String) (d : Char) (t : String)
    → keep_right c (concat s (d ∷ t)) ≡ c ∷ concat s (d ∷ t)
unfolding keep_right
keep_right-concat c [] d t = rw nil-append
keep_right-concat c (e ∷ s) d t = rw cons-append

trim_right-concat :
    (s : String) (d : Char) (t : String)
    → trim_right (d ∷ t) ≡ d ∷ t
    → trim_right (concat s (d ∷ t)) ≡ concat s (d ∷ t)
unfolding trim_right
trim_right-concat [] d t h = rw nil-append h
trim_right-concat (c ∷ s) d t h =
    rw cons-append (ap (keep_right c) (trim_right-concat s d t h) ∙ keep_right-concat c s d t)

-- What trimming made stays when a text with a clean end is appended to it.
pub trim_space-concat :
    (l s : String) (d : Char) (t : String)
    → trim_space l ≡ s
    → s ≢ ""
    → trim_right (d ∷ t) ≡ d ∷ t
    → trim_space (concat s (d ∷ t)) ≡ concat s (d ∷ t)
unfolding trim_space
trim_space-concat l [] d t e n h = absurd (n refl)
trim_space-concat l (c ∷ s) d t e n h = rw cons-append (
    rw (trim_left, trim_space-StartsClean l (c ∷ s) e)
      (ap (keep_right c) (trim_right-concat s d t h) ∙ keep_right-concat c s d t))

pub differ : (s t : String) → (s == t) ≡ false → s ≢ t
differ s t h e = cc ((eq_iff s t).1 e)

pub ne→== : (s t : String) → s ≢ t → (s == t) ≡ false
ne→== s t h = elim (Bool-cases (s == t)) [ inl e ↦ absurd (h ((eq_iff s t).0 e)) | inr e ↦ e ]

-- Texts that fold to one text fold to each other.
pub equal_fold_right :
    (s t u : String) → equal_fold s t ≡ true → equal_fold s u ≡ true → equal_fold t u ≡ true
unfolding equal_fold
equal_fold_right [] [] [] p q = refl
equal_fold_right [] [] (e ∷ u) p q = cc
equal_fold_right [] (d ∷ t) u p q = cc
equal_fold_right (c ∷ s) [] u p q = cc
equal_fold_right (c ∷ s) (d ∷ t) [] p q = cc
equal_fold_right (c ∷ s) (d ∷ t) (e ∷ u) p q = ground (arith, equal_fold_right s t u)
