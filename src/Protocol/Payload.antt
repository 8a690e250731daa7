-- ===== src/Protocol/Payload.antt =====
-- protocol.go: SplitSootheWirePayload.
use Prim.Native.Char.{Char, code}
use Prim.Native.String.{[] as empty, ◌∷◌ as prepend}
use soothe_client_go.Prelude.{
  String, ◌≡◌, ◌≢◌, refl, sym, ap, ◌∙◌, false, Bool-cases, inl, inr, List, [], ◌∷◌, ◌==◌, eqb,
  eq_iff, ne→==, trim_space, is_space, keep_right, trim_left, trim_right, subst, StartsClean,
  trim_space-StartsClean, ◌↔◌, trim_space_idem, arith, if◌then◌else◌,
}
use soothe_client_go.TurnId.{split, cons_first}

-- The loop over the lines
unfoldable pub trimmed_lines : List String → List String
trimmed_lines [] = []
trimmed_lines (line ∷ lines) =
    let more = trimmed_lines lines in let t = trim_space line in if t == "" then more else t ∷ more

-- `if len(out) == 0 { return [][]byte{data} }`
unfoldable pub or_whole : String → List String → List String
or_whole whole [] = whole ∷ []
or_whole whole (x ∷ xs) = x ∷ xs

-- SplitSootheWirePayload
unfoldable pub split_soothe_wire_payload : String → List String
unfolding trimmed_lines or_whole
split_soothe_wire_payload data' =
    let s = trim_space data' in
    if s == "" then [] else or_whole data' (trimmed_lines (split "\n" s))

-- Each line is trimmed and not empty.
abbrev pub AreLines : List String → Type 0
AreLines [] = Unit
AreLines (line ∷ lines) = (trim_space line ≡ line) × (line ≢ "") × AreLines lines

trimmed_lines-AreLines : (lines : List String) → AreLines (trimmed_lines lines)
unfolding trimmed_lines
trimmed_lines-AreLines [] = tt
trimmed_lines-AreLines (line ∷ lines) = elim (Bool-cases (trim_space line == "")) [
  | inl e ↦ rw e (trimmed_lines-AreLines lines)
  | inr e ↦ rw e (
    trim_space_idem line,
    (λ h. cc ((eq_iff (trim_space line) "").1 h)),
    trimmed_lines-AreLines lines,
  )
]

abbrev Starts : String → Type 0
Starts empty = ⊥
Starts (prepend c s) = Unit

kept_right : (c : Char) (s : String) → is_space c ≡ false → Starts (keep_right c s)
unfolding keep_right
kept_right c empty h = rw h tt
kept_right c (prepend d s) h = tt

trim_left-clean :
    (c : Char) (p : String) → is_space c ≡ false → trim_left (prepend c p) ≡ prepend c p
unfolding trim_left
trim_left-clean c p h = rw h refl

kept_right_all : (c : Char) (p : String) → is_space c ≡ false → Starts (trim_right (prepend c p))
unfolding trim_right
kept_right_all c p h = kept_right c (trim_right p) h

trim_space_lem : (s : String) → trim_space s ≡ trim_right (trim_left s)
unfolding trim_space
trim_space_lem s = refl

kept : (c : Char) (p : String) → is_space c ≡ false → Starts (trim_space (prepend c p))
kept c p h =
    subst Starts (sym (trim_space_lem (prepend c p) ∙ ap trim_right (trim_left-clean c p h)))
      (kept_right_all c p h)

-- A line that starts with another character than white space is kept.
first_line-kept :
    (c : Char) (p : String) → is_space c ≡ false → (trim_space (prepend c p) == "") ≡ false
first_line-kept c p h =
    ne→== (trim_space (prepend c p)) ""
      (λ e. absurd (subst (λ (t : String). Starts t) e (kept c p h)))

starts :
    (c : Char) (l : List String)
    → (p : String) × (ps : List String) × (cons_first c l ≡ prepend c p ∷ ps)
unfolding cons_first
starts c [] = ("", [], refl)
starts c (p ∷ ps) = (p, ps, refl)

split-starts :
    (c : Char) (s : String)
    → eqb (code c) 10 ≡ false
    → (p : String) × (ps : List String) × (split "\n" (prepend c s) ≡ prepend c p ∷ ps)
unfolding split cons_first
split-starts c s h = rw h (starts c (split "\n" s))

clean→not_newline : (c : Char) → is_space c ≡ false → eqb (code c) 10 ≡ false
unfolding is_space
clean→not_newline c h = ground arith

trimmed_lines-keeps :
    (line : String) (lines : List String)
    → (trim_space line == "") ≡ false
    → trimmed_lines (line ∷ lines) ≡ trim_space line ∷ trimmed_lines lines
unfolding trimmed_lines
trimmed_lines-keeps line lines h = rw h refl

-- A text that starts with another character than white space has a line.
lines_there :
    (c : Char) (s : String)
    → is_space c ≡ false
    → (x : String) × (xs : List String) × (trimmed_lines (split "\n" (prepend c s)) ≡ x ∷ xs)
lines_there c s h =
    let (p, ps, e) = split-starts c s (clean→not_newline c h) in
    (
      trim_space (prepend c p),
      trimmed_lines ps,
      ap trimmed_lines e ∙ trimmed_lines-keeps (prepend c p) ps (first_line-kept c p h),
    )

-- The result for the trimmed text `t`
abbrev Splits : String → List String → Type 0
Splits t out = AreLines out × ((out ≡ []) ↔ (t ≡ ""))

or_whole-Splits :
    (whole t : String) (x : String) (xs out : List String)
    → t ≢ ""
    → out ≡ x ∷ xs
    → AreLines out
    → Splits t (or_whole whole out)
unfolding or_whole
or_whole-Splits whole t x xs out named e lines =
    rw e (subst AreLines e lines, ((λ h. cc), (λ h. absurd (named h))))

split_trimmed :
    (whole t : String)
    → StartsClean t
    → Splits t (if t == "" then [] else or_whole whole (trimmed_lines (split "\n" t)))
split_trimmed whole empty h = (tt, ((λ e. refl), (λ e. refl)))
split_trimmed whole (prepend c s) h =
    let named : prepend c s ≢ "" = λ e. cc in
    let (x, xs, e) = lines_there c s h in
    rw (ne→== (prepend c s) "" named)
      (or_whole-Splits whole (prepend c s) x xs _ named e (trimmed_lines-AreLines _))

-- The frames of a payload are trimmed and not empty, and there is none exactly where the payload is
-- blank: the payload itself, untrimmed, is never given back for want of lines.
pub split_soothe_wire_payload-AreLines :
    (whole : String)
    → AreLines (split_soothe_wire_payload whole)
      × ((split_soothe_wire_payload whole ≡ []) ↔ (trim_space whole ≡ ""))
unfolding split_soothe_wire_payload
split_soothe_wire_payload-AreLines whole =
    split_trimmed whole (trim_space whole) (trim_space-StartsClean whole (trim_space whole) refl)
