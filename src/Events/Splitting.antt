-- ===== src/Events/Splitting.antt =====
-- splitNamespace of events.go is strings.Split by a dot.
use Prim.Native.Char.{Char, code}
use Prim.Native.String.{[] as empty, ◌∷◌ as prepend, ◌++◌ as concat}
use text.Mathlib.TextLemmas.{nil-append, cons-append, append-nil, append_assoc}
use mathlib.Core.List.{append_assoc as list_assoc}
use soothe_client_go.Prelude.{
  String, ◌≡◌, refl, sym, ap, ◌∙◌, List, [], ◌∷◌, ◌++◌, eqb, inl, inr, Bool-cases,
}
use soothe_client_go.TurnId.{split, cons_first}
use soothe_client_go.Events.{split_loop, split_namespace}

-- The text in front of the first part.
glue : String → List String → List String
glue part [] = part ∷ []
glue part (p ∷ ps) = concat part p ∷ ps

glue-cons_first :
    (part : String) (c : Char) (ps : List String)
    → glue (concat part (prepend c "")) ps ≡ glue part (cons_first c ps)
unfolding glue cons_first
glue-cons_first part c [] = refl
glue-cons_first part c (p ∷ ps) =
    ap (λ (q : String). q ∷ ps)
      (append_assoc part (prepend c "") p
        ∙ ap (λ (q : String). concat part q)
            (cons-append c "" p ∙ ap (λ (q : String). prepend c q) (nil-append p)))

split-starts : (s : String) → (p : String) × (ps : List String) × (split "." s ≡ p ∷ ps)
unfolding split
split-starts empty = ("", [], refl)
split-starts (prepend c s) =
    let (p, ps, e) = split-starts s in
    elim (Bool-cases (eqb (code c) 46)) [
      | inl dot ↦ ("", p ∷ ps, rw (dot, e) refl)
      | inr other ↦ (prepend c p, ps, rw (other, e) refl)
    ]

glue-empty : (s : String) → glue "" (split "." s) ≡ split "." s
unfolding glue
glue-empty s = let (p, ps, e) = split-starts s in rw e (ap (λ (q : String). q ∷ ps) (nil-append p))

split_loop-split :
    (parts : List String) (part s : String)
    → split_loop parts part s ≡ parts ++ glue part (split "." s)
unfolding split_loop split glue
split_loop-split parts part empty = ap (λ (q : String). parts ++ q ∷ []) (sym (append-nil part))
split_loop-split parts part (prepend c s) = elim (Bool-cases (eqb (code c) 46)) [
  | inl dot ↦ rw dot (
      split_loop-split (parts ++ part ∷ []) "" s
      ∙ list_assoc parts (part ∷ []) (glue "" (split "." s))
      ∙ ap (λ (l : List String). parts ++ part ∷ l) (glue-empty s)
      ∙ ap (λ (q : String). parts ++ q ∷ split "." s) (sym (append-nil part)))
  | inr other ↦ rw other (
      split_loop-split parts (concat part (prepend c "")) s
      ∙ ap (λ (l : List String). parts ++ l) (glue-cons_first part c (split "." s)))
]

-- splitNamespace, which walks the bytes, gives the parts that strings.Split gives for the separator
-- ".", which EventMessage.NamespaceParts uses for the same namespaces.
pub split_namespace-split : (ns : String) → split_namespace ns ≡ split "." ns
unfolding split_namespace
split_namespace-split ns = split_loop-split [] "" ns ∙ glue-empty ns
