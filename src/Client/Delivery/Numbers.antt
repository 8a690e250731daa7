-- ===== src/Client/Delivery/Numbers.antt =====
-- client.go: what holds of the numbers of delivery acknowledgements, and lemmas on the lists of them.
use mathlib.Core.List.{Perm}
use soothe_client_go.Prelude.{
  ℕ, ◌≤◌, ◌<◌, String, ◌≡◌, ◌⊎◌, refl, ap, List, [], ◌∷◌, ◌++◌, ◌==◌, arith, insert, lookup-insert,
  if◌then◌else◌, inl, inr,
}
use soothe_client_go.Client.Delivery.{Counters, count_of, Delivery}

-- The counter that a lookup stands for; `count_of k m` is `counter (lookup k m)`.
pub count_of-insert :
    (k j : String) (n : ℕ) (m : Counters)
    → count_of j (insert k n m) ≡ (if k == j then n else count_of j m)
unfolding count_of
count_of-insert k j n m = ground (arith, lookup-insert k j n m)

-- Every entry is at most the counter of its loop.
abbrev pub AllWithin : Counters → List (String × ℕ) → Type 0
AllWithin m [] = Unit
AllWithin m ((k, n) ∷ l) = (n ≤ count_of k m) × AllWithin m l

-- No acknowledgement of the loop in the list reaches `n`.
abbrev Above : String → ℕ → List (String × ℕ) → Type 0
Above k n [] = Unit
Above k n ((j, m) ∷ l) = (j ≡ k → m < n) × Above k n l

-- Newest first: each acknowledgement is above all earlier ones of its loop.
abbrev Increasing : List (String × ℕ) → Type 0
Increasing [] = Unit
Increasing ((k, n) ∷ l) = Above k n l × Increasing l

abbrev pub Holds : String → ℕ → List (String × ℕ) → Type 0
Holds k n [] = ⊥
Holds k n ((j, m) ∷ l) = ((j ≡ k) × (m ≡ n)) ⊎ Holds k n l

-- A counter is never ahead of the frames, and it is at the last frame of its loop or a task with that
-- number waits; the numbers that the tasks set strictly increase for each loop; and each of them waits
-- for its Notify or has had it, once.
pub record Inv (d : Delivery) : Type 0 where
  pub acked_le : (k : String) → count_of k d.acked_seq ≤ count_of k d.recv_seq
  pub tasks_le : AllWithin d.recv_seq d.tasks
  pub claimed_le : AllWithin d.acked_seq d.claimed
  pub increasing : Increasing d.claimed
  pub notified : Perm d.claimed (d.sending ++ d.sent)
  pub current :
      (k : String)
      → (count_of k d.acked_seq ≡ count_of k d.recv_seq) ⊎ Holds k (count_of k d.recv_seq) d.tasks

pub AllWithin-mono :
    (m n : Counters) (l : List (String × ℕ))
    → ((k : String) → count_of k m ≤ count_of k n)
    → AllWithin m l
    → AllWithin n l
AllWithin-mono m n [] h w = tt
AllWithin-mono m n ((k, i) ∷ l) h (first, rest) = (omega (arith, h k), AllWithin-mono m n l h rest)

pub AllWithin-append :
    (m : Counters) (k l : List (String × ℕ)) → AllWithin m k → AllWithin m l → AllWithin m (k ++ l)
AllWithin-append m [] l a b = b
AllWithin-append m ((j, i) ∷ k) l (first, rest) b = (first, AllWithin-append m k l rest b)

-- The task in the middle, and the tasks round it.
pub AllWithin-middle :
    (m : Counters) (before : List (String × ℕ)) (k : String) (n : ℕ) (after : List (String × ℕ))
    → AllWithin m (before ++ (k, n) ∷ after)
    → (n ≤ count_of k m) × AllWithin m (before ++ after)
AllWithin-middle m [] k n after w = w
AllWithin-middle m ((j, i) ∷ before) k n after (first, rest) =
    let (here', others) = AllWithin-middle m before k n after rest in (here', (first, others))

pub Above-within :
    (m : Counters) (k : String) (n : ℕ) (l : List (String × ℕ))
    → AllWithin m l
    → count_of k m < n
    → Above k n l
Above-within m k n [] w h = tt
Above-within m k n ((j, i) ∷ l) (first, rest) h = (
  (λ e. omega (arith, h, first, ap (λ (x : String). count_of x m) e)),
  Above-within m k n l rest h,
)

pub Holds-append_left :
    (k : String) (n : ℕ) (l r : List (String × ℕ)) → Holds k n l → Holds k n (l ++ r)
Holds-append_left k n [] r h = absurd h
Holds-append_left k n ((j, i) ∷ l) r (inl h) = inl h
Holds-append_left k n ((j, i) ∷ l) r (inr h) = inr (Holds-append_left k n l r h)

pub Holds-last : (k : String) (n : ℕ) (l : List (String × ℕ)) → Holds k n (l ++ (k, n) ∷ [])
Holds-last k n [] = inl (refl, refl)
Holds-last k n ((j, i) ∷ l) = inr (Holds-last k n l)

pub Holds-middle :
    (k : String) (n : ℕ) (before : List (String × ℕ)) (j : String) (i : ℕ)
    (after : List (String × ℕ))
    → Holds k n (before ++ (j, i) ∷ after)
    → ((j ≡ k) × (i ≡ n)) ⊎ Holds k n (before ++ after)
Holds-middle k n [] j i after h = h
Holds-middle k n ((x, y) ∷ before) j i after (inl h) = inr (inl h)
Holds-middle k n ((x, y) ∷ before) j i after (inr h) = elim (Holds-middle k n before j i after h) [
  | inl e ↦ inl e
  | inr r ↦ inr (inr r)
]
