-- ===== src/Appkit/Broadcaster/Counts.antt =====
-- appkit/broadcaster.go: how often a channel stands in the lists of the broadcaster.
use soothe_client_go.Prelude.{
  ℕ, ◌+◌, ◌≤◌, String, ◌≡◌, refl, ap, subst, Option, none, List, [], ◌∷◌, ◌++◌, ◌==◌, eq_iff, arith,
  length, lookup, insert, delete, eqb, ltb, inl, inr, Bool-cases, if_cases, Distinct, delete-absent,
  if◌then◌else◌,
}
use soothe_client_go.Appkit.Broadcaster.{
  SseEvent, Channel, Broadcaster, channel_capacity, subs_or_none, drop_channel, offer_all, chans_of,
  all_chans,
}

-- How often a number stands in a list
unfoldable pub occurs : ℕ → List ℕ → ℕ
occurs c [] = 0
occurs c (d ∷ l) = (if eqb d c then 1 else 0) + occurs c l

pub occurs-append : (c : ℕ) (xs ys : List ℕ) → occurs c (xs ++ ys) ≡ occurs c xs + occurs c ys
unfolding occurs
occurs-append c [] ys = omega arith
occurs-append c (x ∷ xs) ys = omega (arith, occurs-append c xs ys)

pub chans_of-append : (xs ys : List Channel) → chans_of (xs ++ ys) ≡ chans_of xs ++ chans_of ys
chans_of-append [] ys = refl
chans_of-append (x ∷ xs) ys = ap (λ l. x.chan ∷ l) (chans_of-append xs ys)

pub chans_of-offer_all :
    (ev : SseEvent) (subs : List Channel) → chans_of (offer_all ev subs) ≡ chans_of subs
unfolding offer_all
chans_of-offer_all ev [] = refl
chans_of-offer_all ev (c ∷ subs) =
    if_cases (λ (d : Channel). d.chan ∷ chans_of (offer_all ev subs) ≡ c.chan ∷ chans_of subs)
      (ltb (length c.queue) channel_capacity) _ _
      (λ _. ap (λ l. c.chan ∷ l) (chans_of-offer_all ev subs))
      (λ _. ap (λ l. c.chan ∷ l) (chans_of-offer_all ev subs))

pub drop_channel-occurs :
    (c ch : ℕ) (subs : List Channel)
    → occurs c (chans_of (drop_channel ch subs).0) + occurs c (drop_channel ch subs).1
      ≡ occurs c (chans_of subs)
unfolding drop_channel occurs
drop_channel-occurs c ch [] = refl
drop_channel-occurs c ch (d ∷ subs) =
    if_cases
      (λ (out : List Channel × List ℕ).
        occurs c (chans_of out.0) + occurs c out.1 ≡ occurs c (d.chan ∷ chans_of subs))
      (eqb d.chan ch) _ _ (λ _. omega arith) (λ _. omega (arith, drop_channel-occurs c ch subs))

module _ (c : ℕ) where
  abbrev pub count : List (String × List Channel) → ℕ
  count m = occurs c (all_chans m)

  abbrev pub under : Option (List Channel) → ℕ
  under found = occurs c (chans_of (subs_or_none found))

  pub count-insert :
      (key : String) (subs : List Channel) (m : List (String × List Channel))
      → count (insert key subs m) + under (lookup key m) ≡ count m + occurs c (chans_of subs)
  unfolding insert lookup occurs
  count-insert key subs [] = omega (arith, occurs-append c (chans_of subs) [])
  count-insert key subs ((k, old) ∷ m) = elim (Bool-cases (k == key)) [
    | inl e ↦ rw e (
        omega (
          arith,
          occurs-append c (chans_of subs) (all_chans m),
          occurs-append c (chans_of old) (all_chans m),
        ))
    | inr e ↦ rw e (
        omega (
          arith,
          occurs-append c (chans_of old) (all_chans (insert key subs m)),
          occurs-append c (chans_of old) (all_chans m),
          count-insert key subs m,
        ))
  ]

  pub count-delete :
      (key : String) (m : List (String × List Channel))
      → Distinct m
      → count (delete key m) + under (lookup key m) ≡ count m
  unfolding delete lookup occurs
  count-delete key [] d = omega arith
  count-delete key ((k, old) ∷ m) (fresh, d) = elim (Bool-cases (k == key)) [
    | inl e ↦
        rw (e, delete-absent key m (subst (λ j. lookup j m ≡ none) ((eq_iff k key).0 e) fresh))
          (omega (arith, occurs-append c (chans_of old) (all_chans m)))
    | inr e ↦ rw e (
        omega (
          arith,
          occurs-append c (chans_of old) (all_chans (delete key m)),
          occurs-append c (chans_of old) (all_chans m),
          count-delete key m d,
        ))
  ]

-- How often a channel is there, open or closed
abbrev pub seen : ℕ → Broadcaster → ℕ
seen c b = occurs c (all_chans b.subscribers) + occurs c b.closed

-- The keys differ, a channel is there once at most, and the ones to come are not there.
abbrev pub Inv : Broadcaster → Type 0
Inv b =
    Distinct b.subscribers × ((c : ℕ) → seen c b ≤ 1) × ((c : ℕ) → b.next_chan ≤ c → seen c b ≡ 0)
