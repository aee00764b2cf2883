-- ===== src/Feed/Order/Latest.antt =====
-- Sorting a feed keeps its updates and puts them in the order of links/policy_feed.py.
use policy_mesh.Feed.Order.{le_key, insert, sort}
use policy_mesh.Prelude.{
  All-map, text_le_trans, refl, ◌∙◌, inr, text_le-total, ◌||◌, arith, inl, ◌==◌, Bool-cases, [],
  false, map, true, All, String, ◌∷◌, ◌≡◌, List, contains,
}
use policy_mesh.Update.{VillagePolicyUpdate}
use mathlib.Core.List.Perm
use mathlib.Core.List.{Perm}

pub le_key-total : (u v : VillagePolicyUpdate) → le_key u v ≡ false → le_key v u ≡ true
unfolding le_key
le_key-total u v h = ground (arith, text_le-total u.policy_hash v.policy_hash)

module _ (P : VillagePolicyUpdate → Type 0) where
  All-insert :
      (u : VillagePolicyUpdate) (us : List VillagePolicyUpdate)
      → P u
      → All P us
      → All P (insert u us)
  unfolding insert
  All-insert u [] p a = (p, tt)
  All-insert u (v ∷ us) p a = elim (Bool-cases (le_key u v)) [
    | inl e ↦ rw e (p, a)
    | inr e ↦ rw e (a.0, All-insert u us p a.1)
  ]

  pub All-sort : (us : List VillagePolicyUpdate) → All P us → All P (sort us)
  unfolding sort
  All-sort [] a = tt
  All-sort (u ∷ us) a = All-insert u (sort us) a.0 (All-sort us a.1)

insert-perm :
    (u : VillagePolicyUpdate) (us : List VillagePolicyUpdate) → Perm (insert u us) (u ∷ us)
unfolding insert
insert-perm u [] = Perm.refl (u ∷ [])
insert-perm u (v ∷ us) = elim (Bool-cases (le_key u v)) [
  | inl e ↦ rw e (Perm.refl (u ∷ v ∷ us))
  | inr e ↦ rw e (Perm.trans (Perm.cons v (insert-perm u us)) (Perm.swap u v us))
]

sort-perm : (us : List VillagePolicyUpdate) → Perm (sort us) us
unfolding sort
sort-perm [] = Perm.refl []
sort-perm (u ∷ us) = Perm.trans (insert-perm u (sort us)) (Perm.cons u (sort-perm us))

pub contains-sort :
    (h : String) (us : List VillagePolicyUpdate)
    → contains h (map (λ u. u.policy_hash) (sort us)) ≡ contains h (map (λ u. u.policy_hash) us)
unfolding sort contains
contains-sort h [] = refl
contains-sort h (u ∷ us) = contains-insert u (sort us) ∙ ground (arith, contains-sort h us)
  where
    contains-insert :
        (v : VillagePolicyUpdate) (vs : List VillagePolicyUpdate)
        → contains h (map (λ w. w.policy_hash) (insert v vs))
          ≡ (v.policy_hash == h || contains h (map (λ w. w.policy_hash) vs))
    contains-insert v [] = refl
    contains-insert v (w ∷ vs) = ground (arith, contains-insert v vs)

-- Each update comes no later than every update after it.
abbrev pub Sorted : List VillagePolicyUpdate → Type 0
Sorted [] = Unit
Sorted (u ∷ us) = All (λ v. le_key u v ≡ true) us × Sorted us

pub le_key_trans :
    (u v w : VillagePolicyUpdate) → le_key u v ≡ true → le_key v w ≡ true → le_key u w ≡ true
unfolding le_key
le_key_trans u v w h k = ground (arith, text_le_trans u.policy_hash v.policy_hash w.policy_hash)

insert-Sorted :
    (u : VillagePolicyUpdate) (us : List VillagePolicyUpdate) → Sorted us → Sorted (insert u us)
unfolding insert
insert-Sorted u [] s = (tt, tt)
insert-Sorted u (v ∷ us) s = elim (Bool-cases (le_key u v)) [
  | inl e ↦ rw e ((e, All-map us (λ w. le_key_trans u v w e) s.0), s)
  | inr e ↦
      rw e
        (All-insert (λ w. le_key v w ≡ true) u us (le_key-total u v e) s.0, insert-Sorted u us s.1)
]

-- Sorting gives the same updates, each no later than every update after it.
pub sort-Sorted : (us : List VillagePolicyUpdate) → Perm (sort us) us × Sorted (sort us)
unfolding sort
sort-Sorted us = (sort-perm us, go us)
  where
    go : (vs : List VillagePolicyUpdate) → Sorted (sort vs)
    go [] = tt
    go (v ∷ vs) = insert-Sorted v (sort vs) (go vs)
