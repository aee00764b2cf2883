-- ===== src/Reconcile/Counts.antt =====
-- The counts of a report: sets without repetition, their differences and what they share.
use policy_mesh.Reconcile.{hash_set, reconcile}
use policy_mesh.Prelude.{
  contains-both, both, insert_text, minus, sort_texts, inr, refl, true, All-of_contains, [], inl,
  Bool-cases, arith, length-le_of_Within, ◌+◌, ◌∷◌, ◌≤◌, Distinct, length, ◌≡◌, String, contains,
  List,
}
use policy_mesh.Update.{VillagePolicyUpdate, Crypto}
use policy_mesh.Reconcile.Forks.{hash_set-Distinct}

length-insert_text : (h : String) (xs : List String) → length (insert_text h xs) ≡ length xs + 1
unfolding insert_text
length-insert_text h [] = refl
length-insert_text h (x ∷ xs) = ground (arith, length-insert_text h xs)

length-sort_texts : (xs : List String) → length (sort_texts xs) ≡ length xs
unfolding sort_texts
length-sort_texts [] = refl
length-sort_texts (x ∷ xs) =
    omega (arith, length-insert_text x (sort_texts xs), length-sort_texts xs)

both-minus : (xs ys : List String) → length (both xs ys) + length (minus xs ys) ≡ length xs
unfolding both minus
both-minus [] ys = refl
both-minus (x ∷ xs) ys = ground (arith, both-minus xs ys)

both-Distinct : (xs ys : List String) → Distinct xs → Distinct (both xs ys)
unfolding both
both-Distinct [] ys d = tt
both-Distinct (x ∷ xs) ys d = elim (Bool-cases (contains x ys)) [
  | inl e ↦ rw e (rw (contains-both x xs ys, d.0) refl, both-Distinct xs ys d.1)
  | inr e ↦ rw e (both-Distinct xs ys d.1)
]

length-both_le :
    (xs ys : List String) → Distinct xs → Distinct ys → length (both xs ys) ≤ length (both ys xs)
length-both_le xs ys d e = length-le_of_Within (both xs ys) (both ys xs) (both-Distinct xs ys d) (
    All-of_contains (λ k. contains k (both ys xs) ≡ true) (both xs ys)
      (λ k w. ground (arith, contains-both k xs ys, contains-both k ys xs, w)))

-- What both sides have and what the remote side misses are all the local hashes; what both sides
-- have and what the local side misses are all the remote ones. Each hash is counted once.
pub counts_lem :
    (C : Crypto) (local remote : List VillagePolicyUpdate) (village_id : String)
    → let r = reconcile C local remote village_id in
      (r.shared_count + length r.missing_remote ≡ r.local_count)
      × (r.shared_count + length r.missing_local ≡ r.remote_count)
unfolding reconcile
counts_lem C local remote village_id =
    let xs = hash_set local in
    let ys = hash_set remote in
    let d = hash_set-Distinct local in
    let e = hash_set-Distinct remote in
    (
      omega (arith, both-minus xs ys, length-sort_texts (minus xs ys)),
      omega (
        arith,
        both-minus ys xs,
        length-sort_texts (minus ys xs),
        length-both_le xs ys d e,
        length-both_le ys xs e d,
      ),
    )
