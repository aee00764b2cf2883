-- ===== src/Server/Reads/After.antt =====
-- links/server.py: the routes that read, after an update was stored.
use policy_mesh.Server.Update.Granted.{Granted}
use policy_mesh.Villages.Apply.Applied.{Homed, some-injective}
use policy_mesh.Update.{Crypto, VillagePolicyUpdate}
use policy_mesh.Server.Reads.{
  or_not_found, listed, found, latest_policy_update, Found, policy_latest, policy_update_by_hash,
  get_policy_update_by_hash, pick_latest,
}
use policy_mesh.Feed.Order.{insert, le_key, sort}
use policy_mesh.Prelude.{
  eq_refl, ◌≢◌, eq_iff, refl, ◌∙◌, ◌⊎◌, Option, if◌then◌else◌, sym, Bool, ap, inr, false, inl, [],
  arith, ◌==◌, none, some, true, ◌∷◌, All, ◌≡◌, List, String,
}
use policy_mesh.Server.Update.{stored, policy_update, Request, same_file, put_update}
use policy_mesh.Feed.Order.Latest.{le_key_trans, le_key-total}
use policy_mesh.Villages.Apply.{PolicyModel, Node}
use policy_mesh.Villages.Name.{validate_village_id}
use mathlib.Core.Path.{subst}
use policy_mesh.Json.{Entries}
use policy_mesh.Server.Update.Stored.{policy_update-Installed}

module _ (P : VillagePolicyUpdate → Type 0) where
  either-All :
      (b : Bool) (xs ys : List VillagePolicyUpdate)
      → All P (if b then xs else ys)
      → All P xs ⊎ All P ys
  either-All true xs ys a = inl a
  either-All false xs ys a = inr a

  insert-All :
      (u : VillagePolicyUpdate) (us : List VillagePolicyUpdate)
      → All P (insert u us)
      → P u × All P us
  unfolding insert
  insert-All u [] a = a
  insert-All u (v ∷ us) a = elim (either-All (le_key u v) (u ∷ v ∷ us) (v ∷ insert u us) a) [
    | inl x ↦ x
    | inr (q, rest) ↦ let (p, later) = insert-All u us rest in (p, (q, later))
  ]

  sort-All : (us : List VillagePolicyUpdate) → All P (sort us) → All P us
  unfolding sort
  sort-All [] a = tt
  sort-All (u ∷ us) a = let (p, rest) = insert-All u (sort us) a in (p, sort-All us rest)

  put-All :
      (u : VillagePolicyUpdate) (us : List VillagePolicyUpdate) → All P (put_update u us) → P u
  unfolding put_update
  put-All u [] a = a.0
  put-All u (v ∷ us) a = elim (either-All (same_file u v) (u ∷ us) (v ∷ put_update u us) a) [
    | inl x ↦ x.0
    | inr (q, rest) ↦ put-All u us rest
  ]

none_if :
    (b : Bool) (u : VillagePolicyUpdate) (later : Option VillagePolicyUpdate)
    → (if b then some u else later) ≡ none
    → (b ≡ false) × (later ≡ none)
none_if true u later e = cc
none_if false u later e = (refl, e)

some_if :
    (b : Bool) (u v : VillagePolicyUpdate) (later : Option VillagePolicyUpdate)
    → (if b then some u else later) ≡ some v
    → ((b ≡ true) × (u ≡ v)) ⊎ (later ≡ some v)
some_if true u v later e = inl (refl, some-injective e)
some_if false u v later e = inr e

by_hash-All :
    (h : String) (us : List VillagePolicyUpdate)
    → get_policy_update_by_hash us h ≡ none
    → All (λ v. (v.policy_hash == h) ≡ false) us
unfolding get_policy_update_by_hash
by_hash-All h [] e = tt
by_hash-All h (u ∷ us) e =
    let (n, later) = none_if (u.policy_hash == h) u (get_policy_update_by_hash us h) e in
    (n, by_hash-All h us later)

by_hash-some :
    (h : String) (us : List VillagePolicyUpdate) (v : VillagePolicyUpdate)
    → get_policy_update_by_hash us h ≡ some v
    → v.policy_hash ≡ h
unfolding get_policy_update_by_hash
by_hash-some h [] v e = cc
by_hash-some h (u ∷ us) v e =
    elim (some_if (u.policy_hash == h) u v (get_policy_update_by_hash us h) e) [
      | inl (k, same) ↦ ap (λ x. x.policy_hash) (sym same) ∙ (eq_iff u.policy_hash h).0 k
      | inr later ↦ by_hash-some h us v later
    ]

le_key_refl : (u : VillagePolicyUpdate) → le_key u u ≡ true
le_key_refl u = ground (arith, le_key-total u u)

pick_step :
    (best u : VillagePolicyUpdate) (us : List VillagePolicyUpdate) (b : Bool)
    → le_key u best ≡ b
    → ((x : VillagePolicyUpdate) → All (λ v. le_key v (pick_latest x us) ≡ true) (x ∷ us))
    → All (λ v. le_key v (pick_latest (if b then best else u) us) ≡ true) (best ∷ u ∷ us)
pick_step best u us true e ih =
    let (b, rest) = ih best in (b, (le_key_trans u best (pick_latest best us) e b, rest))
pick_step best u us false e ih =
    let (b, rest) = ih u in
    (le_key_trans best u (pick_latest u us) (le_key-total u best e) b, (b, rest))

pick-All :
    (best : VillagePolicyUpdate) (us : List VillagePolicyUpdate)
    → All (λ v. le_key v (pick_latest best us) ≡ true) (best ∷ us)
unfolding pick_latest
pick-All best [] = (le_key_refl best, tt)
pick-All best (u ∷ us) = pick_step best u us (le_key u best) refl (λ x. pick-All x us)

true-false : {b : Bool} → b ≡ true → b ≢ false
true-false h k = cc

module _ (by_name : List VillagePolicyUpdate → List VillagePolicyUpdate)
    (lists : (P : VillagePolicyUpdate → Type 0) (us : List VillagePolicyUpdate)
      → All P (by_name us)
      → All P us) where
  -- A route that finds something with the property.
  abbrev pub Finds : (VillagePolicyUpdate → Type 0) → Found VillagePolicyUpdate → Type 0
  Finds P r = (v : VillagePolicyUpdate) × (r ≡ found v) × P v

  in_listed :
      (P : VillagePolicyUpdate → Type 0) (n : Node) (u : VillagePolicyUpdate)
      (old : List VillagePolicyUpdate)
      → (n.rooms u.village_id).updates ≡ put_update u old
      → All P (listed by_name n u.village_id)
      → P u
  in_listed P n u old kept a = put-All P u old (subst (All P) kept (lists P _ a))

  by_hash-Finds :
      (n : Node) (u : VillagePolicyUpdate) (old : List VillagePolicyUpdate)
      (x : Option VillagePolicyUpdate)
      → validate_village_id u.village_id ≡ true
      → (n.rooms u.village_id).updates ≡ put_update u old
      → get_policy_update_by_hash (listed by_name n u.village_id) u.policy_hash ≡ x
      → Finds
          (λ v. v.policy_hash ≡ u.policy_hash)
          (policy_update_by_hash by_name n u.village_id u.policy_hash)
  unfolding policy_update_by_hash
  by_hash-Finds n u old none valid kept e = absurd (
      true-false (eq_refl u.policy_hash) (
        in_listed (λ v. (v.policy_hash == u.policy_hash) ≡ false) n u old kept
          (by_hash-All u.policy_hash (listed by_name n u.village_id) e)))
  by_hash-Finds n u old (some v) valid kept e = (
    v,
    rw valid (ap or_not_found e),
    by_hash-some u.policy_hash (listed by_name n u.village_id) v e,
  )

  latest-Finds :
      (n : Node) (u : VillagePolicyUpdate) (old : List VillagePolicyUpdate)
      (us : List VillagePolicyUpdate)
      → validate_village_id u.village_id ≡ true
      → (n.rooms u.village_id).updates ≡ put_update u old
      → sort (listed by_name n u.village_id) ≡ us
      → Finds (λ v. le_key u v ≡ true) (policy_latest by_name n u.village_id)
  unfolding policy_latest latest_policy_update
  latest-Finds n u old [] valid kept e = absurd (
      true-false (le_key_refl u) (
        in_listed (λ v. le_key v v ≡ false) n u old kept
          (sort-All (λ v. le_key v v ≡ false) (listed by_name n u.village_id)
            (subst (All (λ v. le_key v v ≡ false)) (sym e) tt))))
  latest-Finds n u old (best ∷ us) valid kept e = (
    pick_latest best us,
    rw valid (ap (λ x. or_not_found (latest_policy_update x)) e),
    in_listed (λ v. le_key v (pick_latest best us) ≡ true) n u old kept
        (sort-All (λ v. le_key v (pick_latest best us) ≡ true) (listed by_name n u.village_id)
          (subst (All (λ v. le_key v (pick_latest best us) ≡ true)) (sym e) (pick-All best us))),
  )

  -- After POST /villages/{village_id}/policy has answered that an update is stored, where each village is
  -- kept under its own name and every file of a feed is listed, the route by_hash of the update's village
  -- finds an update with its policy hash, and the route latest finds one that is no earlier.
  pub policy_update-Finds :
      (hash_token : String → String) (C : Crypto) (M : PolicyModel)
      (read_update : Entries → Option VillagePolicyUpdate) (n : Node) (q : Request) (after : Node)
      (h : String)
      → Homed n
      → policy_update hash_token C M read_update n q ≡ (after, stored h)
      → (g : Granted hash_token C M read_update n q) × Finds
          (λ v. v.policy_hash ≡ h)
          (policy_update_by_hash by_name after g.update.village_id h)
        × Finds (λ v. le_key g.update v ≡ true) (policy_latest by_name after g.update.village_id)
  policy_update-Finds hash_token C M read_update n q after h homed e =
      let i = policy_update-Installed hash_token C M read_update n q after h homed e in
      let u = i.granted.update in
      (
        i.granted,
        subst
            (λ k.
              Finds (λ v. v.policy_hash ≡ k) (policy_update_by_hash by_name after u.village_id k))
            (sym i.names)
            (by_hash-Finds after u (n.rooms u.village_id).updates _ i.named i.in_feed refl),
        latest-Finds after u (n.rooms u.village_id).updates _ i.named i.in_feed refl,
      )
