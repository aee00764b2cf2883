-- ===== src/Reconcile/Laws.antt =====
-- What a report says of two histories: its heads, its selection, its status and its counts.
use policy_mesh.Prelude.{
  sym, false, not, ◌&&◌, truthy, eq_iff, inr, inl, Bool-cases, Option-cases, refl, eq_refl, ◌↔◌,
  ◌≢◌, [], arith, some, true, All, map, ◌∷◌, ◌≡◌, String, contains, ◌++◌, List,
}
use policy_mesh.Reconcile.{hash_set, issues_among, max_from, missing_parent}
use policy_mesh.Update.{VillagePolicyUpdate}
use policy_mesh.Feed.Order.{le_key}
use policy_mesh.Feed.Order.Latest.{le_key-total, le_key_trans}
use policy_mesh.Reconcile.Forks.{contains-add_iff}
use mathlib.Core.Path.{subst}

abbrev pub hashes : List VillagePolicyUpdate → List String
hashes = map (λ u. u.policy_hash)

pub contains-hash_set :
    (h : String) (us : List VillagePolicyUpdate) → contains h (hash_set us) ≡ contains h (hashes us)
unfolding hash_set contains
contains-hash_set h [] = refl
contains-hash_set h (u ∷ us) =
    ground (arith, contains-add_iff h u.policy_hash (hash_set us), contains-hash_set h us)

-- Every parent that is given and not empty is the hash of an update.
abbrev pub NoGap : List VillagePolicyUpdate → Type 0
NoGap ups =
    All
      (λ u.
        (p : String) → u.previous_policy_hash ≡ some p → p ≢ "" → contains p (hashes ups) ≡ true)
      ups

append-empty : {A : Type 0} (xs ys : List A) → (xs ++ ys ≡ []) ↔ ((xs ≡ []) × (ys ≡ []))
append-empty [] ys = (λ e. (refl, e), λ e. e.1)
append-empty (x ∷ xs) ys = (λ e. cc, λ e. cc e.0)

missing_parent_iff :
    (seen : List String) (u : VillagePolicyUpdate)
    → (missing_parent seen u ≡ [])
      ↔ ((p : String) → u.previous_policy_hash ≡ some p → p ≢ "" → contains p seen ≡ true)
unfolding missing_parent
missing_parent_iff seen u = elim (Option-cases u.previous_policy_hash) [
  | inl e ↦ rw e (λ _ p w. cc, λ _. refl)
  | inr (q, e) ↦ rw e (
    λ w p same full. ground (arith, w, same, full, eq_iff q ""),
    λ f. elim (Bool-cases (truthy q && not (contains q seen))) [
      | inl bad ↦ ground (arith, f q refl, eq_iff q "")
      | inr fine ↦ rw fine refl
    ],
  )
]

pub issues_iff :
    (seen : List String) (us : List VillagePolicyUpdate)
    → (issues_among seen us ≡ [])
      ↔ All
          (λ u. (p : String) → u.previous_policy_hash ≡ some p → p ≢ "" → contains p seen ≡ true)
          us
unfolding issues_among
issues_iff seen [] = (λ _. tt, λ _. refl)
issues_iff seen (u ∷ us) =
    let (to, from) = issues_iff seen us in
    let (split, join) = append-empty (missing_parent seen u) (issues_among seen us) in
    let (some_here, none_here) = missing_parent_iff seen u in
    (λ e. (some_here (split e).0, to (split e).1), λ f. join (none_here f.0, from f.1))

le_key_refl : (u : VillagePolicyUpdate) → le_key u u ≡ true
le_key_refl u = elim (Bool-cases (le_key u u)) [ inl e ↦ e | inr e ↦ le_key-total u u e ]

max_from-keep :
    (best u : VillagePolicyUpdate) (us : List VillagePolicyUpdate)
    → le_key u best ≡ true
    → max_from best (u ∷ us) ≡ max_from best us
unfolding max_from
max_from-keep best u us e = rw e refl

max_from-change :
    (best u : VillagePolicyUpdate) (us : List VillagePolicyUpdate)
    → le_key u best ≡ false
    → max_from best (u ∷ us) ≡ max_from u us
unfolding max_from
max_from-change best u us e = rw e refl

-- The update is one of the history, and none of it comes later in time and then hash.
abbrev pub Latest : VillagePolicyUpdate → List VillagePolicyUpdate → Type 0
Latest top us = (contains top.policy_hash (hashes us) ≡ true) × All (λ u. le_key u top ≡ true) us

skip_second :
    (x y : VillagePolicyUpdate) (zs : List VillagePolicyUpdate) (h : String)
    → contains h (hashes (x ∷ zs)) ≡ true
    → contains h (hashes (x ∷ y ∷ zs)) ≡ true
unfolding contains
skip_second x y zs h w = ground (arith, w)

skip_first : (x h : String) (hs : List String) → contains h hs ≡ true → contains h (x ∷ hs) ≡ true
unfolding contains
skip_first x h hs w = ground (arith, w)

alone-Latest : (u : VillagePolicyUpdate) → Latest (max_from u []) (u ∷ [])
unfolding max_from contains
alone-Latest u = (rw eq_refl refl, (le_key_refl u, tt))

pub max_from-Latest :
    (best : VillagePolicyUpdate) (us : List VillagePolicyUpdate)
    → Latest (max_from best us) (best ∷ us)
max_from-Latest best [] = alone-Latest best
max_from-Latest best (u ∷ us) = elim (Bool-cases (le_key u best)) [
  | inl e ↦
      let (found, (above, rest)) = max_from-Latest best us in
      subst (λ m. Latest m (best ∷ u ∷ us)) (sym (max_from-keep best u us e))
        (
          skip_second best u us (max_from best us).policy_hash found,
          (above, (le_key_trans u best (max_from best us) e above, rest)),
        )
  | inr e ↦
      let (found, (above, rest)) = max_from-Latest u us in
      subst (λ m. Latest m (best ∷ u ∷ us)) (sym (max_from-change best u us e))
        (
          skip_first best.policy_hash (max_from u us).policy_hash (hashes (u ∷ us)) found,
          (le_key_trans best u (max_from u us) (le_key-total u best e) above, (above, rest)),
        )
]
