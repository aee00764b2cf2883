-- ===== src/Reconcile/Report.antt =====
-- What a report says of two histories: its status, its selection and its counts.
use policy_mesh.Reconcile.{
  max_from, detect_forks, lineage_issues, hash_set, head, aligned, eq_parent, reconcile, select,
  status_of,
}
use policy_mesh.Prelude.{
  All-map, ◌∙◌, sym, inr, inl, arith, not, none, contains, refl, ◌++◌, ◌∷◌, [], false, truthy?, ◌↔◌,
  ◌⊎◌, some, true, ◌≡◌, Bool, String, is_empty, List, Option,
}
use policy_mesh.Update.{VillagePolicyUpdate, Crypto}
use policy_mesh.Reconcile.Forks.{detect_forks_iff, NoFork, eq_parent_iff}
use policy_mesh.Reconcile.Laws.{
  max_from-Latest, Latest, issues_iff, contains-hash_set, NoGap, hashes,
}

is_empty_iff : {A : Type 0} (xs : List A) → (is_empty xs ≡ true) ↔ (xs ≡ [])
is_empty_iff [] = (λ _. refl, λ _. refl)
is_empty_iff (x ∷ xs) = (λ e. cc, λ e. cc)

lineage_iff : (ups : List VillagePolicyUpdate) → (lineage_issues ups ≡ []) ↔ NoGap ups
unfolding lineage_issues
lineage_iff ups =
    let (to, from) = issues_iff (hash_set ups) ups in
    (
      λ e. All-map ups (λ u f p same full. sym (contains-hash_set p ups) ∙ f p same full) (to e),
      λ w. from (All-map ups (λ u f p same full. contains-hash_set p ups ∙ f p same full) w),
    )

status-aligned :
    (has_forks has_issues has_drift : Bool)
    → (status_of has_forks has_issues has_drift ≡ aligned)
      ↔ ((has_forks ≡ false) × (has_issues ≡ false) × (has_drift ≡ false))
unfolding status_of
status-aligned true i d = (λ e. cc, λ e. cc e.0)
status-aligned false true d = (λ e. cc, λ e. cc)
status-aligned false false true = (λ e. cc, λ e. cc)
status-aligned false false false = (λ e. (refl, refl, refl), λ e. refl)

select-Safe :
    (local_head remote_head : Option String) (local_set : List String) (f i : Bool) (h : String)
    → (select local_head remote_head local_set f i).selected_head ≡ some h
    → (local_head ≡ some h)
      ⊎ ((remote_head ≡ some h)
          × ((truthy? local_head ≡ false)
              ⊎ ((contains h local_set ≡ true) ⊎ ((f ≡ false) × (i ≡ false)))))
unfolding select
select-Safe none none s f i h e = ground (arith, e)
select-Safe none (some r) s f i h e = ground (arith, e)
select-Safe (some l) none s f i h e = ground (arith, e)
select-Safe (some l) (some r) s f i h e = ground (arith, e)

module _ (C : Crypto) (local remote : List VillagePolicyUpdate) (village_id : String) where
  -- The status is aligned exactly when both sides have one head, updates with one parent have one
  -- hash, and every parent that is named is the hash of an update of one of the sides.
  pub status_iff :
      ((reconcile C local remote village_id).status ≡ aligned)
      ↔ (NoFork (local ++ remote) × NoGap (local ++ remote) × (head local ≡ head remote))
  unfolding reconcile
  status_iff =
      let ups = local ++ remote in
      let (no_fork, forkless) = detect_forks_iff C ups in
      let (no_gap, gapless) = lineage_iff ups in
      let (forks, forks') = is_empty_iff (detect_forks C ups) in
      let (issues, issues') = is_empty_iff (lineage_issues ups) in
      let (same, same') = eq_parent_iff (head local) (head remote) in
      let (split, join) =
        status-aligned (not (is_empty (detect_forks C ups))) (not (is_empty (lineage_issues ups)))
          (not (eq_parent (head local) (head remote))) in
      (
        λ e.
            let (a, b, c) = split e in
            (
              no_fork (forks (ground (arith, a))),
              no_gap (issues (ground (arith, b))),
              same (ground (arith, c)),
            ),
        λ w.
            let (a, b, c) = w in
            join (rw (forks' (forkless a)) refl, rw (issues' (gapless b)) refl, rw (same' c) refl),
      )

  -- A selected head is the local head, or it is the remote head, and then there is no local head that
  -- is not empty, or the local side has it already, or there is no fork and no gap.
  pub selected-Safe :
      (h : String)
      → (reconcile C local remote village_id).selected_head ≡ some h
      → (head local ≡ some h)
        ⊎ ((head remote ≡ some h)
            × ((truthy? (head local) ≡ false)
                ⊎ ((contains h (hashes local) ≡ true)
                    ⊎ (NoFork (local ++ remote) × NoGap (local ++ remote)))))
  unfolding reconcile
  selected-Safe h e =
      let ups = local ++ remote in
      elim (select-Safe (head local) (head remote) (hash_set local)
        (not (is_empty (detect_forks C ups))) (not (is_empty (lineage_issues ups))) h e) [
          | inl l ↦ inl l
          | inr (r, inl none_local) ↦ inr (r, inl none_local)
          | inr (r, inr (inl known)) ↦ inr (r, inr (inl (sym (contains-hash_set h local) ∙ known)))
          | inr (r, inr (inr (f, i))) ↦ inr (
            r,
            inr (
                inr (
                  (detect_forks_iff C ups).0
                      ((is_empty_iff (detect_forks C ups)).0 (ground (arith, f))),
                  (lineage_iff ups).0 ((is_empty_iff (lineage_issues ups)).0 (ground (arith, i))),
                )),
          )
        ]

-- The head of a history that is not empty is the hash of an update than which none is later.
pub head-Latest :
    (u : VillagePolicyUpdate) (us : List VillagePolicyUpdate)
    → (top : VillagePolicyUpdate) × (head (u ∷ us) ≡ some top.policy_hash) × Latest top (u ∷ us)
unfolding head
head-Latest u us = (max_from u us, refl, max_from-Latest u us)
