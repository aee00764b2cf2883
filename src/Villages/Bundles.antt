-- ===== src/Villages/Bundles.antt =====
-- links/villages.py: what the policy of a village says of a bundle of claims.
-- The keys of a bundle that are read: `window_days`, and the `predicate` of each claim.
use policy_mesh.Villages.{Village}
use policy_mesh.Prelude.Int.{ltb_ℤ, ℤ}
use policy_mesh.Prelude.{
  ◌==◌, eq_iff, arith, inr, inl, not, refl, Bool-cases, [], none, ◌&&◌, All, contains, false,
  truthy, ◌↔◌, ◌∷◌, ◌≢◌, if◌then◌else◌, some, true, Bool, Option, String, ◌≡◌, List,
}

pub record Bundle : Type 0 where
  pub window_days : ℤ
  pub predicates : List (Option String)

pub data BundleMessage : Type 0 where
  bundle_ok : BundleMessage
  window_exceeds : ℤ → ℤ → BundleMessage
  predicate_not_allowed : String → BundleMessage

-- the loop over the claims
unfoldable pub enforce_predicates : List String → List (Option String) → Bool × BundleMessage
enforce_predicates allowed [] = (true, bundle_ok)
enforce_predicates allowed (none ∷ rest) = enforce_predicates allowed rest
enforce_predicates allowed (some pred ∷ rest) =
    let answer = enforce_predicates allowed rest in
    if truthy pred && not (contains pred allowed)
    then (false, predicate_not_allowed pred)
    else answer

unfoldable pub enforce_policy_on_bundle : Village → Bundle → Bool × BundleMessage
enforce_policy_on_bundle village bundle =
    if ltb_ℤ village.policy.max_window_days bundle.window_days
    then (false, window_exceeds bundle.window_days village.policy.max_window_days)
    else enforce_predicates village.policy.allowed_predicates bundle.predicates

-- A claim's predicate that the policy lets through: none, an empty one, or an allowed one.
abbrev pub Admitted : List String → Option String → Type 0
Admitted allowed none = Unit
Admitted allowed (some pred) = (pred ≢ "") → contains pred allowed ≡ true

enforce_predicates_iff :
    (allowed : List String) (predicates : List (Option String))
    → ((enforce_predicates allowed predicates).0 ≡ true) ↔ All (Admitted allowed) predicates
unfolding enforce_predicates
enforce_predicates_iff allowed [] = (λ _. tt, λ _. refl)
enforce_predicates_iff allowed (none ∷ rest) =
    let (to, from) = enforce_predicates_iff allowed rest in (λ e. (tt, to e), λ h. from h.1)
enforce_predicates_iff allowed (some pred ∷ rest) =
    let (to, from) = enforce_predicates_iff allowed rest in
    (
      λ e. (λ full. ground (arith, eq_iff pred ""), to (ground arith)),
      λ h. elim (Bool-cases (pred == "")) [
        | inl blank ↦ rw blank (from h.1)
        | inr full ↦ rw (full, h.0 (λ p. cc ((eq_iff pred "").1 p))) (from h.1)
      ],
    )

-- The policy accepts a bundle exactly when its window is within the limit and every predicate of a
-- claim that is given and not empty is an allowed one.
pub enforce_iff :
    (village : Village) (bundle : Bundle)
    → ((enforce_policy_on_bundle village bundle).0 ≡ true) ↔ (
        (ltb_ℤ village.policy.max_window_days bundle.window_days ≡ false)
        × All (Admitted village.policy.allowed_predicates) bundle.predicates)
unfolding enforce_policy_on_bundle
enforce_iff village bundle =
    let (to, from) = enforce_predicates_iff village.policy.allowed_predicates bundle.predicates in
    elim (Bool-cases (ltb_ℤ village.policy.max_window_days bundle.window_days)) [
      | inl e ↦ rw e (λ w. cc, λ h. cc)
      | inr e ↦ rw e (λ w. (refl, to w), λ h. from h.1)
    ]
