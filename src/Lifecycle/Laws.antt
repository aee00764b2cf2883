-- ===== src/Lifecycle/Laws.antt =====
-- What a transition of links/policy_lifecycle.py allows and changes.
use policy_mesh.Lifecycle.{
  changed, event, validate_transition, transition_update, Change, done, PolicyLifecycleEvent,
}
use policy_mesh.Prelude.{
  ap, ◌≢◌, ◌<◌, if◌then◌else◌, ◌+◌, ◌≤◌, zero, suc, none, [], refl, List, Option, ℕ, false, not,
  ◌&&◌, inr, inl, eq_iff, truthy?, ◌==◌, Bool-cases, arith, ◌↔◌, true, ◌⊎◌, ◌≡◌, String,
}
use policy_mesh.Update.{
  QuorumRequirement, compute_policy_hash, ok, Crypto, verify_update_any, VillagePolicyUpdate,
}
use policy_mesh.Update.Quorum.{
  policy_hash_mismatch, quorum_not_met, invalid_quorum_threshold, QuorumMessage, collect_signers,
  valid_signers, verify_update_quorum,
}
use policy_mesh.Prelude.Int.{ℤ, pos}
use policy_mesh.Update.Weighted.{verify_update_weighted_quorum, WeightMessage}
use policy_mesh.Update.Roles.{verify_update_role_based_quorum, Counts, RoleMessage}
use policy_mesh.Feed.Policy.Unsigned.{unsigned-roles, unsigned-weighted, WantsNone}

-- The successor of a state in the lifecycle.
abbrev pub Next : String → String → Type 0
Next from to =
    ((from ≡ "proposal") × (to ≡ "approved"))
    ⊎ (((from ≡ "approved") × (to ≡ "active")) ⊎ ((from ≡ "active") × (to ≡ "rolled_back")))

from_proposal : (to : String) → (validate_transition "proposal" to).0 ≡ true → to ≡ "approved"
unfolding validate_transition
from_proposal to h = ground (arith, eq_iff "approved" to)

from_approved : (to : String) → (validate_transition "approved" to).0 ≡ true → to ≡ "active"
unfolding validate_transition
from_approved to h = ground (arith, eq_iff "active" to)

from_active : (to : String) → (validate_transition "active" to).0 ≡ true → to ≡ "rolled_back"
unfolding validate_transition
from_active to h = ground (arith, eq_iff "rolled_back" to)

-- A transition is valid exactly if it goes to the state that follows in the lifecycle.
pub validate_iff : (from to : String) → ((validate_transition from to).0 ≡ true) ↔ Next from to
unfolding validate_transition
validate_iff from to = (valid→Next, Next→valid)
  where
    valid→Next : (validate_transition from to).0 ≡ true → Next from to
    valid→Next h = elim (Bool-cases (from == "proposal")) [
      | inl p ↦ let e = (eq_iff from "proposal").0 p in inl (e, from_proposal to (rw e at h))
      | inr p ↦ elim (Bool-cases (from == "approved")) [
        | inl a ↦
            let e = (eq_iff from "approved").0 a in inr (inl (e, from_approved to (rw e at h)))
        | inr a ↦ elim (Bool-cases (from == "active")) [
          | inl v ↦ let e = (eq_iff from "active").0 v in inr (inr (e, from_active to (rw e at h)))
          | inr v ↦ ground arith
        ]
      ]
    ]

    Next→valid : Next from to → (validate_transition from to).0 ≡ true
    Next→valid (inl (e, f)) = rw (e, f)
    Next→valid (inr (inl (e, f))) = rw (e, f)
    Next→valid (inr (inr (e, f))) = rw (e, f)

-- What a transition leaves as it was.
pub record SameContent (u v : VillagePolicyUpdate) : Type 0 where
  pub village_id : v.village_id ≡ u.village_id
  pub created_at : v.created_at ≡ u.created_at
  pub policy : v.policy ≡ u.policy
  pub policy_hash : v.policy_hash ≡ u.policy_hash
  pub policy_version_id : v.policy_version_id ≡ u.policy_version_id
  pub previous_policy_hash : v.previous_policy_hash ≡ u.previous_policy_hash
  pub expires_at : v.expires_at ≡ u.expires_at
  pub quorum : v.quorum ≡ u.quorum

transition_inversion :
    (u : VillagePolicyUpdate) (to : String) (c : Change) (v : VillagePolicyUpdate)
    (e : PolicyLifecycleEvent)
    → transition_update u to c ≡ done (v, e)
    → ((validate_transition u.lifecycle_state to).0 ≡ true)
      × ((to == "rolled_back" && not (truthy? c.rollback_to_policy_hash)) ≡ false)
      × (v ≡ changed u to c)
      × (e ≡ event u to c)
unfolding transition_update
transition_inversion u to c v e h = elim (Bool-cases (validate_transition u.lifecycle_state to).0) [
  | inr bad ↦ cc (rw bad at h)
  | inl good ↦ elim (Bool-cases (to == "rolled_back" && not (truthy? c.rollback_to_policy_hash))) [
    | inl missing ↦ cc (rw (good, missing) at h)
    | inr given ↦ let h' = rw (good, given) at h in (good, given, cc, cc)
  ]
]

-- A transition that is made goes to the next state and keeps the content; its event names the two
-- states; and a rollback names the policy that it goes back to.
pub transition-Next :
    (u : VillagePolicyUpdate) (to : String) (c : Change) (v : VillagePolicyUpdate)
    (e : PolicyLifecycleEvent)
    → transition_update u to c ≡ done (v, e)
    → Next u.lifecycle_state v.lifecycle_state
      × SameContent u v
      × (v.lifecycle_state ≡ to)
      × (e.from_state ≡ u.lifecycle_state)
      × (e.to_state ≡ to)
      × (to ≡ "rolled_back"
          → (truthy? v.rollback_to_policy_hash ≡ true)
            × (v.rollback_to_policy_hash ≡ c.rollback_to_policy_hash))
unfolding transition_update
transition-Next u to c v e h =
    let (good, given, ev, ee) = transition_inversion u to c v e h in
    rw (ev, ee)
      (
        (validate_iff u.lifecycle_state to).0 good,
        record {
          village_id = refl;
          created_at = refl;
          policy = refl;
          policy_hash = refl;
          policy_version_id = refl;
          previous_policy_hash = refl;
          expires_at = refl;
          quorum = refl;
        },
        refl,
        refl,
        refl,
        λ r. ground (arith, (eq_iff to "rolled_back").1 r),
      )

unsigned_any :
    (C : Crypto) (v : VillagePolicyUpdate)
    → v.signatures ≡ []
    → v.public_key ≡ none
    → verify_update_any C v ≡ ok false
unfolding verify_update_any
unsigned_any C v s k = ground (arith, s, k)

unsigned_quorum :
    (C : Crypto) (v : VillagePolicyUpdate) (m : ℕ) (allowlist : Option (List String))
    → v.signatures ≡ []
    → v.public_key ≡ none
    → (message : QuorumMessage) × (verify_update_quorum C v (pos m) allowlist ≡ ok (false, message))
unfolding verify_update_quorum valid_signers collect_signers
unsigned_quorum C v zero allowlist s k = (invalid_quorum_threshold, refl)
unsigned_quorum C v (suc m) allowlist s k =
    elim (Bool-cases (v.policy_hash == compute_policy_hash C v.policy)) [
      | inl e ↦ (quorum_not_met 0 (pos (suc m)), ground (arith, s, k))
      | inr e ↦ (policy_hash_mismatch, ground arith)
    ]

-- A transition voids the signatures: the check of any signature and the M-of-N check refuse the update
-- that it gives, whatever the allow-list; the weighted check never accepts it; and the role-based check
-- accepts it only where no requirement wants a signer.
pub transition-unsigned :
    (C : Crypto) (u : VillagePolicyUpdate) (to : String) (c : Change) (v : VillagePolicyUpdate)
    (e : PolicyLifecycleEvent) (m : ℕ) (allowlist : Option (List String))
    (weights : List (String × ℤ)) (required : ℤ) (roles : List (String × List String))
    (reqs : List QuorumRequirement)
    → transition_update u to c ≡ done (v, e)
    → (verify_update_any C v ≡ ok false)
      × ((message : QuorumMessage) × (verify_update_quorum C v (pos m) allowlist
            ≡ ok (false, message)))
      × ((message : WeightMessage) (achieved : ℤ)
          → verify_update_weighted_quorum C v weights required allowlist
            ≢ ok (true, message, achieved))
      × ((message : RoleMessage) (counts : Counts)
          → verify_update_role_based_quorum C v roles reqs allowlist ≡ ok (true, message, counts)
          → WantsNone reqs)
unfolding changed
transition-unsigned C u to c v e m allowlist weights required roles reqs h =
    let (_, _, ev, _) = transition_inversion u to c v e h in
    rw ev (
      unsigned_any C (changed u to c) refl refl,
      unsigned_quorum C (changed u to c) m allowlist refl refl,
      unsigned-weighted C (changed u to c) refl weights required allowlist,
      unsigned-roles C (changed u to c) refl roles reqs allowlist,
    )

-- `n` transitions, one after the other.
pub data Steps (u : VillagePolicyUpdate) : ℕ → VillagePolicyUpdate → Type 0 where
  here : Steps u zero u
  next :
      {n : ℕ} {v w : VillagePolicyUpdate} (to : String) (c : Change) (e : PolicyLifecycleEvent)
      → Steps u n v
      → transition_update v to c ≡ done (w, e)
      → Steps u (suc n) w

rank : String → ℕ
rank s =
    if s == "proposal" then 0 else if s == "approved" then 1 else if s == "active" then 2 else 3

rank-le : (s : String) → rank s ≤ 3
unfolding rank
rank-le s = ground arith

rank-Next : (from to : String) → Next from to → rank to ≡ rank from + 1
unfolding rank
rank-Next from to (inl (e, f)) = rw (e, f)
rank-Next from to (inr (inl (e, f))) = rw (e, f)
rank-Next from to (inr (inr (e, f))) = rw (e, f)

rank-Steps :
    {u v : VillagePolicyUpdate} {n : ℕ}
    → Steps u n v
    → rank v.lifecycle_state ≡ rank u.lifecycle_state + n
rank-Steps here = omega arith
rank-Steps (next {v = v} {w = w} to c e st h) =
    let n = transition-Next v to c w e h in
    omega (arith, rank-Steps st, rank-Next v.lifecycle_state w.lifecycle_state n.0)

-- No update goes through more than three transitions, and one that has made a transition never has
-- its first state again.
pub Steps-bounded :
    {u v : VillagePolicyUpdate} {n : ℕ}
    → Steps u n v
    → (n ≤ 3) × (0 < n → v.lifecycle_state ≢ u.lifecycle_state)
Steps-bounded {u} {v} st =
    let r = rank-Steps st in
    (omega (arith, rank-le v.lifecycle_state), λ h e. omega (arith, ap rank e))
