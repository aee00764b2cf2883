-- ===== src/Admission/Decide.antt =====
-- The decision on an update, by the conditions under which it is made.
use policy_mesh.Admission.{
  before, is_none, ready_for_apply, after, when, Note, is_false, Reason, collect, any_code,
  blocking, defer_only, evaluate_policy_update, reject, defer, apply, lifecycle_is,
}
use policy_mesh.Update.{VillagePolicyUpdate}
use policy_mesh.Json.{flag, Entries}
use policy_mesh.Prelude.{
  refl, [], arith, if◌then◌else◌, ◌&&◌, ◌∷◌, not, ◌++◌, ◌≡◌, List, String, ◌||◌, Bool, Option, ℕ,
}

-- What stands in the way of the update for good, and what only for now.
abbrev pub is_blocked : Entries → VillagePolicyUpdate → Option Bool → Bool → ℕ → Bool
is_blocked current_policy u manifest_ok signer_ok ts =
    is_false manifest_ok
    || (not signer_ok
        || ((flag "require_quorum_metadata" current_policy && is_none u.quorum)
            || (before u.expires_at ts
                || (not (lifecycle_is "proposal" u.lifecycle_state)
                    && lifecycle_is "rolled_back" u.lifecycle_state))))

abbrev pub is_waiting : VillagePolicyUpdate → ℕ → Bool
is_waiting u ts = lifecycle_is "proposal" u.lifecycle_state || after u.activation_time ts

any_code-append :
    (p : Reason → Bool) (xs ys : List (Reason × Note))
    → any_code p (xs ++ ys) ≡ (any_code p xs || any_code p ys)
unfolding any_code
any_code-append p [] ys = refl
any_code-append p (x ∷ xs) ys = ground (arith, any_code-append p xs ys)

any_code-when :
    (p : Reason → Bool) (b : Bool) (code : Reason) (note : Note)
    → any_code p (when b code note) ≡ (b && p code)
unfolding any_code
any_code-when p b code note = ground arith

module _ (current_policy : Entries) (u : VillagePolicyUpdate) (manifest_ok : Option Bool)
    (signer_ok : Bool) (message : String) (ts : ℕ) where
  any_code-blocking :
      any_code blocking (collect current_policy u manifest_ok signer_ok message ts)
      ≡ is_blocked current_policy u manifest_ok signer_ok ts
  unfolding collect any_code
  any_code-blocking = simp (any_code-append, any_code-when) (ground arith)

  any_code-defer_only :
      any_code defer_only (collect current_policy u manifest_ok signer_ok message ts)
      ≡ is_waiting u ts
  unfolding collect any_code
  any_code-defer_only = simp (any_code-append, any_code-when) (ground arith)

  -- The decision: a blocked update is rejected, one that only waits is deferred, every other one is
  -- applied, and then with the one code ready_for_apply.
  pub evaluate_lem :
      let (decision, codes, _) =
        evaluate_policy_update current_policy u manifest_ok signer_ok message ts in
      (decision ≡ (
        if is_blocked current_policy u manifest_ok signer_ok ts
        then reject
        else if is_waiting u ts
        then defer
        else apply))
      × (decision ≡ apply → codes ≡ ready_for_apply ∷ [])
  unfolding evaluate_policy_update
  evaluate_lem = ground (arith, any_code-blocking, any_code-defer_only)
