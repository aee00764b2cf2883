-- ===== src/Admission.antt =====
-- links/decision_receipts.py: the decision on an incoming policy update.
pub mod Decide
pub mod Receipt
use policy_mesh.Prelude.{
  ◌&&◌, [], not, ◌||◌, ltb, none, truthy, ◌++◌, ◌∷◌, false, if◌then◌else◌, map, some, true, ℕ, Bool,
  List, Option, String, eq_ignoring_case,
}
use policy_mesh.Json.{flag, Entries}
use policy_mesh.Update.{VillagePolicyUpdate}

-- The reason codes, by their names.
pub data Reason : Type 0 where
  manifest_untrusted : Reason
  signer_verification_failed : Reason
  missing_quorum_metadata : Reason
  update_expired : Reason
  awaiting_approval : Reason
  rolled_back_update : Reason
  awaiting_activation_time : Reason
  ready_for_apply : Reason

-- The sentence that goes with a code, or the message of the signature check.
pub data Note : Type 0 where
  sentence : Reason → Note
  signer_message : String → Note

pub data Decision : Type 0 where
  reject : Decision
  defer : Decision
  apply : Decision

-- `reason_codes.append(...)` and `notes.append(...)` under a test
abbrev when : Bool → Reason → Note → List (Reason × Note)
when b code note = if b then (code, note) ∷ [] else []

-- `(update.lifecycle_state or "proposal").lower() == state`
unfoldable pub lifecycle_is : String → String → Bool
unfolding eq_ignoring_case
lifecycle_is state lifecycle_state =
    eq_ignoring_case (if truthy lifecycle_state then lifecycle_state else "proposal") state

-- `time and time < ts`, and `time and time > ts`
abbrev pub before : Option ℕ → ℕ → Bool
before none ts = false
before (some t) ts = ltb t ts

abbrev pub after : Option ℕ → ℕ → Bool
after none ts = false
after (some t) ts = ltb ts t

abbrev pub is_none {ℓ} : {A : Type ℓ} → Option A → Bool
is_none none = true
is_none (some _) = false

-- `manifest_ok is False`
abbrev pub is_false : Option Bool → Bool
is_false (some false) = true
is_false _ = false

unfoldable pub collect :
    Entries → VillagePolicyUpdate → Option Bool → Bool → String → ℕ → List (Reason × Note)
collect current_policy update manifest_ok signer_ok message ts =
    when (is_false manifest_ok) manifest_untrusted (sentence manifest_untrusted)
    ++ (when (not signer_ok) signer_verification_failed (signer_message message)
        ++ (when (flag "require_quorum_metadata" current_policy && is_none update.quorum)
              missing_quorum_metadata (sentence missing_quorum_metadata)
            ++ (when (before update.expires_at ts) update_expired (sentence update_expired)
                ++ ((if lifecycle_is "proposal" update.lifecycle_state
                      then (awaiting_approval, sentence awaiting_approval) ∷ []
                      else when (lifecycle_is "rolled_back" update.lifecycle_state)
                          rolled_back_update (sentence rolled_back_update))
                    ++ when (after update.activation_time ts) awaiting_activation_time
                        (sentence awaiting_activation_time)))))

abbrev blocking : Reason → Bool
blocking manifest_untrusted = true
blocking signer_verification_failed = true
blocking missing_quorum_metadata = true
blocking update_expired = true
blocking rolled_back_update = true
blocking _ = false

abbrev defer_only : Reason → Bool
defer_only awaiting_approval = true
defer_only awaiting_activation_time = true
defer_only _ = false

-- `any(code in codes for code in reason_codes)`
unfoldable pub any_code : (Reason → Bool) → List (Reason × Note) → Bool
any_code p [] = false
any_code p ((code, _) ∷ rest) = p code || any_code p rest

abbrev codes_of : List (Reason × Note) → List Reason
codes_of = map (λ x. x.0)

abbrev notes_of : List (Reason × Note) → List Note
notes_of = map (λ x. x.1)

unfoldable pub evaluate_policy_update :
    Entries
    → VillagePolicyUpdate
    → Option Bool
    → Bool
    → String
    → ℕ
    → Decision × List Reason × List Note
unfolding any_code
evaluate_policy_update current_policy update manifest_ok signer_ok message ts =
    let found = collect current_policy update manifest_ok signer_ok message ts in
    if any_code blocking found
    then (reject, codes_of found, notes_of found)
    else if any_code defer_only found
    then (defer, codes_of found, notes_of found)
    else (apply, ready_for_apply ∷ [], sentence ready_for_apply ∷ [])
