-- ===== src/Lifecycle.antt =====
-- links/policy_lifecycle.py: the lifecycle of a policy update. The event's time is the clock's and
-- is left out.
pub mod Laws
use policy_mesh.Prelude.{
  true, false, ◌&&◌, ◌||◌, [], not, truthy?, ◌==◌, Bool, if◌then◌else◌, none, some, ℕ, ◌∷◌, List,
  Option, String, contains,
}
use policy_mesh.Json.{get, Value}
use policy_mesh.Update.{compute_policy_hash, Crypto, VillagePolicyUpdate}
use mathlib.Core.List.{reverse}
use policy_mesh.Prelude.Int.{ℤ}

pub data TransitionMessage : Type 0 where
  transition_ok : TransitionMessage
  unknown_lifecycle_state : TransitionMessage
  invalid_lifecycle_transition : String → String → TransitionMessage
  rollback_requires_hash : TransitionMessage

pub data Outcome {ℓ} (A : Type ℓ) : Type ℓ where
  done : A → Outcome A
  value_error : TransitionMessage → Outcome A

pub record PolicyLifecycleEvent : Type 0 where
  pub village_id : String
  pub policy_hash : String
  pub policy_version_id : Option String
  pub from_state : String
  pub to_state : String
  pub actor : Option String
  pub reason : Option String
  pub rollback_to_policy_hash : Option String

abbrev lifecycle_states : List String
lifecycle_states = "proposal" ∷ "approved" ∷ "active" ∷ "rolled_back" ∷ []

-- `_ALLOWED_TRANSITIONS[from_state]`
allowed_transitions : String → List String
allowed_transitions from =
    if from == "proposal"
    then "approved" ∷ []
    else if from == "approved"
    then "active" ∷ []
    else if from == "active"
    then "rolled_back" ∷ []
    else []

unfoldable pub validate_transition : String → String → Bool × TransitionMessage
unfolding allowed_transitions contains
validate_transition from_state to_state =
    if not (contains from_state lifecycle_states) || not (contains to_state lifecycle_states)
    then (false, unknown_lifecycle_state)
    else if contains to_state (allowed_transitions from_state)
    then (true, transition_ok)
    else (false, invalid_lifecycle_transition from_state to_state)

-- The keyword arguments of `transition_update`.
pub record Change : Type 0 where
  pub actor : Option String
  pub reason : Option String
  pub activation_time : Option ℕ
  pub activation_height : Option ℤ
  pub rollback_to_policy_hash : Option String

-- `a if a is not None else b`
abbrev if_given {ℓ} : {A : Type ℓ} → Option A → Option A → Option A
if_given none b = b
if_given (some a) b = some a

changed : VillagePolicyUpdate → String → Change → VillagePolicyUpdate
changed update to_state c = record update {
  lifecycle_state = to_state;
  actor = if truthy? c.actor then c.actor else update.actor;
  activation_time = if_given c.activation_time update.activation_time;
  activation_height = if_given c.activation_height update.activation_height;
  rollback_to_policy_hash =
      if to_state == "rolled_back"
      then c.rollback_to_policy_hash
      else update.rollback_to_policy_hash;
  public_key = none;
  signature = none;
  signatures = [];
}

event : VillagePolicyUpdate → String → Change → PolicyLifecycleEvent
event update to_state c = record {
  village_id = update.village_id;
  policy_hash = update.policy_hash;
  policy_version_id = update.policy_version_id;
  from_state = update.lifecycle_state;
  to_state = to_state;
  actor = c.actor;
  reason = c.reason;
  rollback_to_policy_hash = c.rollback_to_policy_hash;
}

unfoldable pub transition_update :
    VillagePolicyUpdate → String → Change → Outcome (VillagePolicyUpdate × PolicyLifecycleEvent)
unfolding changed event
transition_update update to_state c =
    let (valid, msg) = validate_transition update.lifecycle_state to_state in
    if not valid
    then value_error msg
    else if to_state == "rolled_back" && not (truthy? c.rollback_to_policy_hash)
    then value_error rollback_requires_hash
    else done (changed update to_state c, event update to_state c)

-- `row.get("policy")` of a row that is a dict, where it is a dict
dict_policy : Option Value → Option Value
dict_policy (some (Value.dict entries)) = some (Value.dict entries)
dict_policy _ = none

row_policy : Value → Option Value
unfolding dict_policy
row_policy (Value.dict entries) = dict_policy (get "policy" entries)
row_policy _ = none

first_with_hash : Crypto → String → List Value → Option Value
first_with_hash C h [] = none
first_with_hash C h (row ∷ rows) =
    let later = first_with_hash C h rows in
    elim (row_policy row) [
      | none ↦ later
      | some policy ↦ if compute_policy_hash C policy == h then some policy else later
    ]

unfoldable pub find_policy_in_history : Crypto → List Value → String → Option Value
unfolding first_with_hash row_policy
find_policy_in_history C history_rows policy_hash =
    first_with_hash C policy_hash (reverse history_rows)
