-- ===== src/Villages.antt =====
-- links/villages.py: the policy of a village, and what it says of roles, issuers and bundles.
pub mod Bundles
pub mod Issuers
pub mod Members
pub mod Name
pub mod Apply
use policy_mesh.Prelude.{
  [], ◌∷◌, false, ◌==◌, if◌then◌else◌, none, some, ℕ, Bool, List, Option, String,
}
use policy_mesh.Prelude.Int.{ℤ}
use policy_mesh.Json.{Entries}

pub record VillageCapabilities : Type 0 where
  pub can_pull : Bool
  pub can_push : Bool
  pub can_manage : Bool

-- The weights of signers are numbers with a fraction in the source, and stay JSON here.
pub record VillagePolicy : Type 0 where
  pub visibility : String
  pub allowed_predicates : List String
  pub quarantine_external_bundles : Bool
  pub quarantine_review_min_approvals : ℤ
  pub max_window_days : ℤ
  pub min_signature_alg : String
  pub allow_unverified : Bool
  pub retention_days : ℤ
  pub rate_limit_per_min : ℤ
  pub rate_limit_strategy : String
  pub submission_quota_per_day : ℤ
  pub public_policy_endpoint : Bool
  pub policy_update_expires_minutes : ℤ
  pub issuer_allowlist : List String
  pub issuer_blocklist : List String
  pub issuer_id_allowlist : List String
  pub issuer_id_blocklist : List String
  pub require_policy_signature : Bool
  pub policy_signer_allowlist : List String
  pub policy_signature_threshold_m : ℤ
  pub policy_quorum : Entries
  pub policy_signer_weights : Entries
  pub policy_signer_roles : List (String × List String)
  pub trusted_manifest_signer_allowlist : List String
  pub require_manifest_signature : Bool
  pub require_trusted_manifest_signer : Bool
  pub require_quorum_metadata : Bool
  pub require_issuer_allowlist : Bool
  pub capabilities : List (String × VillageCapabilities)

pub record VillageGovernance : Type 0 where
  pub admins : List String
  pub decision_model : String

pub record Village : Type 0 where
  pub village_id : String
  pub name : String
  pub description : String
  pub created_at : ℕ
  pub governance : VillageGovernance
  pub policy : VillagePolicy

-- `policy.capabilities.get(role)`
capabilities_of : String → List (String × VillageCapabilities) → Option VillageCapabilities
capabilities_of role [] = none
capabilities_of role ((r, granted) ∷ rest) =
    if r == role then some granted else capabilities_of role rest

-- `x or y`, for objects that are never false
either : Option VillageCapabilities → Option VillageCapabilities → Option VillageCapabilities
either none y = y
either (some x) y = some x

attribute : (VillageCapabilities → Bool) → Option VillageCapabilities → Option Bool
attribute f none = none
attribute f (some x) = some (f x)

-- Whether the role may take the action; `none` is the AttributeError that `None.can_pull` raises.
unfoldable pub role_can : VillagePolicy → String → String → Option Bool
unfolding capabilities_of either attribute
role_can policy role action =
    let granted =
      either (capabilities_of role policy.capabilities)
        (capabilities_of "observer" policy.capabilities) in
    if action == "pull"
    then attribute (λ c. c.can_pull) granted
    else if action == "push"
    then attribute (λ c. c.can_push) granted
    else if action == "manage"
    then attribute (λ c. c.can_manage) granted
    else some false
