-- ===== src/Villages/Issuers.antt =====
-- links/villages.py: the issuers that a village accepts, by key hash and by identifier. The audit
-- entry of a change is left out.
pub mod Laws
use policy_mesh.Prelude.{
  true, is_empty, not, false, contains, if◌then◌else◌, Bool, String, remove, add,
}
use policy_mesh.Villages.{VillagePolicy}

unfoldable pub issuer_allowed : VillagePolicy → String → Bool
issuer_allowed policy issuer_key_hash =
    if contains issuer_key_hash policy.issuer_blocklist
    then false
    else if policy.require_issuer_allowlist
    then contains issuer_key_hash policy.issuer_allowlist
    else if not (is_empty policy.issuer_allowlist)
    then contains issuer_key_hash policy.issuer_allowlist
    else true

unfoldable pub issuer_id_allowed : VillagePolicy → String → Bool
issuer_id_allowed policy issuer_id =
    if contains issuer_id policy.issuer_id_blocklist
    then false
    else if not (is_empty policy.issuer_id_allowlist)
    then contains issuer_id policy.issuer_id_allowlist
    else true

-- The policy that `add_issuer_allow` and `add_issuer_block` save.
unfoldable pub add_issuer_allow : VillagePolicy → String → VillagePolicy
unfolding add remove
add_issuer_allow policy issuer_key_hash = record policy {
  issuer_allowlist = add issuer_key_hash policy.issuer_allowlist;
  issuer_blocklist = remove issuer_key_hash policy.issuer_blocklist;
}

unfoldable pub add_issuer_block : VillagePolicy → String → VillagePolicy
unfolding add
add_issuer_block policy issuer_key_hash = record policy {
  issuer_blocklist = add issuer_key_hash policy.issuer_blocklist;
}
