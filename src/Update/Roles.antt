-- ===== src/Update/Roles.antt =====
-- links/policy_updates.py: the role-based check of an update's signatures.
pub mod Counts
pub mod Equivalent
use policy_mesh.Update.{
  legacy, verify_one, payload_for_signing, compute_policy_hash, key_hash_from_public_key_b64, ok,
  ◌>>=◌, Result, SignatureEntry, Payload, VillagePolicyUpdate, Crypto, QuorumRequirement,
}
use policy_mesh.Prelude.{
  ◌++◌, add, contains, not, ◌+◌, ◌||◌, true, ◌==◌, Option, [], false, if◌then◌else◌, ltb, Bool, ℕ,
  ◌∷◌, List, String,
}
use policy_mesh.Prelude.Int.{pos, ltb_ℤ, ℤ}
use policy_mesh.Update.Quorum.{allow_set, blocked}

-- `role_counts`, by the roles of the requirements
abbrev pub Counts : Type 0
Counts = List (String × ℕ)

pub data RoleMessage : Type 0 where
  roles_ok : RoleMessage
  roles_hash_mismatch : RoleMessage
  roles_not_met : List (String × ℕ × ℤ) → RoleMessage

unfoldable pub has_role : String → Counts → Bool
has_role role [] = false
has_role role ((r, _) ∷ rest) = r == role || has_role role rest

-- `{r.role: 0 for r in requirements}`, added to a dict
unfoldable pub start_from : Counts → List QuorumRequirement → Counts
unfolding has_role
start_from counts [] = counts
start_from counts (r ∷ rs) =
    start_from (if has_role r.role counts then counts else counts ++ ((r.role, 0) ∷ [])) rs

-- `roles_by_key_hash.get(kh, [])`
unfoldable pub roles_of : List (String × List String) → String → List String
roles_of [] kh = []
roles_of ((k, roles) ∷ rest) kh = let later = roles_of rest kh in if k == kh then roles else later

-- `if role in role_counts: role_counts[role] += 1`
unfoldable pub count_role : String → Counts → Counts
count_role role [] = []
count_role role ((r, n) ∷ rest) =
    let later = count_role role rest in if r == role then (r, n + 1) ∷ rest else (r, n) ∷ later

unfoldable pub count_roles : List String → Counts → Counts
unfolding count_role
count_roles [] counts = counts
count_roles (role ∷ roles) counts = count_roles roles (count_role role counts)

-- `role_counts.get(role, 0)`
unfoldable pub role_count : String → Counts → ℕ
role_count role [] = 0
role_count role ((r, n) ∷ rest) = let later = role_count role rest in if r == role then n else later

-- `role_counts.get(req.role, 0) < int(req.min_signers)`
abbrev pub lacks : Counts → QuorumRequirement → Bool
lacks counts req = ltb_ℤ (pos (role_count req.role counts)) req.min_signers

unfoldable pub missing_roles : Counts → List QuorumRequirement → List (String × ℕ × ℤ)
missing_roles counts [] = []
missing_roles counts (req ∷ reqs) =
    let rest = missing_roles counts reqs in
    if lacks counts req
    then (req.role, role_count req.role counts, req.min_signers) ∷ rest
    else rest

module _ (C : Crypto) (payload : Payload) (allow : List String)
    (roles : List (String × List String)) where
  -- `maybe_count`, on what it adds to: the counts of the roles and the counted keys
  unfoldable pub count_signed_roles :
      SignatureEntry → Counts × List String → Result (Counts × List String)
  count_signed_roles e (counts, counted) = do
    kh ← key_hash_from_public_key_b64 C e.public_key
    if contains kh counted || blocked allow kh then ok (counts, counted) else do
      good ← verify_one C payload e.public_key e.signature e.alg
      ok (
          if good
          then (count_roles (roles_of roles kh) counts, add kh counted)
          else (counts, counted))

  unfoldable pub count_all_roles :
      List SignatureEntry → Counts × List String → Result (Counts × List String)
  unfolding count_signed_roles
  count_all_roles [] state = ok state
  count_all_roles (e ∷ es) state = do state' ← count_signed_roles e state; count_all_roles es state'

-- the verdict on the requirements that are not met
abbrev pub roles_verdict : List (String × ℕ × ℤ) → Counts → Bool × RoleMessage × Counts
roles_verdict [] counts = (true, roles_ok, counts)
roles_verdict (m ∷ ms) counts = (false, roles_not_met (m ∷ ms), counts)

module _ (C : Crypto) where
  unfoldable pub verify_update_role_based_quorum :
      VillagePolicyUpdate
      → List (String × List String)
      → List QuorumRequirement
      → Option (List String)
      → Result (Bool × RoleMessage × Counts)
  unfolding start_from roles_of count_all_roles missing_roles
  verify_update_role_based_quorum u roles requirements signer_allowlist =
      if not (u.policy_hash == compute_policy_hash C u.policy)
      then ok (false, roles_hash_mismatch, [])
      else do
        let payload = payload_for_signing u
        let allow = allow_set signer_allowlist
        state ← count_all_roles C payload allow roles u.signatures (start_from [] requirements, [])
        final ← count_all_roles C payload allow roles (legacy C u) state
        ok (roles_verdict (missing_roles final.0 requirements) final.0)
