-- ===== src/Tests/Villages.antt =====
-- Tests of links/villages.py.
use policy_mesh.Villages.Members.History.{start}
use policy_mesh.Json.{no_entries}
use policy_mesh.Villages.Members.{
  find_row, role_of, revoke_rows, log_rotation, VillageMember, add_member, revoke_token_hash,
  Directory, authorize, is_token_revoked, revoke_member, rotate_member_token,
}
use policy_mesh.Prelude.{
  remove, add, inr, inl, Bool-cases, refl, [], contains, false, some, ◌==◌, ◌≢◌, if◌then◌else◌,
  none, true, truthy, ◌∷◌, ◌≡◌, String,
}
use policy_mesh.Villages.{Village, VillagePolicy}
use policy_mesh.Villages.Bundles.{bundle_ok, enforce_predicates, enforce_policy_on_bundle, Bundle}
use policy_mesh.Prelude.Int.{pos}
use policy_mesh.Villages.Members.Revoked.{has_row}
use policy_mesh.Villages.Members.History.{add_row, revoked_forever}
use policy_mesh.Villages.Members.Rotated.{rotate_lem, is_held}
use mathlib.Core.List.{reverse}
use policy_mesh.Villages.Issuers.{add_issuer_allow, issuer_allowed}

abbrev row : String → String → String → VillageMember
row member_id role h = record {
  member_id = member_id;
  role = role;
  token_hash = h;
  is_revoked = false;
}

-- Ann has had two tokens, the second one as an admin.
abbrev directory : Directory
directory = record {
  has_village = true;
  members = row "ann" "member" "k1" ∷ row "bob" "member" "k2" ∷ row "ann" "admin" "k3" ∷ [];
  revocations = [];
  audit = [];
}

abbrev hash : String → String
hash s =
    if s == "one" then "k1" else if s == "two" then "k2" else if s == "three" then "k3" else "k4"

hash-truthy : (s : String) → truthy (hash s) ≡ true
hash-truthy s = elim (Bool-cases (s == "one")) [
  | inl e ↦ rw e refl
  | inr e ↦ rw e (elim (Bool-cases (s == "two")) [
    | inl f ↦ rw f refl
    | inr f ↦ rw f (elim (Bool-cases (s == "three")) [ inl g ↦ rw g refl | inr g ↦ rw g refl ])
  ])
]

rotated_role :
    authorize hash (rotate_member_token hash directory "ann" "four" none).0 "four"
    ≡ some (row "ann" "admin" "k4")
unfolding authorize rotate_member_token add_member log_rotation is_token_revoked revoke_member
    revoke_rows revoke_token_hash contains find_row role_of
rotated_role = refl

-- A member that nobody has added is added by a rotation.
rotated_stranger :
    authorize hash (rotate_member_token hash directory "eve" "four" none).0 "four"
    ≡ some (row "eve" "member" "k4")
unfolding authorize rotate_member_token add_member log_rotation is_token_revoked revoke_member
    revoke_rows revoke_token_hash contains find_row role_of
rotated_stranger = refl

rotate_lem_example :
    let after = (rotate_member_token hash directory "ann" "four" none).0 in
    (has_row "ann" (hash "two") directory.members ≡ true → authorize hash after "two" ≡ none)
    × (is_held hash directory "four" ≡ false
        → is_token_revoked directory (hash "four") ≡ false
        → authorize hash after "four"
          ≡ some (record {
            member_id = "ann";
            role = role_of "ann" (reverse directory.members);
            token_hash = hash "four";
            is_revoked = false;
          }))
    × (hash "two" ≢ hash "four"
        → has_row "ann" (hash "two") directory.members ≡ false
        → authorize hash after "two" ≡ authorize hash directory "two")
rotate_lem_example = rotate_lem hash directory "ann" "four" none "two" refl hash-truthy

abbrev banned : Directory
banned = revoke_token_hash directory "k2" none "lost"

k2_revoked : is_token_revoked banned (hash "two") ≡ true
unfolding is_token_revoked revoke_token_hash contains
k2_revoked = refl

revoked_forever_example :
    authorize hash (add_member hash banned "bob" "admin" "two" none).0 "two" ≡ none
revoked_forever_example = revoked_forever "two" (add_row "bob" "admin" "two" none start) k2_revoked

abbrev policy : VillagePolicy
policy = record {
  visibility = "village";
  allowed_predicates = "links.weighted_to" ∷ [];
  quarantine_external_bundles = false;
  quarantine_review_min_approvals = pos 1;
  max_window_days = pos 30;
  min_signature_alg = "Ed25519";
  allow_unverified = false;
  retention_days = pos 90;
  rate_limit_per_min = pos 60;
  rate_limit_strategy = "fixed_window";
  submission_quota_per_day = pos 0;
  public_policy_endpoint = false;
  policy_update_expires_minutes = pos 0;
  issuer_allowlist = [];
  issuer_blocklist = "bad" ∷ [];
  issuer_id_allowlist = [];
  issuer_id_blocklist = [];
  require_policy_signature = false;
  policy_signer_allowlist = [];
  policy_signature_threshold_m = pos 1;
  policy_quorum = no_entries;
  policy_signer_weights = no_entries;
  policy_signer_roles = [];
  trusted_manifest_signer_allowlist = [];
  require_manifest_signature = false;
  require_trusted_manifest_signer = false;
  require_quorum_metadata = false;
  require_issuer_allowlist = false;
  capabilities = [];
}

abbrev village : Village
village = record {
  village_id = "ops";
  name = "Ops";
  description = "";
  created_at = 0;
  governance = record { admins = "ann" ∷ []; decision_model = "admin-consensus" };
  policy = policy;
}

abbrev bundle : Bundle
bundle = record { window_days = pos 7; predicates = some "links.weighted_to" ∷ none ∷ some "" ∷ [] }

-- A claim without a predicate, or with an empty one, is let through.
bundle_accepted : enforce_policy_on_bundle village bundle ≡ (true, bundle_ok)
unfolding enforce_policy_on_bundle enforce_predicates contains
bundle_accepted = refl

-- A blocked issuer is let in again.
bad_shut_out : issuer_allowed policy "bad" ≡ false
unfolding issuer_allowed contains
bad_shut_out = refl

bad_let_in : issuer_allowed (add_issuer_allow policy "bad") "bad" ≡ true
unfolding issuer_allowed add_issuer_allow contains add remove
bad_let_in = refl
