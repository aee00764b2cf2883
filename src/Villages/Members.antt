-- ===== src/Villages/Members.antt =====
-- links/villages.py: the members of one village, whose tokens are kept as hashes. The state is what
-- the village's directory holds; rows are appended to its files and never changed. The times of the
-- rows are left out.
pub mod History
pub mod Revoked
pub mod Rotated
use policy_mesh.Prelude.{
  some, ◌+◌, not, truthy, ◌&&◌, ◌==◌, [], false, if◌then◌else◌, map, none, ℕ, Option, contains, ◌∷◌,
  Bool, List, String, ◌++◌,
}
use mathlib.Core.List.{reverse}

pub record VillageMember : Type 0 where
  pub member_id : String
  pub role : String
  pub token_hash : String
  pub is_revoked : Bool

pub record Revocation : Type 0 where
  pub token_hash : String
  pub actor : Option String
  pub reason : String

-- The reasons of audit entries: one that is given, and the texts `role=...` and `member_id=...`.
pub data AuditReason : Type 0 where
  given : String → AuditReason
  with_role : String → AuditReason
  of_member : String → AuditReason

pub record AuditEvent : Type 0 where
  pub action : String
  pub actor : Option String
  pub reason : AuditReason

-- `village.json` is there, the rows of `members.jsonl` and of `revocations.jsonl`, and the audit log.
pub record Directory : Type 0 where
  pub has_village : Bool
  pub members : List VillageMember
  pub revocations : List Revocation
  pub audit : List AuditEvent

abbrev pub audited : AuditEvent → Directory → Directory
audited event d = record d { audit = d.audit ++ (event ∷ []) }

unfoldable pub is_token_revoked : Directory → String → Bool
is_token_revoked d token_hash = contains token_hash (map (λ r. r.token_hash) d.revocations)

unfoldable pub revoke_token_hash : Directory → String → Option String → String → Directory
revoke_token_hash d token_hash actor reason =
    audited (record { action = "member.revoke"; actor = actor; reason = given reason })
      (record d {
        revocations =
            d.revocations
            ++ (record { token_hash = token_hash; actor = actor; reason = reason } ∷ []);
      })

-- the loop over the rows, which are read once, before the first revocation
unfoldable pub revoke_rows :
    List VillageMember → Directory → String → Option String → String → Directory × ℕ
revoke_rows [] d member_id actor reason = (d, 0)
revoke_rows (m ∷ rest) d member_id actor reason =
    let th = m.token_hash in
    let revokes = m.member_id == member_id && (truthy th && not (is_token_revoked d th)) in
    let (after, count) =
      revoke_rows rest (if revokes then revoke_token_hash d th actor reason else d) member_id actor
        reason in
    (after, if revokes then count + 1 else count)

unfoldable pub revoke_member : Directory → String → Option String → String → Directory × ℕ
unfolding revoke_rows
revoke_member d member_id actor reason = revoke_rows d.members d member_id actor reason

-- the first row with the hash that is not marked as revoked
unfoldable pub find_row : String → List VillageMember → Option VillageMember
find_row want [] = none
find_row want (m ∷ rest) =
    let later = find_row want rest in
    if m.token_hash == want && not m.is_revoked then some m else later

-- the role of the first row of the member, in the rows from the last to the first
unfoldable pub role_of : String → List VillageMember → String
role_of member_id [] = "member"
role_of member_id (m ∷ rest) =
    let later = role_of member_id rest in if m.member_id == member_id then m.role else later

pub data Added : Type 0 where
  added : VillageMember → Added
  file_not_found : Added

-- SHA-256 of a token, in hexadecimal digits.
module _ (hash_token : String → String) where
  unfoldable pub authorize : Directory → String → Option VillageMember
  authorize d token_plain =
      let want = hash_token token_plain in
      if is_token_revoked d want then none else find_row want d.members

  unfoldable pub add_member :
      Directory → String → String → String → Option String → Directory × Added
  add_member d member_id role token_plain actor =
      let m : VillageMember = record {
        member_id = member_id;
        role = role;
        token_hash = hash_token token_plain;
        is_revoked = false;
      } in
      if d.has_village
      then (
        audited (record { action = "member.add"; actor = actor; reason = with_role role })
            (record d { members = d.members ++ (m ∷ []) }),
        added m,
      )
      else (d, file_not_found)

  -- the last audit entry is written where the member was added, since the exception passes it by
  unfoldable pub log_rotation : String → Option String → Directory × Added → Directory × Added
  log_rotation member_id actor (d, added m) = (
    audited (record { action = "member.rotate"; actor = actor; reason = of_member member_id }) d,
    added m,
  )
  log_rotation member_id actor (d, file_not_found) = (d, file_not_found)

  unfoldable pub rotate_member_token :
      Directory → String → String → Option String → Directory × Added
  unfolding log_rotation
  rotate_member_token d member_id new_token_plain actor =
      let revoked = (revoke_member d member_id actor "rotated").0 in
      let role = role_of member_id (reverse revoked.members) in
      log_rotation member_id actor (add_member revoked member_id role new_token_plain actor)
