-- ===== src/Villages/Members/History.antt =====
-- Any sequence of the operations on the members of one village.
-- The second directory comes from the first one by operations.
use policy_mesh.Prelude.{inr, inl, none, refl, ◌∙◌, Bool-cases, true, ◌≡◌, Option, String}
use policy_mesh.Villages.Members.{
  file_not_found, added, revoke_member, Added, revoke_token_hash, is_token_revoked, Directory,
  add_member, authorize, log_rotation, rotate_member_token,
}
use policy_mesh.Villages.Members.Revoked.{revoked-revoke_member, revoked-revoke}

pub data Reaches (hash_token : String → String) : Directory → Directory → Type 0 where
  start : {d : Directory} → Reaches hash_token d d
  revoke_hash :
      {d e : Directory} (token_hash : String) (actor : Option String) (reason : String)
      → Reaches hash_token d e
      → Reaches hash_token d (revoke_token_hash e token_hash actor reason)
  revoke :
      {d e : Directory} (member_id : String) (actor : Option String) (reason : String)
      → Reaches hash_token d e
      → Reaches hash_token d (revoke_member e member_id actor reason).0
  add_row :
      {d e : Directory} (member_id role token : String) (actor : Option String)
      → Reaches hash_token d e
      → Reaches hash_token d (add_member hash_token e member_id role token actor).0
  rotate :
      {d e : Directory} (member_id token : String) (actor : Option String)
      → Reaches hash_token d e
      → Reaches hash_token d (rotate_member_token hash_token e member_id token actor).0

module _ (hash_token : String → String) where
  add-revocations :
      (d : Directory) (member_id role token : String) (actor : Option String)
      → (add_member hash_token d member_id role token actor).0.revocations ≡ d.revocations
  unfolding add_member
  add-revocations d member_id role token actor = elim (Bool-cases d.has_village) [
    | inl e ↦ rw e refl
    | inr e ↦ rw e refl
  ]

  log-revocations :
      (member_id : String) (actor : Option String) (r : Directory × Added)
      → (log_rotation hash_token member_id actor r).0.revocations ≡ r.0.revocations
  unfolding log_rotation
  log-revocations member_id actor (d, added m) = refl
  log-revocations member_id actor (d, file_not_found) = refl

  rotate-revocations :
      (d : Directory) (member_id token : String) (actor : Option String)
      → (rotate_member_token hash_token d member_id token actor).0.revocations
        ≡ (revoke_member d member_id actor "rotated").0.revocations
  unfolding rotate_member_token
  rotate-revocations d member_id token actor =
      log-revocations member_id actor _ ∙ add-revocations _ member_id _ token actor

module _ {hash_token : String → String} where
  revoked_stays :
      {d e : Directory} (k : String)
      → Reaches hash_token d e
      → is_token_revoked d k ≡ true
      → is_token_revoked e k ≡ true
  unfolding is_token_revoked
  revoked_stays k start v = v
  revoked_stays k (revoke_hash {e = e} h actor reason r) v =
      rw (revoked-revoke e h k actor reason, revoked_stays k r v) refl
  revoked_stays k (revoke {e = e} member_id actor reason r) v =
      rw (revoked-revoke_member member_id actor reason e k, revoked_stays k r v) refl
  revoked_stays k (add_row {e = e} member_id role token actor r) v =
      rw (add-revocations hash_token e member_id role token actor) (revoked_stays k r v)
  revoked_stays k (rotate {e = e} member_id token actor r) v =
      rw
        (
          rotate-revocations hash_token e member_id token actor,
          revoked-revoke_member member_id actor "rotated" e k,
          revoked_stays k r v,
        )
        refl

  -- A token that is revoked once authorizes nobody after any sequence of revocations, additions and
  -- rotations, also where a member is added with that token again.
  pub revoked_forever :
      {d e : Directory} (token : String)
      → Reaches hash_token d e
      → is_token_revoked d (hash_token token) ≡ true
      → authorize hash_token e token ≡ none
  unfolding authorize
  revoked_forever token r v = rw (revoked_stays (hash_token token) r v) refl
