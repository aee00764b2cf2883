-- ===== src/Villages/Members/Revoked.antt =====
-- What revoking the tokens of a member does to every token.
-- Whether a row of the member has the hash.
use policy_mesh.Prelude.{
  eq_iff, inr, refl, eq_refl, inl, [], none, not, Bool-cases, false, if◌then◌else◌, ◌&&◌, ◌++◌,
  Bool, arith, map, true, truthy, ◌==◌, ◌∷◌, ◌||◌, List, Option, ◌≡◌, String, contains,
}
use policy_mesh.Villages.Members.{
  Revocation, VillageMember, authorize, revoke_member, revoke_rows, revoke_token_hash, Directory,
  is_token_revoked,
}

unfoldable pub has_row : String → String → List VillageMember → Bool
has_row member_id h [] = false
has_row member_id h (m ∷ rest) =
    (m.member_id == member_id && m.token_hash == h) || has_row member_id h rest

contains-snoc :
    (k : String) (rows : List Revocation) (r : Revocation)
    → contains k (map (λ x. x.token_hash) (rows ++ (r ∷ [])))
      ≡ (contains k (map (λ x. x.token_hash) rows) || r.token_hash == k)
unfolding contains
contains-snoc k [] r = ground arith
contains-snoc k (x ∷ rows) r = ground (arith, contains-snoc k rows r)

pub revoked-revoke :
    (d : Directory) (h k : String) (actor : Option String) (reason : String)
    → is_token_revoked (revoke_token_hash d h actor reason) k ≡ (is_token_revoked d k || h == k)
unfolding is_token_revoked revoke_token_hash
revoked-revoke d h k actor reason = contains-snoc k d.revocations _

-- What a list of revocations leaves as it was.
abbrev pub SameRows : Directory → Directory → Type 0
SameRows d e = (e.members ≡ d.members) × (e.has_village ≡ d.has_village)

module _ (member_id : String) (actor : Option String) (reason : String) where
  rows-SameRows :
      (rows : List VillageMember) (d : Directory)
      → SameRows d (revoke_rows rows d member_id actor reason).0
  unfolding revoke_rows revoke_token_hash
  rows-SameRows [] d = (refl, refl)
  rows-SameRows (m ∷ rest) d =
      elim (Bool-cases (
        m.member_id == member_id
        && (truthy m.token_hash && not (is_token_revoked d m.token_hash)))) [
          | inl e ↦ rw e (rows-SameRows rest (revoke_token_hash d m.token_hash actor reason))
          | inr e ↦ rw e (rows-SameRows rest d)
        ]

  revoked-rows :
      (rows : List VillageMember) (d : Directory) (k : String)
      → is_token_revoked (revoke_rows rows d member_id actor reason).0 k
        ≡ (is_token_revoked d k || (truthy k && has_row member_id k rows))
  unfolding revoke_rows has_row
  revoked-rows [] d k = ground arith
  revoked-rows (m ∷ rest) d k =
      elim (Bool-cases (
        m.member_id == member_id
        && (truthy m.token_hash && not (is_token_revoked d m.token_hash)))) [
          | inl e ↦
              let after = revoke_token_hash d m.token_hash actor reason in
              rw e (
                ground (
                  arith,
                  revoked-rows rest after k,
                  revoked-revoke d m.token_hash k actor reason,
                  eq_iff m.token_hash k,
                ))
          | inr e ↦ rw e (ground (arith, revoked-rows rest d k, eq_iff m.token_hash k))
        ]

  rows-idle :
      (rows : List VillageMember) (d : Directory)
      → ((k : String)
          → has_row member_id k rows ≡ true
          → truthy k ≡ true
          → is_token_revoked d k ≡ true)
      → revoke_rows rows d member_id actor reason ≡ (d, 0)
  unfolding revoke_rows has_row
  rows-idle [] d h = refl
  rows-idle (m ∷ rest) d h =
      let quiet : (m.member_id == member_id
            && (truthy m.token_hash && not (is_token_revoked d m.token_hash)))
          ≡ false =
        ground (arith, h m.token_hash, eq_refl m.token_hash) in
      rw quiet (rw (rows-idle rest d (λ k w. h k (ground arith))) refl)

  pub revoke_member-SameRows :
      (d : Directory) → SameRows d (revoke_member d member_id actor reason).0
  unfolding revoke_member
  revoke_member-SameRows d = rows-SameRows d.members d

  pub revoked-revoke_member :
      (d : Directory) (k : String)
      → is_token_revoked (revoke_member d member_id actor reason).0 k
        ≡ (is_token_revoked d k || (truthy k && has_row member_id k d.members))
  unfolding revoke_member
  revoked-revoke_member d k = revoked-rows d.members d k

  -- After the tokens of a member are revoked, a token whose hash is in a row of the member
  -- authorizes nobody, and every other token authorizes whom it authorized before. Hashes are not
  -- empty.
  pub authorize-revoke_member :
      (hash_token : String → String) (d : Directory) (token : String)
      → truthy (hash_token token) ≡ true
      → authorize hash_token (revoke_member d member_id actor reason).0 token ≡ (
          if has_row member_id (hash_token token) d.members
          then none
          else authorize hash_token d token)
  unfolding authorize revoke_member
  authorize-revoke_member hash_token d token full =
      let k = hash_token token in
      let (same, _) = rows-SameRows d.members d in
      rw (revoked-rows d.members d k, same, full) (ground arith)

  -- Revoking the tokens of a member a second time revokes nothing and changes nothing.
  pub revoke_member_again :
      (d : Directory)
      → let after = (revoke_member d member_id actor reason).0 in
        revoke_member after member_id actor reason ≡ (after, 0)
  unfolding revoke_member
  revoke_member_again d =
      let (same, _) = rows-SameRows d.members d in
      rw same (
        rows-idle d.members _ (λ k w full. rw (revoked-rows d.members d k, w, full) (ground arith)))
