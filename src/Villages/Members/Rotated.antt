-- ===== src/Villages/Members/Rotated.antt =====
-- Rotation of a member's token, and sequences of operations.
use policy_mesh.Prelude.{
  eq_iff, ◌∙◌, eq_refl, inr, inl, not, ◌&&◌, ◌==◌, ◌||◌, ◌≢◌, Bool-cases, refl, arith,
  if◌then◌else◌, some, [], none, truthy, false, true, ◌∷◌, map, ◌++◌, ◌≡◌, Bool, List, Option,
  contains, String,
}
use policy_mesh.Villages.Members.{
  log_rotation, is_token_revoked, add_member, role_of, VillageMember, rotate_member_token,
  Directory, authorize, find_row,
}
use mathlib.Core.List.{reverse}
use policy_mesh.Villages.Members.Revoked.{revoked-revoke_member, revoke_member-SameRows, has_row}

-- The first of two answers that is one.
abbrev or_else : Option VillageMember → Option VillageMember → Option VillageMember
or_else none o = o
or_else (some m) o = some m

or_else-none : (o : Option VillageMember) → or_else o none ≡ o
or_else-none none = refl
or_else-none (some m) = refl

module _ (hash_token : String → String) where
  new_row : Directory → String → String → VillageMember
  new_row d member_id new = record {
    member_id = member_id;
    role = role_of member_id (reverse d.members);
    token_hash = hash_token new;
    is_revoked = false;
  }

  -- Whether some row has the hash of the token.
  abbrev pub is_held : Directory → String → Bool
  is_held d token = contains (hash_token token) (map (λ m. m.token_hash) d.members)

  find_row-snoc :
      (w : String) (rows : List VillageMember) (m : VillageMember)
      → find_row w (rows ++ (m ∷ [])) ≡ or_else (find_row w rows) (find_row w (m ∷ []))
  unfolding find_row
  find_row-snoc w [] m = refl
  find_row-snoc w (x ∷ rows) m = elim (Bool-cases (x.token_hash == w && not x.is_revoked)) [
    | inl e ↦ rw e refl
    | inr e ↦ rw e (find_row-snoc w rows m)
  ]

  find_row-absent :
      (w : String) (rows : List VillageMember)
      → contains w (map (λ m. m.token_hash) rows) ≡ false
      → find_row w rows ≡ none
  unfolding find_row contains
  find_row-absent w [] h = refl
  find_row-absent w (x ∷ rows) h = ground (arith, find_row-absent w rows)

  not_held-has_row :
      (member_id w : String) (rows : List VillageMember)
      → contains w (map (λ m. m.token_hash) rows) ≡ false
      → has_row member_id w rows ≡ false
  unfolding has_row contains
  not_held-has_row member_id w [] h = refl
  not_held-has_row member_id w (x ∷ rows) h = ground (arith, not_held-has_row member_id w rows)

  find_row-other : (w : String) (m : VillageMember) → w ≢ m.token_hash → find_row w (m ∷ []) ≡ none
  unfolding find_row
  find_row-other w m h = ground (arith, eq_iff m.token_hash w)

  authorize-rotate :
      (d : Directory) (member_id new : String) (actor : Option String) (token : String)
      → d.has_village ≡ true
      → truthy (hash_token token) ≡ true
      → authorize hash_token (rotate_member_token hash_token d member_id new actor).0 token ≡ (
          if is_token_revoked d (hash_token token) || has_row member_id (hash_token token) d.members
          then none
          else find_row (hash_token token) (d.members ++ (new_row d member_id new ∷ [])))
  unfolding authorize rotate_member_token add_member new_row log_rotation is_token_revoked
  authorize-rotate d member_id new actor token h full =
      let (same, village) = revoke_member-SameRows member_id actor "rotated" d in
      rw
        (
          village ∙ h,
          same,
          revoked-revoke_member member_id actor "rotated" d (hash_token token),
          full,
        )
        refl

  -- Rotating the token of a member of an existing village. A token of a row that the member had
  -- authorizes nobody, also where it is the new one. The new token, where no row has its hash and it
  -- was never revoked, authorizes as the member, in the role of the member's last row. A token
  -- with another hash than the new one, that no row of the member has, authorizes whom it did.
  pub rotate_lem :
      (d : Directory) (member_id new : String) (actor : Option String) (token : String)
      → d.has_village ≡ true
      → ((t : String) → truthy (hash_token t) ≡ true)
      → let after = (rotate_member_token hash_token d member_id new actor).0 in
        (has_row member_id (hash_token token) d.members ≡ true
          → authorize hash_token after token ≡ none)
        × (is_held d new ≡ false
            → is_token_revoked d (hash_token new) ≡ false
            → authorize hash_token after new
              ≡ some (record {
                member_id = member_id;
                role = role_of member_id (reverse d.members);
                token_hash = hash_token new;
                is_revoked = false;
              }))
        × (hash_token token ≢ hash_token new
            → has_row member_id (hash_token token) d.members ≡ false
            → authorize hash_token after token ≡ authorize hash_token d token)
  unfolding find_row new_row authorize
  rotate_lem d member_id new actor token h full = (
    λ w. rw (authorize-rotate d member_id new actor token h (full token)) (ground arith),
    λ free fresh.
        rw
          (
            authorize-rotate d member_id new actor new h (full new),
            fresh,
            find_row-snoc (hash_token new) d.members (new_row d member_id new),
            find_row-absent (hash_token new) d.members free,
            not_held-has_row member_id (hash_token new) d.members free,
          )
          (rw (eq_refl (hash_token new)) refl),
    λ other kept.
        rw
          (
            authorize-rotate d member_id new actor token h (full token),
            kept,
            find_row-snoc (hash_token token) d.members (new_row d member_id new),
            find_row-other (hash_token token) (new_row d member_id new) other,
            or_else-none (find_row (hash_token token) d.members),
          )
          (ground arith),
  )
