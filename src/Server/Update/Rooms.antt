-- ===== src/Server/Update/Rooms.antt =====
-- links/server.py: the villages that POST /villages/{village_id}/policy changes.
use policy_mesh.Server.Update.{
  policy_update, apply_stored, Request, applied, has_slash, put_update, store_policy_update,
}
use policy_mesh.Villages.Apply.{
  apply_policy_update, PolicyModel, UpdateMeta, HistoryRow, set_at, Node, Room,
}
use policy_mesh.Villages.Apply.Applied.{
  Applied, apply-Applied, with_policy, if_some, some-injective, set_at-other, set_at-here, Homed,
}
use policy_mesh.Prelude.{
  arith, Bool, true, refl, none, ◌⊎◌, ◌∙◌, codes, not, inr, ◌&&◌, ap, eq_iff, false, inl, sym,
  Bool-cases, List, ◌==◌, some, String, ◌≡◌, Option,
}
use policy_mesh.Update.{Crypto, VillagePolicyUpdate}
use policy_mesh.Villages.{Village}
use policy_mesh.Villages.Members.{Directory}
use mathlib.Core.Path.{subst}
use policy_mesh.Villages.Name.{validate_village_id}
use policy_mesh.Json.{Entries}
use policy_mesh.Server.Update.Granted.{policy_update-Effect, Granted, Effect}

-- The directory of an update's village, with the update in its feed.
unfoldable pub with_update_in : Room → VillagePolicyUpdate → Room
with_update_in room u = record room { updates = put_update u room.updates }

pub stored_lem :
    (n kept : Node) (u : VillagePolicyUpdate)
    → store_policy_update n u ≡ some kept
    → kept
      ≡ record n { rooms = set_at u.village_id (with_update_in (n.rooms u.village_id) u) n.rooms }
unfolding store_policy_update with_update_in
stored_lem n kept u h = sym (
    some-injective
      (if_some (validate_village_id u.village_id && not (has_slash (codes u.policy_hash))) _ h).1)

left_true : (a b : Bool) → a && b ≡ true → a ≡ true
left_true a b h = ground (arith, h)

pub stored_name :
    (n kept : Node) (u : VillagePolicyUpdate)
    → store_policy_update n u ≡ some kept
    → validate_village_id u.village_id ≡ true
unfolding store_policy_update
stored_name n kept u h =
    left_true (validate_village_id u.village_id) (not (has_slash (codes u.policy_hash)))
      (if_some (validate_village_id u.village_id && not (has_slash (codes u.policy_hash))) _ h).0

-- Storing an update changes no more of any village than the feed of the update's village.
pub stored_elsewhere :
    (n kept : Node) (u : VillagePolicyUpdate) (w : String)
    → store_policy_update n u ≡ some kept
    → (w == u.village_id) ≡ false
    → kept.rooms w ≡ n.rooms w
stored_elsewhere n kept u w h e =
    rw (stored_lem n kept u h) (set_at-other u.village_id _ n.rooms w e)

pub stored_here :
    (n kept : Node) (u : VillagePolicyUpdate)
    → store_policy_update n u ≡ some kept
    → kept.rooms u.village_id ≡ with_update_in (n.rooms u.village_id) u
stored_here n kept u h = rw (stored_lem n kept u h) (set_at-here u.village_id _ n.rooms)

-- Everything in the directory but the feed.
unfoldable pub but_feed : Room → Option Village × Directory × List HistoryRow
but_feed room = (room.village, room.directory, room.history)

pub stored_but_feed :
    (n kept : Node) (u : VillagePolicyUpdate) (w : String)
    → store_policy_update n u ≡ some kept
    → but_feed (kept.rooms w) ≡ but_feed (n.rooms w)
unfolding but_feed with_update_in
stored_but_feed n kept u w h = elim (Bool-cases (w == u.village_id)) [
  | inl e ↦
      subst (λ x. but_feed (kept.rooms x) ≡ but_feed (n.rooms x))
        (sym ((eq_iff w u.village_id).0 e)) (ap but_feed (stored_here n kept u h))
  | inr e ↦ ap but_feed (stored_elsewhere n kept u w h e)
]

pub stored-Homed :
    (n kept : Node) (u : VillagePolicyUpdate)
    → Homed n
    → store_policy_update n u ≡ some kept
    → Homed kept
unfolding Homed but_feed
stored-Homed n kept u homed h w v e =
    homed w v (sym (ap (λ x. x.0) (stored_but_feed n kept u w h)) ∙ e)

abbrev pub meta_of : VillagePolicyUpdate → UpdateMeta
meta_of u = record { policy_hash = u.policy_hash; policy_update = "stored" }

module _ (hash_token : String → String) (C : Crypto) (M : PolicyModel)
    (read_update : Entries → Option VillagePolicyUpdate) where
  -- What the request may do to a village: no member and no token changes, and it is the request's
  -- village, or the update's, of which only the feed changes.
  abbrev pub May : (n : Node) (q : Request) → String → Room → Type 0
  May n q w room =
      (g : Granted hash_token C M read_update n q) × (room.directory ≡ (n.rooms w).directory)
      × ((w ≡ q.village_id)
          ⊎ ((w ≡ g.update.village_id)
              × (room.village ≡ (n.rooms w).village)
              × (room.history ≡ (n.rooms w).history)))

  Allowed : (n : Node) (q : Request) → String → Room → Type 0
  Allowed n q w room = (room ≡ n.rooms w) ⊎ May n q w room

  kept-Allowed :
      (n kept : Node) (q : Request) (g : Granted hash_token C M read_update n q) (w : String)
      → store_policy_update n g.update ≡ some kept
      → Allowed n q w (kept.rooms w)
  unfolding Allowed but_feed
  kept-Allowed n kept q g w s =
      let same = stored_but_feed n kept g.update w s in
      elim (Bool-cases (w == g.update.village_id)) [
        | inl e ↦ inr (
          g,
          ap (λ x. x.1) same,
          inr ((eq_iff w g.update.village_id).0 e, ap (λ x. x.0) same, ap (λ x. x.2) same),
        )
        | inr e ↦ inl (stored_elsewhere n kept g.update w s e)
      ]

  apply-Allowed :
      (n kept after : Node) (q : Request) (g : Granted hash_token C M read_update n q) (w : String)
      → store_policy_update n g.update ≡ some kept
      → Applied M kept q.village_id g.update.policy
          (some g.member.member_id)
          (meta_of g.update)
          after
      → Allowed n q w (after.rooms w)
  unfolding Allowed but_feed with_policy
  apply-Allowed n kept after q g w s a = elim (Bool-cases (w == q.village_id)) [
    | inl e ↦
        let p = (eq_iff w q.village_id).0 e in
        inr (
          g,
          subst (λ x. (after.rooms x).directory ≡ (n.rooms x).directory) (sym p)
              (ap (λ r. r.directory) a.here
                ∙ ap (λ x. x.1) (stored_but_feed n kept g.update q.village_id s)),
          inl p,
        )
    | inr e ↦ subst (λ r. Allowed n q w r) (sym (a.elsewhere w e)) (kept-Allowed n kept q g w s)
  ]

  applied-Allowed :
      (n kept : Node) (q : Request) (g : Granted hash_token C M read_update n q)
      (after : Option Node) (w : String)
      → Homed n
      → store_policy_update n g.update ≡ some kept
      → apply_policy_update M kept q.village_id g.update.policy
          (some g.member.member_id)
          (meta_of g.update)
        ≡ after
      → Allowed n q w ((applied M kept g.update.policy_hash after).0.rooms w)
  unfolding applied
  applied-Allowed n kept q g none w homed s a = kept-Allowed n kept q g w s
  applied-Allowed n kept q g (some after) w homed s a = apply-Allowed n kept after q g w s (
      apply-Applied M kept q.village_id g.update.policy _ _ (stored-Homed n kept g.update homed s)
        a)

  stored-Allowed :
      (n : Node) (q : Request) (g : Granted hash_token C M read_update n q) (kept : Option Node)
      (w : String)
      → Homed n
      → store_policy_update n g.update ≡ kept
      → Allowed n q w ((apply_stored M n q (some g.member.member_id) g.update kept).0.rooms w)
  unfolding apply_stored Allowed
  stored-Allowed n q g none w homed s = inl refl
  stored-Allowed n q g (some kept) w homed s = applied-Allowed n kept q g _ w homed s refl

  -- POST /villages/{village_id}/policy leaves the directory of each village as it was, unless the token
  -- is that of a member whose role can manage the request's village and that village's policy allows the
  -- update's signers, and then only the request's village and the update's change, with all members and
  -- tokens as they were, and of a village that is not the request's only the feed changes. Each village
  -- is kept under its own name before.
  pub policy_update-May :
      (n : Node) (q : Request) (w : String)
      → Homed n
      → ((policy_update hash_token C M read_update n q).0.rooms w ≡ n.rooms w)
        ⊎ May n q w ((policy_update hash_token C M read_update n q).0.rooms w)
  unfolding Effect Allowed
  policy_update-May n q w homed = elim (policy_update-Effect hash_token C M read_update n q) [
    | inl same ↦ inl (ap (λ k. k.rooms w) same.0)
    | inr (g, e) ↦
        subst (λ a. Allowed n q w (a.0.rooms w)) (sym e) (stored-Allowed n q g _ w homed refl)
  ]
