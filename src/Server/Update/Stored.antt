-- ===== src/Server/Update/Stored.antt =====
-- links/server.py: what POST /villages/{village_id}/policy leaves.
use policy_mesh.Server.Update.Granted.{Granted, Effect, policy_update-Effect}
use policy_mesh.Villages.Apply.Applied.{
  apply_event, apply-Applied, apply_row, Homed, some-injective,
}
use policy_mesh.Prelude.{
  true, none, refl, [], ◌∷◌, ◌++◌, ◌≢◌, inr, ap, ◌∙◌, eq_iff, sym, inl, ◌==◌, Bool-cases, some, ◌≡◌,
  Option, String,
}
use policy_mesh.Update.{VillagePolicyUpdate, Crypto}
use policy_mesh.Villages.Apply.{apply_policy_update, load_village, UpdateMeta, Node, PolicyModel}
use policy_mesh.Json.{Value, Entries}
use policy_mesh.Villages.Apply.Applied.{loaded_lem, Applied, with_policy}
use policy_mesh.Server.Update.Rooms.{
  stored_name, stored_lem, stored_here, stored-Homed, meta_of, stored_but_feed, with_update_in,
  but_feed,
}
use policy_mesh.Villages.{VillagePolicy, Village}
use policy_mesh.Server.Update.{
  put_update, policy_update, applied, apply_stored, raised, stored, Request, store_policy_update,
}
use mathlib.Core.Path.{subst}
use policy_mesh.Villages.Name.{validate_village_id}

raised_stored : (h : String) → raised ≢ stored h
raised_stored h = cc

stored-injective : {h k : String} → stored h ≡ stored k → h ≡ k
stored-injective e = cc

with_incoming : Village → VillagePolicy → Village
with_incoming v incoming = record v { policy = incoming }

module _ (hash_token : String → String) (C : Crypto) (M : PolicyModel)
    (read_update : Entries → Option VillagePolicyUpdate) where
  -- The village has the update's policy and a row of history, the update stands in the feed of its own
  -- village, and the audit log has an entry.
  pub record Installed (n : Node) (q : Request) (h : String) (after : Node) : Type 0 where
    pub granted : Granted hash_token C M read_update n q
    pub incoming : VillagePolicy
    pub names : h ≡ granted.update.policy_hash
    pub named : validate_village_id granted.update.village_id ≡ true
    pub validated : M.validate granted.update.policy ≡ some incoming
    pub in_force :
        (after.rooms q.village_id).village ≡ some (record granted.village { policy = incoming })
    pub remembered :
        (after.rooms q.village_id).history
        ≡ (n.rooms q.village_id).history ++ (apply_row incoming (meta_of granted.update) ∷ [])
    pub in_feed :
        (after.rooms granted.update.village_id).updates
        ≡ put_update granted.update (n.rooms granted.update.village_id).updates
    pub audited :
        after.audit
        ≡ n.audit
          ++ (apply_event M q.village_id incoming
                (some granted.member.member_id)
                (meta_of granted.update)
              ∷ [])

  feed-Applied :
      (n after : Node) (id : String) (policy_obj : Value) (actor : Option String)
      (meta : UpdateMeta) (w : String)
      → Applied M n id policy_obj actor meta after
      → (after.rooms w).updates ≡ (n.rooms w).updates
  unfolding with_policy
  feed-Applied n after id policy_obj actor meta w a = elim (Bool-cases (w == id)) [
    | inl e ↦
        subst (λ x. (after.rooms x).updates ≡ (n.rooms x).updates) (sym ((eq_iff w id).0 e))
          (ap (λ r. r.updates) a.here)
    | inr e ↦ ap (λ r. r.updates) (a.elsewhere w e)
  ]

  village_stays :
      (n kept : Node) (u : VillagePolicyUpdate) (id : String) (v w : Village)
      → store_policy_update n u ≡ some kept
      → load_village n id ≡ some v
      → load_village kept id ≡ some w
      → w ≡ v
  unfolding but_feed
  village_stays n kept u id v w s l k = some-injective (
      sym (loaded_lem kept id w k)
      ∙ ap (λ x. x.0) (stored_but_feed n kept u id s)
      ∙ loaded_lem n id v l)

  installed_lem :
      (n kept after : Node) (q : Request) (g : Granted hash_token C M read_update n q)
      → store_policy_update n g.update ≡ some kept
      → Applied M kept q.village_id g.update.policy
          (some g.member.member_id)
          (meta_of g.update)
          after
      → Installed n q g.update.policy_hash after
  unfolding with_policy but_feed with_update_in with_incoming
  installed_lem n kept after q g s a = record {
    granted = g;
    incoming = a.incoming;
    names = refl;
    named = stored_name n kept g.update s;
    validated = a.validated;
    in_force =
        ap (λ r. r.village) a.here
        ∙ ap (λ v. some (with_incoming v a.incoming))
            (village_stays n kept g.update q.village_id g.village a.village s g.loaded a.loaded);
    remembered =
        ap (λ r. r.history) a.here
        ∙ ap (λ x. x.2 ++ (apply_row a.incoming (meta_of g.update) ∷ []))
            (stored_but_feed n kept g.update q.village_id s);
    in_feed =
        feed-Applied kept after q.village_id g.update.policy (some g.member.member_id)
          (meta_of g.update) g.update.village_id a
        ∙ ap (λ r. r.updates) (stored_here n kept g.update s);
    audited =
        a.audited
        ∙ ap
            (λ k.
              k.audit
              ++ (apply_event M q.village_id a.incoming (some g.member.member_id) (meta_of g.update)
                  ∷ []))
            (stored_lem n kept g.update s);
  }

  applied-Installed :
      (n kept : Node) (q : Request) (g : Granted hash_token C M read_update n q)
      (last : Option Node) (after : Node) (h : String)
      → Homed n
      → store_policy_update n g.update ≡ some kept
      → apply_policy_update M kept q.village_id g.update.policy
          (some g.member.member_id)
          (meta_of g.update)
        ≡ last
      → applied M kept g.update.policy_hash last ≡ (after, stored h)
      → Installed n q h after
  unfolding applied
  applied-Installed n kept q g none after h homed s a e = absurd (raised_stored h (ap (λ x. x.1) e))
  applied-Installed n kept q g (some last) after h homed s a e =
      subst (λ k. Installed n q h k) (ap (λ x. x.0) e)
        (subst (λ i. Installed n q i last) (stored-injective (ap (λ x. x.1) e))
          (installed_lem n kept last q g s (
            apply-Applied M kept q.village_id g.update.policy _ _
              (stored-Homed n kept g.update homed s) a)))

  stored-Installed :
      (n : Node) (q : Request) (g : Granted hash_token C M read_update n q) (kept : Option Node)
      (after : Node) (h : String)
      → Homed n
      → store_policy_update n g.update ≡ kept
      → apply_stored M n q (some g.member.member_id) g.update kept ≡ (after, stored h)
      → Installed n q h after
  unfolding apply_stored
  stored-Installed n q g none after h homed s e = absurd (raised_stored h (ap (λ x. x.1) e))
  stored-Installed n q g (some kept) after h homed s e =
      applied-Installed n kept q g _ after h homed s refl e

  -- Where POST /villages/{village_id}/policy answers that an update is stored, the token is that of a
  -- member who may manage the village, whose policy allowed the update's signers. The update stands in the
  -- feed of its own village, the village of the request has the update's policy and one more row in its
  -- history, and the audit log has one more entry. Each village is kept under its own name before.
  pub policy_update-Installed :
      (n : Node) (q : Request) (after : Node) (h : String)
      → Homed n
      → policy_update hash_token C M read_update n q ≡ (after, stored h)
      → Installed n q h after
  unfolding Effect
  policy_update-Installed n q after h homed e =
      elim (policy_update-Effect hash_token C M read_update n q) [
        | inl (same, never) ↦ absurd (never h (ap (λ x. x.1) e))
        | inr (g, done) ↦ stored-Installed n q g _ after h homed refl (sym done ∙ e)
      ]
