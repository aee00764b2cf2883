-- ===== src/Server/Update/Granted.antt =====
-- links/server.py: who can change what by POST /villages/{village_id}/policy.
use policy_mesh.Villages.Apply.{load_village, PolicyModel, Node}
use policy_mesh.Prelude.{
  if◌then◌else◌, none, false, inr, refl, true, inl, ◌⊎◌, Bool, ◌≢◌, Option, some, ◌≡◌, String,
}
use policy_mesh.Villages.{role_can, Village}
use policy_mesh.Update.{ok, Result, VillagePolicyUpdate, Crypto}
use policy_mesh.Json.{Entries}
use policy_mesh.Server.Update.{
  forbidden, as_member, managed, policy_update, with_update, rejected, raised, raise, update_of,
  store_policy_update, apply_stored, member_of, stored, Reply, Request, write,
}
use policy_mesh.Villages.Members.{VillageMember}
use policy_mesh.Feed.Policy.{signer_allowed, FeedMessage}
use policy_mesh.Server.Token.{bearer_token}
use policy_mesh.Villages.Name.{validate_village_id}

-- A signed-in member, whose role can manage the village, and an update that the village's policy allows.
pub record Granted (hash_token : String → String) (C : Crypto) (M : PolicyModel)
    (read_update : Entries → Option VillagePolicyUpdate) (n : Node) (q : Request) : Type 0 where
  pub member : VillageMember
  pub village : Village
  pub update : VillagePolicyUpdate
  pub message : FeedMessage
  pub signed_in :
      member_of hash_token (n.rooms q.village_id) (bearer_token q.authorization) ≡ some member
  pub loaded : load_village n q.village_id ≡ some village
  pub manages : role_can village.policy member.role "manage" ≡ some true
  pub reads : update_of C read_update q (some member.member_id) ≡ some update
  pub allows : signer_allowed C (M.dump village.policy) update ≡ ok (true, message)

module _ (hash_token : String → String) (C : Crypto) (M : PolicyModel)
    (read_update : Entries → Option VillagePolicyUpdate) where
  -- Nothing changes, or the request is granted and the update is stored and applied.
  unfoldable pub Effect : Node → Request → Node × Reply → Type 0
  Effect n q answer =
      (answer.0 ≡ n × ((h : String) → answer.1 ≢ stored h))
      ⊎ ((g : Granted hash_token C M read_update n q) × (answer
            ≡ apply_stored M n q (some g.member.member_id) g.update
                (store_policy_update n g.update)))

  not_stored :
      (n : Node) (q : Request) (r : Reply) → ((h : String) → r ≢ stored h) → Effect n q (n, r)
  unfolding Effect
  not_stored n q r s = inl (refl, s)

  write-Effect :
      (n : Node) (q : Request) (m : VillageMember) (v : Village) (u : VillagePolicyUpdate)
      (r : Result (Bool × FeedMessage))
      → member_of hash_token (n.rooms q.village_id) (bearer_token q.authorization) ≡ some m
      → load_village n q.village_id ≡ some v
      → role_can v.policy m.role "manage" ≡ some true
      → update_of C read_update q (some m.member_id) ≡ some u
      → signer_allowed C (M.dump v.policy) u ≡ r
      → Effect n q (write hash_token C M read_update n q (some m.member_id) u r)
  unfolding write Effect
  write-Effect n q m v u (raise problem) a b c d e = not_stored n q raised (λ h. cc)
  write-Effect n q m v u (ok (false, message)) a b c d e =
      not_stored n q (rejected message) (λ h. cc)
  write-Effect n q m v u (ok (true, message)) a b c d e = inr (
    record {
      member = m;
      village = v;
      update = u;
      message = message;
      signed_in = a;
      loaded = b;
      manages = c;
      reads = d;
      allows = e;
    },
    refl,
  )

  update-Effect :
      (n : Node) (q : Request) (m : VillageMember) (v : Village) (u : Option VillagePolicyUpdate)
      → member_of hash_token (n.rooms q.village_id) (bearer_token q.authorization) ≡ some m
      → load_village n q.village_id ≡ some v
      → role_can v.policy m.role "manage" ≡ some true
      → update_of C read_update q (some m.member_id) ≡ u
      → Effect n q (with_update hash_token C M read_update n q (some m.member_id) v u)
  unfolding with_update
  update-Effect n q m v none a b c d = not_stored n q raised (λ h. cc)
  update-Effect n q m v (some u) a b c d = write-Effect n q m v u _ a b c d refl

  managed-Effect :
      (n : Node) (q : Request) (m : VillageMember) (v : Village) (can : Option Bool)
      → member_of hash_token (n.rooms q.village_id) (bearer_token q.authorization) ≡ some m
      → load_village n q.village_id ≡ some v
      → role_can v.policy m.role "manage" ≡ can
      → Effect n q (managed hash_token C M read_update n q m v can)
  unfolding managed
  managed-Effect n q m v none a b c = not_stored n q raised (λ h. cc)
  managed-Effect n q m v (some false) a b c = not_stored n q forbidden (λ h. cc)
  managed-Effect n q m v (some true) a b c = update-Effect n q m v _ a b c refl

  member-Effect :
      (n : Node) (q : Request) (m : Option VillageMember) (v : Option Village)
      → member_of hash_token (n.rooms q.village_id) (bearer_token q.authorization) ≡ m
      → load_village n q.village_id ≡ v
      → Effect n q (as_member hash_token C M read_update n q m v)
  unfolding as_member
  member-Effect n q none v a b = not_stored n q forbidden (λ h. cc)
  member-Effect n q (some m) none a b = not_stored n q raised (λ h. cc)
  member-Effect n q (some m) (some v) a b = managed-Effect n q m v _ a b refl

  either-Effect :
      (n : Node) (q : Request) (b : Bool) (x y : Node × Reply)
      → Effect n q x
      → Effect n q y
      → Effect n q (if b then x else y)
  either-Effect n q true x y ex ey = ex
  either-Effect n q false x y ex ey = ey

  pub policy_update-Effect :
      (n : Node) (q : Request) → Effect n q (policy_update hash_token C M read_update n q)
  unfolding policy_update
  policy_update-Effect n q =
      either-Effect n q (validate_village_id q.village_id) _ _ (member-Effect n q _ _ refl refl)
        (not_stored n q raised (λ h. cc))
