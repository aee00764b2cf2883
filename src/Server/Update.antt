-- ===== src/Server/Update.antt =====
-- links/server.py: `policy_update`, which answers POST /villages/{village_id}/policy, where the module
-- of the villages is there; and links/policy_feed.py: `store_policy_update`.
pub mod Granted
pub mod Rooms
pub mod Stored
use policy_mesh.Villages.Name.{validate_village_id}
use policy_mesh.Update.{ok, raise, Result, Crypto, VillagePolicyUpdate}
use policy_mesh.Prelude.{
  true, truthy, none, not, some, ◌==◌, [], ◌&&◌, ◌||◌, Option, codes, false, if◌then◌else◌, nat_eq,
  Bool, ℕ, ◌∷◌, List, String,
}
use policy_mesh.Feed.Policy.{signer_allowed, FeedMessage}
use policy_mesh.Json.{dict, Value, get, Entries}
use policy_mesh.Villages.Apply.{apply_policy_update, Node, Room, load_village, PolicyModel, set_at}
use policy_mesh.Server.Token.{bearer_token}
use policy_mesh.Villages.{role_can, Village}
use policy_mesh.Villages.Members.{authorize, VillageMember}
use policy_mesh.Update.Signing.{build_update}

-- `p.write_text(...)`, in the directory of the update's village: a file of the same name, which has the
-- time and the policy's hash, is overwritten.
unfoldable pub same_file : VillagePolicyUpdate → VillagePolicyUpdate → Bool
same_file u v = nat_eq u.created_at v.created_at && u.policy_hash == v.policy_hash

unfoldable pub put_update :
    VillagePolicyUpdate → List VillagePolicyUpdate → List VillagePolicyUpdate
unfolding same_file
put_update u [] = u ∷ []
put_update u (v ∷ vs) = let rest = put_update u vs in if same_file u v then u ∷ vs else v ∷ rest

-- A hash with a slash names a file in a directory that is not there.
abbrev pub has_slash : List ℕ → Bool
has_slash [] = false
has_slash (c ∷ cs) = nat_eq c b'/' || has_slash cs

-- `none` where it raises: the update's village has no such name, or the file cannot be written.
unfoldable pub store_policy_update : Node → VillagePolicyUpdate → Option Node
unfolding put_update validate_village_id set_at codes
store_policy_update n u =
    let room = n.rooms u.village_id in
    if validate_village_id u.village_id && not (has_slash (codes u.policy_hash))
    then some (record n {
      rooms = set_at u.village_id (record room { updates = put_update u room.updates }) n.rooms;
    })
    else none

pub record Request : Type 0 where
  pub village_id : String
  pub body : Entries
  pub authorization : Option String
  pub now : ℕ

-- `raised` is an exception, which FastAPI answers with the status 500.
pub data Reply : Type 0 where
  stored : String → Reply
  forbidden : Reply
  rejected : FeedMessage → Reply
  raised : Reply

-- pydantic's reading of an update, and the hashing of its policy.
module _ (C : Crypto) (read_update : Entries → Option VillagePolicyUpdate) where
  -- `build_update(...)` of a policy that is a dict
  unfoldable pub raw_update : Request → Option String → Value → Option VillagePolicyUpdate
  raw_update q actor (dict policy) = some (
      build_update C (record {
        village_id = q.village_id;
        policy = dict policy;
        actor = actor;
        lifecycle_state = "proposal";
        previous_policy_hash = none;
        activation_time = none;
        activation_height = none;
        policy_version_id = none;
        quorum = none;
        quorum_metadata = none;
        change_summary = none;
        now = q.now;
      }))
  raw_update q actor _ = none

  -- the signed update, or one that is built of `body["policy"]` or of the body
  unfoldable pub update_of : Request → Option String → Option VillagePolicyUpdate
  unfolding raw_update get
  update_of q actor = elim (read_update q.body) [
    | none ↦ raw_update q actor (elim (get "policy" q.body) [ none ↦ dict q.body | some v ↦ v ])
    | some u ↦ some u
  ]

-- The hash of a token.
module _ (hash_token : String → String) where
  unfoldable pub member_of : Room → Option String → Option VillageMember
  member_of room none = none
  member_of room (some token) =
      if truthy token then authorize hash_token room.directory token else none

module _ (M : PolicyModel) where
  -- what `apply_policy_update` left, or what was there when it raised
  unfoldable pub applied : Node → String → Option Node → Node × Reply
  applied n policy_hash none = (n, raised)
  applied n policy_hash (some after) = (after, stored policy_hash)

  unfoldable pub apply_stored :
      Node → Request → Option String → VillagePolicyUpdate → Option Node → Node × Reply
  unfolding applied
  apply_stored n q actor u none = (n, raised)
  apply_stored n q actor u (some kept) = applied kept u.policy_hash (
      apply_policy_update M kept q.village_id u.policy actor
        (record { policy_hash = u.policy_hash; policy_update = "stored" }))

module _ (hash_token : String → String) (C : Crypto) (M : PolicyModel)
    (read_update : Entries → Option VillagePolicyUpdate) where
  unfoldable pub write :
      Node
      → Request
      → Option String
      → VillagePolicyUpdate
      → Result (Bool × FeedMessage)
      → Node × Reply
  unfolding apply_stored
  write n q actor u (raise problem) = (n, raised)
  write n q actor u (ok (false, message)) = (n, rejected message)
  write n q actor u (ok (true, message)) = apply_stored M n q actor u (store_policy_update n u)

  unfoldable pub with_update :
      Node → Request → Option String → Village → Option VillagePolicyUpdate → Node × Reply
  unfolding write
  with_update n q actor v none = (n, raised)
  with_update n q actor v (some u) = write n q actor u (signer_allowed C (M.dump v.policy) u)

  unfoldable pub managed : Node → Request → VillageMember → Village → Option Bool → Node × Reply
  unfolding with_update
  managed n q m v none = (n, raised)
  managed n q m v (some false) = (n, forbidden)
  managed n q m v (some true) =
      with_update n q (some m.member_id) v (update_of C read_update q (some m.member_id))

  unfoldable pub as_member : Node → Request → Option VillageMember → Option Village → Node × Reply
  unfolding managed
  as_member n q none v = (n, forbidden)
  as_member n q (some m) none = (n, raised)
  as_member n q (some m) (some v) = managed n q m v (role_can v.policy m.role "manage")

  unfoldable pub policy_update : Node → Request → Node × Reply
  unfolding as_member member_of load_village validate_village_id
  policy_update n q =
      if validate_village_id q.village_id
      then as_member n q
          (member_of hash_token (n.rooms q.village_id) (bearer_token q.authorization))
          (load_village n q.village_id)
      else (n, raised)
