-- ===== src/Villages/Apply.antt =====
-- links/villages.py: what a node keeps of its villages, and `apply_policy_update`, which puts a policy
-- into force in one of them. A village is read and written as `village.json`; the clock's value is
-- given, and the SQLite copies of the rows are left out.
pub mod Applied
use policy_mesh.Prelude.Options.{◌>>=◌}
use policy_mesh.Villages.Name.{validate_village_id}
use policy_mesh.Prelude.{[], none, some, ◌==◌, ◌∷◌, List, if◌then◌else◌, ◌++◌, Option, String}
use policy_mesh.Villages.{Village, VillagePolicy}
use policy_mesh.Json.{Entries, Value}
use policy_mesh.Transparency.{LogEntry}
use policy_mesh.Villages.Members.{Directory}
use policy_mesh.Update.{VillagePolicyUpdate}

-- A row of `policy_history.jsonl`, with the metadata of the update.
pub record HistoryRow : Type 0 where
  pub policy : VillagePolicy
  pub policy_hash : String
  pub policy_update : String

-- `AuditEvent(action="policy.apply", ...)`
pub record ApplyEvent : Type 0 where
  pub village_id : String
  pub actor : Option String
  pub reason : String
  pub policy_hash : String

-- The directory of one village.
pub record Room : Type 0 where
  pub village : Option Village
  pub directory : Directory
  pub updates : List VillagePolicyUpdate
  pub history : List HistoryRow

-- The directories of the villages by their names, the audit log, and the transparency logs.
pub record Node : Type 0 where
  pub rooms : String → Room
  pub audit : List ApplyEvent
  pub logs : String → List LogEntry

unfoldable pub set_at {ℓ} : {A : Type ℓ} → String → A → (String → A) → String → A
set_at id x f w = if w == id then x else f w

-- `update_meta`, as the server gives it.
pub record UpdateMeta : Type 0 where
  pub policy_hash : String
  pub policy_update : String

-- pydantic's validation of a policy, the hash of a dumped policy, and the entry for the transparency
-- log, where there is a signing key.
pub record PolicyModel : Type 0 where
  pub validate : Value → Option VillagePolicy
  pub dump : VillagePolicy → Entries
  pub dump_hash : VillagePolicy → String
  pub log_entry : Option (List LogEntry → String → String → Option String → List LogEntry)

-- `load_village`: `none` where the file is missing or the name is no village's.
unfoldable pub load_village : Node → String → Option Village
unfolding validate_village_id
load_village n village_id =
    if validate_village_id village_id then (n.rooms village_id).village else none

-- `save_village`, under the name that the village has: `none` where that is not a name.
unfoldable pub save_village : Node → Village → Option Node
unfolding validate_village_id set_at
save_village n v =
    let room = n.rooms v.village_id in
    if validate_village_id v.village_id
    then some (record n { rooms = set_at v.village_id (record room { village = some v }) n.rooms })
    else none

unfoldable pub append_policy_history : Node → String → HistoryRow → Node
unfolding set_at
append_policy_history n village_id row =
    let room = n.rooms village_id in
    record n {
      rooms = set_at village_id (record room { history = room.history ++ (row ∷ []) }) n.rooms;
    }

module _ (M : PolicyModel) where
  -- the `try` block
  unfoldable pub log_apply :
      Option (List LogEntry → String → String → Option String → List LogEntry)
      → Node
      → String
      → String
      → String
      → Node
  unfolding set_at
  log_apply none n village_id policy_hash update_hash = n
  log_apply (some append) n village_id policy_hash update_hash = record n {
    logs =
        set_at village_id (append (n.logs village_id) village_id policy_hash (some update_hash))
          n.logs;
  }

  -- after `save_village`
  unfoldable pub record_apply : Node → String → VillagePolicy → Option String → UpdateMeta → Node
  unfolding append_policy_history log_apply
  record_apply n village_id incoming actor meta =
      let row : HistoryRow = record {
        policy = incoming;
        policy_hash = meta.policy_hash;
        policy_update = meta.policy_update;
      } in
      let event : ApplyEvent = record {
        village_id = village_id;
        actor = actor;
        reason = meta.policy_update;
        policy_hash = M.dump_hash incoming;
      } in
      let kept = append_policy_history n village_id row in
      log_apply M.log_entry (record kept { audit = kept.audit ++ (event ∷ []) }) village_id
        (M.dump_hash incoming) meta.policy_hash

  -- `none` where it raises: then nothing is written.
  unfoldable pub apply_policy_update :
      Node → String → Value → Option String → UpdateMeta → Option Node
  unfolding load_village save_village record_apply
  apply_policy_update n village_id policy_obj actor meta = do
    v ← load_village n village_id
    incoming ← M.validate policy_obj
    saved ← save_village n (record v { policy = incoming })
    some (record_apply saved village_id incoming actor meta)
