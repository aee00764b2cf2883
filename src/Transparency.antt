-- ===== src/Transparency.antt =====
-- links/transparency.py: the transparency log of one village and its checkpoint. The log is the list
-- of the entries that can be read from its file; the SQLite copy of an entry is left out.
pub mod Binding
use policy_mesh.Prelude.{
  [], get_last?, none, truthy, ◌++◌, if◌then◌else◌, map, some, Option, length, ◌∷◌, List, String, ℕ,
}
use policy_mesh.Json.{Entries}

-- The dict that is hashed and signed.
pub record UnsignedEntry : Type 0 where
  pub ts : ℕ
  pub village_id : String
  pub policy_hash : String
  pub update_hash : Option String
  pub meta : Entries

pub record LogEntry : Type 0 where
  pub payload : UnsignedEntry
  pub entry_hash : String
  pub signature : String

pub record Checkpoint : Type 0 where
  pub village_id : String
  pub entry_count : ℕ
  pub checkpoint_hash : String
  pub latest_entry_hash : Option String
  pub latest_policy_hash : Option String

-- a key of the last entry, or None
abbrev pub map? : (LogEntry → String) → Option LogEntry → Option String
map? f none = none
map? f (some e) = some (f e)

-- `[h for h in hashes if h]`
unfoldable pub non_empty : List String → List String
non_empty [] = []
non_empty (h ∷ hs) = let rest = non_empty hs in if truthy h then h ∷ rest else rest

-- `sha256_hex`, `canonical_json` of an entry and of a list of hashes, and the signature in hex.
module _ (sha256_hex : List ℕ → String) (entry_json : UnsignedEntry → List ℕ)
    (hashes_json : List String → List ℕ) where
  unfoldable pub append_transparency_entry :
      (List ℕ → String)
      → List LogEntry
      → String
      → String
      → Option String
      → Entries
      → ℕ
      → List LogEntry
  append_transparency_entry sign log village_id policy_hash update_hash meta now =
      let payload : UnsignedEntry = record {
        ts = now;
        village_id = village_id;
        policy_hash = policy_hash;
        update_hash = update_hash;
        meta = meta;
      } in
      log
      ++ (record {
        payload = payload;
        entry_hash = sha256_hex (entry_json payload);
        signature = sign (entry_json payload);
      }
          ∷ [])

  unfoldable pub checkpoint_hash_of : List String → String
  checkpoint_hash_of [] = sha256_hex []
  checkpoint_hash_of (h ∷ hs) = sha256_hex (hashes_json (h ∷ hs))

  unfoldable pub build_transparency_checkpoint : List LogEntry → String → Checkpoint
  unfolding checkpoint_hash_of
  build_transparency_checkpoint log village_id = record {
    village_id = village_id;
    entry_count = length log;
    checkpoint_hash = checkpoint_hash_of (non_empty (map (λ e. e.entry_hash) log));
    latest_entry_hash = map? (λ e. e.entry_hash) (get_last? log);
    latest_policy_hash = map? (λ e. e.payload.policy_hash) (get_last? log);
  }
