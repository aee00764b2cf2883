-- ===== src/Drift/Signed.antt =====
-- links/checkpoint_exchange.py: the signature of a checkpoint, where PyNaCl is there.
pub mod Laws
use policy_mesh.Prelude.Options.{◌>>=◌}
use policy_mesh.Prelude.{false, none, true, if◌then◌else◌, Bool, String, some, ℕ, List, Option}
use policy_mesh.Json.Dict.{set_key, without}
use policy_mesh.Json.{str, Entries, Value, get, flag}
use policy_mesh.Update.Signing.{SigningKey}

-- hashlib, PyNaCl, the canonical JSON of a dict, and hexadecimal digits. `verify` is false where PyNaCl
-- raises anything.
pub record CheckpointCrypto : Type 0 where
  pub sha256_hex : List ℕ → String
  pub checkpoint_json : Entries → List ℕ
  pub hex : List ℕ → String
  pub from_hex : String → Option (List ℕ)
  pub accepts_key : List ℕ → Bool
  pub verify : List ℕ → List ℕ → List ℕ → Bool

-- A `VerifyKey`, or a text for one.
pub data KeyArgument : Type 0 where
  verify_key_of : List ℕ → KeyArgument
  key_in_hex : String → KeyArgument

pub data CheckpointMessage : Type 0 where
  checkpoint_ok : CheckpointMessage
  no_signature_field : CheckpointMessage
  check_failed : CheckpointMessage

-- The dict without the two keys of the signature.
unfoldable pub checkpoint_body : Entries → Entries
unfolding without
checkpoint_body checkpoint = without "signer_key_hash" (without "signature" checkpoint)

module _ (K : CheckpointCrypto) where
  unfoldable pub sign_checkpoint : Entries → SigningKey → Entries
  unfolding checkpoint_body set_key
  sign_checkpoint checkpoint key =
      let body = checkpoint_body checkpoint in
      let sig = K.hex (key.sign (K.checkpoint_json body)) in
      set_key "signer_key_hash" (str (K.sha256_hex key.verify_key))
        (set_key "signature" (str sig) body)

  -- `VerifyKey(...)`
  unfoldable pub read_key : KeyArgument → Option (List ℕ)
  read_key (verify_key_of key) = some key
  read_key (key_in_hex text) = do
    key ← K.from_hex text
    if K.accepts_key key then some key else none

  -- `bytes.fromhex(sig_hex)`, which takes a text only
  unfoldable pub read_signature : Option Value → Option (List ℕ)
  read_signature (some (str text)) = K.from_hex text
  read_signature _ = none

  unfoldable pub checked_with :
      List ℕ → Option (List ℕ) → Option (List ℕ) → Bool × CheckpointMessage
  checked_with message (some key) (some sig) =
      if K.verify key message sig then (true, checkpoint_ok) else (false, check_failed)
  checked_with message _ _ = (false, check_failed)

  unfoldable pub verify_checkpoint_signature : Entries → KeyArgument → Bool × CheckpointMessage
  unfolding checkpoint_body flag get read_key read_signature checked_with
  verify_checkpoint_signature checkpoint key =
      if flag "signature" checkpoint
      then checked_with (K.checkpoint_json (checkpoint_body checkpoint)) (read_key key)
          (read_signature (get "signature" checkpoint))
      else (false, no_signature_field)
