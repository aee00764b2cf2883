-- ===== src/Tests/Checkpoint.antt =====
-- Tests of the signatures of checkpoints in links/checkpoint_exchange.py.
use policy_mesh.Tests.Samples.{same_key}
use policy_mesh.Update.Signing.{SigningKey}
use policy_mesh.Drift.Signed.{
  checkpoint_body, checkpoint_ok, key_in_hex, sign_checkpoint, verify_key_of, CheckpointCrypto,
  verify_checkpoint_signature,
}
use policy_mesh.Json.{no_entries, int, str, entry, Entries}
use policy_mesh.Prelude.{none, refl, some, false, true, ◌==◌, if◌then◌else◌, ◌≡◌, [], ◌∷◌}
use policy_mesh.Prelude.Int.{pos}
use policy_mesh.Json.Dict.{set_key}
use policy_mesh.Drift.Signed.Laws.{verify-sign_checkpoint}

abbrev crypto : CheckpointCrypto
crypto = record {
  sha256_hex = λ bytes. "d";
  checkpoint_json = λ d. [];
  hex = λ bytes. "01";
  from_hex = λ text. if text == "01" then some (1 ∷ []) else none;
  accepts_key = λ key. true;
  verify = λ key message sig. same_key key sig;
}

abbrev key : SigningKey
key = record { verify_key = 1 ∷ []; sign = λ message. 1 ∷ [] }

abbrev checkpoint : Entries
checkpoint = entry "village_id" (str "ops") (entry "entry_count" (int (pos 2)) no_entries)

abbrev signed : Entries
signed = sign_checkpoint crypto checkpoint key

-- Another key does not verify it, and neither does a text that is no key.
other_key : (verify_checkpoint_signature crypto signed (verify_key_of (2 ∷ []))).0 ≡ false
unfolding verify_checkpoint_signature sign_checkpoint
other_key = refl

no_key : (verify_checkpoint_signature crypto signed (key_in_hex "zz")).0 ≡ false
unfolding verify_checkpoint_signature sign_checkpoint
no_key = refl

-- The signature says nothing of the field `signer_key_hash`.
other_hash :
    verify_checkpoint_signature crypto
      (set_key "signer_key_hash" (str "eve") signed)
      (verify_key_of (1 ∷ []))
    ≡ (true, checkpoint_ok)
unfolding verify_checkpoint_signature sign_checkpoint
other_hash = refl

verify-sign_checkpoint_example :
    (verify_checkpoint_signature crypto signed (verify_key_of (1 ∷ [])) ≡ (true, checkpoint_ok))
    × (checkpoint_body signed ≡ checkpoint_body checkpoint)
    × (sign_checkpoint crypto signed key ≡ signed)
verify-sign_checkpoint_example =
    verify-sign_checkpoint crypto key checkpoint (λ m. refl) (λ m. refl) (λ m. refl)
