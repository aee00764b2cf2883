-- ===== src/Tests/Claims.antt =====
-- Tests of links/claims.py, links/store.py and links/quarantine.py.
use policy_mesh.Tests.Samples.{toy}
use policy_mesh.Claims.Quarantine.{ingest_says, HeldFile, Review, Yard, approve_quarantine}
use policy_mesh.Claims.{
  Claim, Link, build_bundle_from_edges, sign_bundle, BundlePayload, ClaimBundle, verify_bundle,
}
use policy_mesh.Update.Signing.{IsSound, SigningKey}
use policy_mesh.Claims.Quarantine.History.{
  opened, reviewed, Filled, Filled-Sound, empty_store, Sound,
}
use policy_mesh.Prelude.{
  length, contains, refl, Bool, String, [], true, none, some, ℕ, ◌∷◌, ◌≡◌, List,
}
use policy_mesh.Prelude.Int.{pos}
use policy_mesh.Claims.Quarantine.Approved.{after_approval, approve-answer_for, answer_for}
use policy_mesh.Update.{ok}
use policy_mesh.Json.{null, no_entries, str, entry, int}
use policy_mesh.Claims.Signed.{verify-sign_bundle}
use policy_mesh.Claims.Store.{keep_bundle, query_claims, ingested, replay_detected}

-- Every identifier is "p", and the key "A" signs by "A".
abbrev payload_bytes : BundlePayload → List ℕ
payload_bytes p = []

abbrev encode : List ℕ → String
encode bytes = "A"

abbrev key : SigningKey
key = record { verify_key = 1 ∷ []; sign = λ m. 1 ∷ [] }

abbrev accepted : List ℕ → Bool
accepted sig = true

abbrev edges : List Link
edges = record { from_entity_id = "a"; to_entity_id = "b"; weight = int (pos 1) } ∷ []

abbrev built : ClaimBundle
built = build_bundle_from_edges toy payload_bytes edges "ann" (pos 30) "links.weighted_to" none 5

abbrev signed : ClaimBundle
signed = record {
  bundle_id = "p";
  issuer = "ann";
  created_at = 5;
  window_days = pos 30;
  claims = [];
  signature_alg = "Ed25519";
  public_key = some "A";
  signature = some "A";
}

key-IsSound : IsSound toy encode key
key-IsSound = record {
  decodes_key = refl;
  decodes_signature = λ m. refl;
  accepts = refl;
  verifies = λ m. refl;
}

verify-sign_bundle_example :
    verify_bundle toy payload_bytes accepted (
      sign_bundle toy payload_bytes encode
        (build_bundle_from_edges toy payload_bytes edges "ann" (pos 30) "links.weighted_to" none 5)
        key)
    ≡ ok true
verify-sign_bundle_example =
    verify-sign_bundle toy payload_bytes accepted encode key edges "ann" (pos 30)
      "links.weighted_to" none 5 key-IsSound (λ m. refl) refl (λ m. refl)

-- A review to which no village is known.
abbrev review : Review
review = record {
  crypto = toy;
  bundle_json = payload_bytes;
  accepts_signature = accepted;
  villages = λ v. none;
  read_bundle = λ object. some signed;
  keys_of = λ object. record { window_days = pos 400; predicates = some "forbidden" ∷ [] };
}

-- The file names a village.
abbrev file : HeldFile
file = record {
  village_id = some "green";
  stem = "p";
  object = entry "village_id" (str "green") no_entries;
}

abbrev yard : Yard
yard = record { store = empty_store; quarantine = file ∷ []; rejected = []; audit = [] }

signed_verifies : verify_bundle toy payload_bytes accepted signed ≡ ok true
unfolding verify_bundle
signed_verifies = refl

-- The bundle is taken in although no village of that name can be loaded.
unknown_village :
    approve_quarantine review yard file 9
    ≡ ok (after_approval yard file signed 9, ingest_says (ingested "p" 0))
unfolding answer_for contains
unknown_village = approve-answer_for review yard file 9 signed true refl signed_verifies

abbrev later : Yard
later = (answer_for review yard file signed 9 true).0

yard-Filled : Filled review later
yard-Filled =
    reviewed file 9 (answer_for review yard file signed 9 true) (opened yard refl)
      (approve-answer_for review yard file 9 signed true refl signed_verifies)

-- The same bundle is not taken in again.
approved_again : approve_quarantine review later file 9 ≡ ok (later, ingest_says replay_detected)
unfolding answer_for after_approval keep_bundle contains
approved_again = approve-answer_for review later file 9 signed true refl signed_verifies

Filled-Sound_example : Sound review later
Filled-Sound_example = Filled-Sound review yard-Filled

-- Ann's bundle with a claim of which she says that Eve is the issuer.
abbrev eves : Claim
eves = record {
  issuer = "eve";
  subject = "a";
  predicate = "links.weighted_to";
  object = none;
  value = null;
  window_days = pos 1;
  computed_at = 5;
  derivation = none;
  evidence = [];
}

abbrev anns : ClaimBundle
anns = record signed { claims = eves ∷ [] }

spoofed : length (query_claims none (some "eve") none none (keep_bundle empty_store anns).rows) ≡ 1
unfolding query_claims keep_bundle
spoofed = refl

-- A query for a village finds nothing.
no_village : query_claims none none none (some "green") (keep_bundle empty_store anns).rows ≡ []
unfolding query_claims keep_bundle
no_village = refl
