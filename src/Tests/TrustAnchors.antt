-- ===== src/Tests/TrustAnchors.antt =====
-- Tests of links/trust_anchors.py.
use policy_mesh.Tests.Signing.{encode, key_a, key_a-IsSound}
use policy_mesh.Tests.Samples.{toy}
use policy_mesh.Update.{ok}
use policy_mesh.Update.Signing.{keep_first}
use policy_mesh.TrustAnchors.Signed.{
  AnchorPayload, payload_of, add_anchor_signature, verify_anchor_entry_any, verify-add_anchor,
}
use policy_mesh.Prelude.{
  contains, true, refl, [], ◌≤◌, some, ◌∷◌, Option, none, String, ◌≡◌, List, ℕ,
}
use policy_mesh.TrustAnchors.{
  newest_from, newest, delete, put, apply_to, apply_entry, activate, TrustAnchorEntry, sort_entries,
  latest_active_anchor,
}
use policy_mesh.TrustAnchors.Standing.{standing}
use policy_mesh.TrustAnchors.Latest.{latest_active_lem}

abbrev entry_at : ℕ → String → String → Option String → TrustAnchorEntry
entry_at t action h previous = record {
  village_id = "ops";
  created_at = t;
  actor = none;
  action = action;
  anchor_id = "main";
  anchor_public_key = none;
  anchor_key_hash = some h;
  previous_anchor_key_hash = previous;
  reason = none;
  signature_alg = "Ed25519";
  signatures = [];
}

-- "k1" is rotated to "k2", and "k2" is revoked.
abbrev entries : List TrustAnchorEntry
entries =
    entry_at 3 "revoke" "k2" none
    ∷ entry_at 1 "register" "k1" none
    ∷ entry_at 2 "rotate" "k2" (some "k1")
    ∷ []

-- The key that was rotated away is the anchor in force again.
rotated_back : latest_active_anchor entries ≡ some (entry_at 1 "register" "k1" none)
unfolding latest_active_anchor sort_entries activate apply_entry apply_to put delete newest
    newest_from
rotated_back = refl

latest_active_lem_example :
    (latest_active_anchor entries ≡ none → (k : String) → standing k (sort_entries entries) ≡ none)
    × ((m : TrustAnchorEntry)
        → latest_active_anchor entries ≡ some m
        → ((k : String) × (standing k (sort_entries entries) ≡ some m))
          × ((k : String) (e : TrustAnchorEntry)
              → standing k (sort_entries entries) ≡ some e
              → e.created_at ≤ m.created_at))
latest_active_lem_example = latest_active_lem entries

abbrev anchor_bytes : AnchorPayload → List ℕ
anchor_bytes payload = payload.created_at ∷ []

-- No key has signed the entry yet.
none_kept : keep_first toy (entry_at 1 "register" "k1" none).signatures [] ≡ ok ([], [])
unfolding keep_first
none_kept = refl

verify-add_anchor_example :
    (f : TrustAnchorEntry) × (add_anchor_signature toy anchor_bytes encode
        (entry_at 1 "register" "k1" none)
        key_a
      ≡ ok f)
    × (verify_anchor_entry_any toy anchor_bytes f ≡ true)
    × (payload_of f ≡ payload_of (entry_at 1 "register" "k1" none))
unfolding contains
verify-add_anchor_example =
    verify-add_anchor toy anchor_bytes encode (entry_at 1 "register" "k1" none) key_a [] []
      key_a-IsSound none_kept refl
