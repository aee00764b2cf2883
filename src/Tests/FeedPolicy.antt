-- ===== src/Tests/FeedPolicy.antt =====
-- Tests of the signatures and manifests of links/policy_feed.py.
use policy_mesh.Tests.Samples.{toy, update_at}
use policy_mesh.Json.{
  null, Value, Entries, entry, no_entries, dict, str, int, bool, list, element, no_elements, flag,
  get, truth,
}
use policy_mesh.Feed.Policy.{has_any, requirements_in, model_of, evaluate_policy_quorum, by_roles}
use policy_mesh.Feed.Manifest.{
  manifest_payload, verified_by_unpinned, chain_start, build_policy_feed_manifest, signed_by,
  ManifestPayload, PolicyFeedManifest, chain, manifest_trust_policy, verify_manifest_against_policy,
}
use policy_mesh.Prelude.{
  Option, refl, some, Bool, String, [], false, ◌∷◌, none, ℕ, ◌≡◌, ◌⊎◌, List, true,
}
use policy_mesh.Update.{
  Result, validation_error, raise, payload_for_signing, compute_policy_hash, QuorumRequirement, ok,
  VillagePolicyUpdate,
}
use policy_mesh.Feed.Policy.Safe.{evaluate-HashOk, HashOk}
use policy_mesh.Json.Read.{get_dict, get_true}
use policy_mesh.Prelude.Int.{ℤ, pos}
use policy_mesh.Feed.Merkle.Binding.{Collision}
use policy_mesh.Feed.Manifest.Binding.{manifest-Binding, digests}
use policy_mesh.Update.Roles.{
  has_role, start_from, role_count, missing_roles, count_signed_roles, count_all_roles,
  verify_update_role_based_quorum, roles_ok,
}
use policy_mesh.Feed.Manifest.Trust.{against_policy_lem, Accepted}
use policy_mesh.Feed.Policy.Unsigned.{evaluate_unsigned, WantsNone}

-- Signatures are required, and the role-based quorum wants none of the elders.
abbrev lax : Entries
lax = entry "require_policy_signature" (bool true) (
    entry "policy_quorum"
      (dict (
        entry "model" (str "role_based") (
          entry "role_requirements"
            (list (
              element
                (dict (entry "role" (str "elder") (entry "min_signers" (int (pos 0)) no_entries)))
                no_elements))
            no_entries)))
      no_entries)

abbrev elders_wanted : Value → Option Value
elders_wanted v = some (
    list
      (element (dict (entry "role" (str "elder") (entry "min_signers" v no_entries))) no_elements))

abbrev wants : ℤ → Result (List QuorumRequirement)
wants n = ok (record { role = "elder"; min_signers = n } ∷ [])

-- A text of digits and True are numbers of signers, another text and None are not.
lax_numbers :
    (requirements_in (elders_wanted (str "12")) ≡ wants (pos 12))
    × (requirements_in (elders_wanted (bool true)) ≡ wants (pos 1))
    × (requirements_in (elders_wanted (str "two")) ≡ raise validation_error)
    × (requirements_in (elders_wanted null) ≡ raise validation_error)
unfolding requirements_in
lax_numbers = (refl, refl, refl, refl)

abbrev plain : VillagePolicyUpdate
plain = update_at "p" none 1

-- An update without a signature is accepted.
unsigned_accepted : evaluate_policy_quorum toy lax plain ≡ ok (true, by_roles roles_ok)
unfolding evaluate_policy_quorum verify_update_role_based_quorum compute_policy_hash count_all_roles
    count_signed_roles missing_roles role_count start_from has_role payload_for_signing get_true
    get_dict get flag truth
unsigned_accepted = refl

evaluate_unsigned_example :
    (model_of (get_true "model" (get_dict "policy_quorum" lax)) ≡ "role_based")
    × ((reqs : List QuorumRequirement) × (requirements_in
            (get_true "role_requirements" (get_dict "policy_quorum" lax))
          ≡ ok reqs)
        × WantsNone reqs)
unfolding flag
evaluate_unsigned_example =
    evaluate_unsigned toy lax plain (by_roles roles_ok) refl refl unsigned_accepted

evaluate-HashOk_example :
    HashOk toy plain ⊎ ((flag "require_policy_signature" lax ≡ false) × (has_any plain ≡ false))
evaluate-HashOk_example = evaluate-HashOk toy lax plain (by_roles roles_ok) unsigned_accepted

abbrev pub json : ManifestPayload → List ℕ
json _ = []

abbrev pub fitting : List ℕ → Bool
fitting _ = true

abbrev pub manifest : PolicyFeedManifest
manifest = record {
  village_id = "ops";
  generated_at = 5;
  head_policy_hash = none;
  count = 0;
  merkle_root = "";
  chain_head = "";
  items = [];
  signature_alg = "ed25519";
  signer_public_key = some "A";
  signature = some "A";
}

-- A trusted signer is wanted, and no signer is listed: every signer is accepted.
abbrev pinned : Entries
pinned = entry "require_trusted_manifest_signer" (bool true) no_entries

pinned_accepts :
    verify_manifest_against_policy toy json fitting pinned manifest
    ≡ ok (true, verified_by_unpinned "k1")
unfolding verify_manifest_against_policy
pinned_accepts = refl

against_policy_lem_example :
    let trust = manifest_trust_policy pinned in
    ((signed_by manifest.signer_public_key manifest.signature ≡ none)
      × (trust.require_signature ≡ false)
      × (trust.require_trusted_signer ≡ false))
    ⊎ ((key : String) × (sig : String) × (signed_by manifest.signer_public_key manifest.signature
          ≡ some (key, sig))
        × ((bytes : List ℕ) × Accepted toy json fitting trust
              (json (manifest_payload manifest))
              key
              sig
              bytes))
against_policy_lem_example =
    against_policy_lem toy json fitting pinned manifest (verified_by_unpinned "k1") pinned_accepts

abbrev one_a : List VillagePolicyUpdate
one_a = update_at "a" none 1 ∷ []

abbrev one_b : List VillagePolicyUpdate
one_b = update_at "b" none 1 ∷ []

abbrev nought_digest : {A : Type 0} → A → List ℕ
nought_digest _ = chain_start

abbrev no_text : List ℕ → String
no_text _ = ""

manifest-Binding_example :
    (digests toy nought_digest one_a ≡ digests toy nought_digest one_b) ⊎ Collision nought_digest
unfolding chain build_policy_feed_manifest
manifest-Binding_example =
    manifest-Binding toy nought_digest no_text nought_digest one_a one_b "ops" "ops" 1 2 (λ _. refl)
      (λ _. refl) (λ _. refl) refl refl
