-- ===== src/Tests/Norms.antt =====
-- Tests of links/norms.py.

use policy_mesh.Json.Dict.{set_key}
use policy_mesh.Norms.{
  compiled_artifact_to_policy_update, Norm, NormSet, compile_norm_set, CompiledPolicyArtifact,
  artifact_of,
}
use policy_mesh.Norms.Rules.{NormRule, passed, refused, unsigned_threshold, conflicting_values}
use policy_mesh.Norms.Base.{base_policy}
use policy_mesh.Json.{dict, int, bool, no_entries, str}
use policy_mesh.Tests.Samples.{toy}
use policy_mesh.Prelude.Int.{pos}
use policy_mesh.Prelude.{ℕ, Option, map, false, [], none, refl, List, String, true, ◌∷◌, ◌≡◌}
use policy_mesh.Update.{compute_policy_hash}
use policy_mesh.Norms.Invariant.{IsWellFormed}
use policy_mesh.Norms.Compiled.{compile_lem, SameElsewhere, IsConsistent}

abbrev norm_with : String → List NormRule → Norm
norm_with id rules = record {
  norm_id = id;
  statement = "";
  category = "governance";
  enforcement = "required";
  rationale = none;
  tags = [];
  compile_to = rules;
}

abbrev norms_with : List Norm → NormSet
norms_with norms = record {
  norm_set_id = "n";
  village_id = "ops";
  title = "t";
  version = "1";
  description = "";
  authors = [];
  created_at = 1;
  norms = norms;
}

abbrev signed_norms : NormSet
signed_norms = norms_with (
    norm_with "signed" (
      record { key = "require_policy_signature"; value = bool true }
      ∷ record { key = "policy_signature_threshold_m"; value = int (pos 2) }
      ∷ [])
    ∷ [])

abbrev signed_artifact : CompiledPolicyArtifact
signed_artifact =
    let q =
      set_key "policy_signature_threshold_m" (int (pos 2))
        (set_key "require_policy_signature" (bool true) base_policy) in
    artifact_of "0.15.0" "norm-compiler-v1" signed_norms
      (record {
        policy = q;
        source_norm_ids = "signed" ∷ [];
        notes = "require_policy_signature" ∷ "policy_signature_threshold_m" ∷ [];
        compiled_by_rule = no_entries;
      })
      q (compute_policy_hash toy (dict q))

signed_compiles :
    compile_norm_set toy "0.15.0" "norm-compiler-v1" signed_norms ≡ passed signed_artifact
unfolding compile_norm_set
signed_compiles = refl

-- A threshold above one without signatures is refused.
unsigned_refused :
    compile_norm_set toy "0.15.0" "norm-compiler-v1" (
      norms_with (
        norm_with "two" (record { key = "policy_signature_threshold_m"; value = str "2" } ∷ [])
        ∷ []))
    ≡ refused unsigned_threshold
unfolding compile_norm_set
unsigned_refused = refl

-- Two values of one key are refused, and True is 1.
conflict_refused :
    compile_norm_set toy "0.15.0" "norm-compiler-v1" (
      norms_with (
        norm_with "a" (
          record { key = "require_policy_signature"; value = bool true }
          ∷ record { key = "require_policy_signature"; value = int (pos 1) }
          ∷ [])
        ∷ norm_with "b" (record { key = "require_policy_signature"; value = bool false } ∷ [])
        ∷ []))
    ≡ refused (conflicting_values "require_policy_signature" (int (pos 1)) (bool false) "b")
unfolding compile_norm_set
conflict_refused = refl

compile_lem_example :
    IsWellFormed signed_artifact.policy
    × IsConsistent signed_artifact.policy
    × SameElsewhere base_policy signed_artifact.policy
    × (signed_artifact.lineage.source_norm_ids ≡ map (λ n. n.norm_id) signed_norms.norms)
    × ((actor previous : Option String) (now : ℕ)
        → let u = compiled_artifact_to_policy_update toy signed_artifact actor previous now in
          (u.policy_hash ≡ signed_artifact.policy_hash)
          × (u.policy_hash ≡ compute_policy_hash toy u.policy))
compile_lem_example =
    compile_lem toy signed_norms "0.15.0" "norm-compiler-v1" signed_artifact signed_compiles

abbrev plain_norms : NormSet
plain_norms = norms_with (norm_with "signed" [] ∷ norm_with "open" [] ∷ [])
