-- ===== src/Norms.antt =====
-- links/norms.py: norms and their compilation into a village's policy. `int` reads texts of digits with
-- a sign; its other spellings (spaces, underscores) are read as no number.
pub mod Rules
pub mod Base
pub mod Invariant
pub mod Compiled
pub mod Diff
use policy_mesh.Json.Dict.{set_key, get-set_key_self, get-set_key_ne}
use policy_mesh.Norms.Rules.{
  NormRule, NormProblem, Checked, refused, passed, ◌>>=◌, supported_templates, set_rule,
  unsupported_category, unsupported_rule, conflicting_values, unsigned_threshold,
  unsigned_manifests, below_one, no_number, no_list, at_least_one, to_int, to_list, digits,
  parse_int, number_of, negated,
}
use policy_mesh.Norms.Base.{base_policy}
use Prim.Native.String.{◌++◌ as append_text}
use policy_mesh.Json.{
  Value, Entries, null, bool, int, str, list, dict, entry, no_entries, element, no_elements, get,
  truth, flag,
}
use policy_mesh.Json.Compare.{eq_value, bit}
use policy_mesh.Prelude.Int.{ℤ, pos, negsuc, ltb_ℤ}
use policy_mesh.Prelude.{
  leb, ◌-◌, is_empty, ◌+◌, false, nat_eq, not, true, zero, ◌*◌, Bool, [], none, some, suc, ◌&&◌,
  ◌++◌, ◌==◌, ◌∷◌, List, Option, String, codes, contains, if◌then◌else◌, ℕ,
}
use policy_mesh.Update.{VillagePolicyUpdate, compute_policy_hash, Crypto}
use policy_mesh.Update.Signing.{build_update}

pub record Norm : Type 0 where
  pub norm_id : String
  pub statement : String
  pub category : String
  pub enforcement : String
  pub rationale : Option String
  pub tags : List String
  pub compile_to : List NormRule

pub record NormSet : Type 0 where
  pub norm_set_id : String
  pub village_id : String
  pub title : String
  pub version : String
  pub description : String
  pub authors : List String
  pub created_at : ℕ
  pub norms : List Norm

abbrev pub supported_categories : List String
supported_categories = "intake" ∷ "review" ∷ "governance" ∷ "trust" ∷ "transparency" ∷ []

unfoldable pub validate_rules : List NormRule → Checked Bool
unfolding contains
validate_rules [] = passed true
validate_rules (rule ∷ rules) =
    let rest = validate_rules rules in
    if contains rule.key supported_templates then rest else refused (unsupported_rule rule.key)

unfoldable pub validate_norm : Norm → Checked Norm
unfolding contains validate_rules
validate_norm norm =
    if contains norm.category supported_categories
    then (do fine ← validate_rules norm.compile_to; passed norm)
    else refused (unsupported_category norm.category)

-- The state of the compilation. A note is the key of the rule that it is about.
pub record Compilation : Type 0 where
  pub policy : Entries
  pub source_norm_ids : List String
  pub notes : List String
  pub compiled_by_rule : Entries

unfoldable pub agrees : Option Value → Value → Bool
unfolding eq_value
agrees none value = true
agrees (some old) value = eq_value old value

abbrev pub or_null : Option Value → Value
or_null none = null
or_null (some v) = v

unfoldable pub compile_rule : String → Compilation → NormRule → Checked Compilation
unfolding get agrees set_rule set_key
compile_rule norm_id s rule =
    if agrees (get rule.key s.compiled_by_rule) rule.value
    then (do
      policy ← set_rule rule.key rule.value s.policy
      passed (record s {
        policy = policy;
        notes = s.notes ++ (rule.key ∷ []);
        compiled_by_rule = set_key rule.key rule.value s.compiled_by_rule;
      }))
    else refused
        (conflicting_values rule.key (or_null (get rule.key s.compiled_by_rule)) rule.value norm_id)

unfoldable pub compile_rules : String → Compilation → List NormRule → Checked Compilation
unfolding compile_rule
compile_rules norm_id s [] = passed s
compile_rules norm_id s (rule ∷ rules) = do
  s' ← compile_rule norm_id s rule
  compile_rules norm_id s' rules

unfoldable pub compile_norms : Compilation → List Norm → Checked Compilation
unfolding compile_rules
compile_norms s [] = passed s
compile_norms s (norm ∷ norms) = do
  s' ←
      compile_rules norm.norm_id
        (record s { source_norm_ids = s.source_norm_ids ++ (norm.norm_id ∷ []) }) norm.compile_to
  compile_norms s' norms

-- `policy.get("policy_signature_threshold_m", 1) > 1`, where it is a number
abbrev pub above_one : Option Value → Bool
above_one (some (int n)) = ltb_ℤ (pos 1) n
above_one _ = false

-- The two checks on the compiled policy
unfoldable pub check_compiled : Entries → Checked Entries
unfolding get flag
check_compiled policy =
    if above_one (get "policy_signature_threshold_m" policy)
      && not (flag "require_policy_signature" policy)
    then refused unsigned_threshold
    else if flag "require_trusted_manifest_signer" policy
        && not (flag "require_manifest_signature" policy)
    then refused unsigned_manifests
    else passed policy

pub record PolicyLineage : Type 0 where
  pub source_norm_set_id : String
  pub source_norm_ids : List String
  pub compiler_version : String
  pub compiler_ruleset : String
  pub output_policy_hash : String
  pub transformation_notes : List String

-- The time of the compilation is left out.
pub record CompiledPolicyArtifact : Type 0 where
  pub compiled_policy_id : String
  pub village_id : String
  pub title : String
  pub source_norm_set_id : String
  pub compiler_version : String
  pub compiler_ruleset : String
  pub policy : Entries
  pub policy_hash : String
  pub lineage : PolicyLineage
  pub source_norm_snapshot : List Norm

abbrev pub artifact_of :
    String → String → NormSet → Compilation → Entries → String → CompiledPolicyArtifact
artifact_of compiler_version compiler_ruleset norm_set s policy policy_hash = record {
  compiled_policy_id = append_text norm_set.village_id (append_text "-compiled-" norm_set.version);
  village_id = norm_set.village_id;
  title = append_text "Compiled policy for " norm_set.title;
  source_norm_set_id = norm_set.norm_set_id;
  compiler_version = compiler_version;
  compiler_ruleset = compiler_ruleset;
  policy = policy;
  policy_hash = policy_hash;
  lineage = record {
    source_norm_set_id = norm_set.norm_set_id;
    source_norm_ids = s.source_norm_ids;
    compiler_version = compiler_version;
    compiler_ruleset = compiler_ruleset;
    output_policy_hash = policy_hash;
    transformation_notes = s.notes;
  };
  source_norm_snapshot = norm_set.norms;
}

abbrev pub nothing_compiled : Compilation
nothing_compiled = record {
  policy = base_policy;
  source_norm_ids = [];
  notes = [];
  compiled_by_rule = no_entries;
}

module _ (C : Crypto) where
  unfoldable pub compile_norm_set : String → String → NormSet → Checked CompiledPolicyArtifact
  unfolding compile_norms check_compiled base_policy compute_policy_hash
  compile_norm_set compiler_version compiler_ruleset norm_set = do
    s ← compile_norms nothing_compiled norm_set.norms
    policy ← check_compiled s.policy
    passed (
        artifact_of compiler_version compiler_ruleset norm_set s policy
          (compute_policy_hash C (dict policy)))

  unfoldable pub compiled_artifact_to_policy_update :
      CompiledPolicyArtifact → Option String → Option String → ℕ → VillagePolicyUpdate
  unfolding build_update
  compiled_artifact_to_policy_update artifact actor previous_policy_hash now =
      build_update C (record {
        village_id = artifact.village_id;
        policy = dict artifact.policy;
        actor = actor;
        lifecycle_state = "approved";
        previous_policy_hash = previous_policy_hash;
        activation_time = none;
        activation_height = none;
        policy_version_id = some artifact.compiled_policy_id;
        quorum = none;
        quorum_metadata = none;
        change_summary = some (record { added = []; removed = []; changed = "/policy" ∷ [] });
        now = now;
      })
