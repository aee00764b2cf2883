-- ===== src/Norms/Compiled.antt =====
-- What the compilation of a set of norms gives.
use policy_mesh.Json.Dict.{get-set_key_ne}
use policy_mesh.Norms.Invariant.{
  bind-passes, set_key-IsWellFormed, set_rule_lem, base_policy-IsWellFormed,
}
use policy_mesh.Norms.{
  compile_rule, compile_rules, compile_norms, check_compiled, compile_norm_set, Compilation,
  CompiledPolicyArtifact, artifact_of, nothing_compiled, compiled_artifact_to_policy_update, Norm,
  NormSet, above_one, agrees,
}
use policy_mesh.Norms.Rules.{set_rule, Checked, passed, NormRule}
use policy_mesh.Norms.Base.{base_policy}
use policy_mesh.Norms.Invariant.{IsWellFormed, fields}
use policy_mesh.Json.{dict, Value, Entries, get, flag}
use policy_mesh.Prelude.{
  ℕ, Option, append_assoc, eq_iff, refl, [], arith, append-nil, inl, ◌==◌, ap, false, inr, sym, ◌∷◌,
  Bool-cases, contains, map, true, ◌++◌, List, String, ◌∙◌, ◌≡◌,
}
use mathlib.Core.Path.{subst}
use policy_mesh.Update.{compute_policy_hash, Crypto}

-- Only the templates' fields differ from the other policy.
abbrev pub SameElsewhere : Entries → Entries → Type 0
SameElsewhere p q = (k : String) → contains k fields ≡ false → get k q ≡ get k p

field-differs :
    (f k : String) → contains f fields ≡ true → contains k fields ≡ false → (f == k) ≡ false
field-differs f k a n = elim (Bool-cases (f == k)) [
  | inl e ↦ absurd ground (arith, ap (λ z. contains z fields) ((eq_iff f k).0 e), a, n)
  | inr d ↦ d
]

-- What each step keeps.
record Kept (s t : Compilation) : Type 0 where
  well_formed : IsWellFormed s.policy → IsWellFormed t.policy
  elsewhere : SameElsewhere s.policy t.policy
  ids : t.source_norm_ids ≡ s.source_norm_ids

set_rule-Kept :
    (key : String) (value : Value) (p q : Entries)
    → set_rule key value p ≡ passed q
    → (IsWellFormed p → IsWellFormed q) × SameElsewhere p q
set_rule-Kept key value p q h =
    let (f, v, e, fits) = set_rule_lem key value p q h in
    (
      λ w. subst IsWellFormed (sym e) (set_key-IsWellFormed f v p fits w),
      λ k n. ap (get k) e ∙ get-set_key_ne k f v p (field-differs f k fits.known n),
    )

compiled-eq :
    (s t : CompiledPolicyArtifact)
    → ◌≡◌ {A = Checked CompiledPolicyArtifact} (passed s) (passed t)
    → s ≡ t
compiled-eq s t e = cc

passed-eq : (s t : Compilation) → ◌≡◌ {A = Checked Compilation} (passed s) (passed t) → s ≡ t
passed-eq s t e = cc

rule-Kept :
    (norm_id : String) (s t : Compilation) (rule : NormRule)
    → compile_rule norm_id s rule ≡ passed t
    → Kept s t
unfolding compile_rule
rule-Kept norm_id s t rule h =
    elim (Bool-cases (agrees (get rule.key s.compiled_by_rule) rule.value)) [
      | inr bad ↦ ground (arith, bad, h)
      | inl fine ↦
          let (q, eq, rest) =
            bind-passes (set_rule rule.key rule.value s.policy) _ (rw fine at h) in
          let (w, m) = set_rule-Kept rule.key rule.value s.policy q eq in
          subst (Kept s) (passed-eq _ t rest)
            (record { well_formed = w; elsewhere = m; ids = refl })
    ]

trans-Kept : (s t u : Compilation) → Kept s t → Kept t u → Kept s u
trans-Kept s t u a b = record {
  well_formed = λ w. b.well_formed (a.well_formed w);
  elsewhere = λ k n. b.elsewhere k n ∙ a.elsewhere k n;
  ids = b.ids ∙ a.ids;
}

rules-Kept :
    (norm_id : String) (s t : Compilation) (rules : List NormRule)
    → compile_rules norm_id s rules ≡ passed t
    → Kept s t
unfolding compile_rules
rules-Kept norm_id s t [] h =
    subst (Kept s) (passed-eq s t h)
      (record { well_formed = λ w. w; elsewhere = λ k n. refl; ids = refl })
rules-Kept norm_id s t (rule ∷ rules) h =
    let (u, eu, rest) = bind-passes (compile_rule norm_id s rule) _ h in
    trans-Kept s u t (rule-Kept norm_id s u rule eu) (rules-Kept norm_id u t rules rest)

norms-Kept :
    (s t : Compilation) (norms : List Norm)
    → compile_norms s norms ≡ passed t
    → (IsWellFormed s.policy → IsWellFormed t.policy)
      × SameElsewhere s.policy t.policy
      × (t.source_norm_ids ≡ s.source_norm_ids ++ map (λ n. n.norm_id) norms)
unfolding compile_norms
norms-Kept s t [] h =
    let e = passed-eq s t h in
    (
      λ w. subst (λ x. IsWellFormed x.policy) e w,
      λ k n. ap (λ x. get k x.policy) (sym e),
      ap (λ x. x.source_norm_ids) (sym e) ∙ sym (append-nil s.source_norm_ids),
    )
norms-Kept s t (norm ∷ norms) h =
    let (u, eu, rest) =
      bind-passes
        (compile_rules norm.norm_id
          (record s { source_norm_ids = s.source_norm_ids ++ (norm.norm_id ∷ []) }) norm.compile_to)
        _ h in
    let kept =
      rules-Kept norm.norm_id
        (record s { source_norm_ids = s.source_norm_ids ++ (norm.norm_id ∷ []) }) u norm.compile_to
        eu in
    let (w, m, i) = norms-Kept u t norms rest in
    (
      λ x. w (kept.well_formed x),
      λ k n. m k n ∙ kept.elsewhere k n,
      i
          ∙ ap (λ z. z ++ map (λ n. n.norm_id) norms) kept.ids
          ∙ append_assoc s.source_norm_ids (norm.norm_id ∷ []) (map (λ n. n.norm_id) norms),
    )

-- A policy whose threshold is above one requires signatures, and one that requires trusted signers of
-- manifests requires that manifests are signed.
abbrev pub IsConsistent : Entries → Type 0
IsConsistent policy =
    (above_one (get "policy_signature_threshold_m" policy) ≡ true
      → flag "require_policy_signature" policy ≡ true)
    × (flag "require_trusted_manifest_signer" policy ≡ true
        → flag "require_manifest_signature" policy ≡ true)

check-IsConsistent : (p q : Entries) → check_compiled p ≡ passed q → (q ≡ p) × IsConsistent p
unfolding check_compiled
check-IsConsistent p q h = (ground (arith, h), (ground (arith, h), ground (arith, h)))

module _ (C : Crypto) (norm_set : NormSet) where
  abbrev Sound : CompiledPolicyArtifact → Type 0
  Sound x =
      IsWellFormed x.policy
      × IsConsistent x.policy
      × SameElsewhere base_policy x.policy
      × (x.lineage.source_norm_ids ≡ map (λ n. n.norm_id) norm_set.norms)
      × ((actor previous : Option String) (now : ℕ)
          → let u = compiled_artifact_to_policy_update C x actor previous now in
            (u.policy_hash ≡ x.policy_hash) × (u.policy_hash ≡ compute_policy_hash C u.policy))

  artifact_lem :
      (version rules : String) (s : Compilation) (q : Entries)
      → IsWellFormed q
      → IsConsistent q
      → SameElsewhere base_policy q
      → (s.source_norm_ids ≡ map (λ n. n.norm_id) norm_set.norms)
      → Sound (artifact_of version rules norm_set s q (compute_policy_hash C (dict q)))
  unfolding compiled_artifact_to_policy_update
  artifact_lem version rules s q w k e i = (w, k, e, i, λ actor previous now. (refl, refl))

  -- A compiled policy is well formed and consistent, it is a new village's policy but in the fields
  -- that templates set, its lineage names the norms in their order, and the update that is made of it
  -- has its hash, which is that of the update's policy.
  pub compile_lem :
      (version rules : String) (c : CompiledPolicyArtifact)
      → compile_norm_set C version rules norm_set ≡ passed c
      → IsWellFormed c.policy
        × IsConsistent c.policy
        × SameElsewhere base_policy c.policy
        × (c.lineage.source_norm_ids ≡ map (λ n. n.norm_id) norm_set.norms)
        × ((actor previous : Option String) (now : ℕ)
            → let u = compiled_artifact_to_policy_update C c actor previous now in
              (u.policy_hash ≡ c.policy_hash) × (u.policy_hash ≡ compute_policy_hash C u.policy))
  unfolding compile_norm_set
  compile_lem version rules c h =
      let (s, es, h₁) = bind-passes (compile_norms nothing_compiled norm_set.norms) _ h in
      let (q, eq, h₂) = bind-passes (check_compiled s.policy) _ h₁ in
      let (w, m, i) = norms-Kept nothing_compiled s norm_set.norms es in
      let (same, fine) = check-IsConsistent s.policy q eq in
      subst Sound (compiled-eq _ c h₂) (
        artifact_lem version rules s q (subst IsWellFormed (sym same) (w base_policy-IsWellFormed))
          (subst IsConsistent (sym same) fine) (λ k n. ap (get k) same ∙ m k n) i)
