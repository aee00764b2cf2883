-- ===== src/Drift/Laws.antt =====
-- What the classifier of links/drift_classes.py answers on every input.
use policy_mesh.Prelude.{
  ℕ, nat_eq, ◌≤◌, ◌<◌, String, ◌≡◌, ◌≢◌, refl, ap, ◌↔◌, ◌⊎◌, inl, inr, Bool, true, false, List, [],
  ◌∷◌, ◌++◌, ◌==◌, eq_iff, All, arith, Bool-cases, ltb,
}
use mathlib.Core.Path.{subst}
use policy_mesh.Drift.{
  Observation, classify_matching, classify_checkpoint_drift, drift_severity, max_by_severity,
  most_severe,
}

abbrev pub swap : Observation → Observation
swap o = record {
  local_policy_hash = o.peer_policy_hash;
  peer_policy_hash = o.local_policy_hash;
  local_entry_count = o.peer_entry_count;
  peer_entry_count = o.local_entry_count;
  local_checkpoint_hash = o.peer_checkpoint_hash;
  peer_checkpoint_hash = o.local_checkpoint_hash;
}

-- Whether two hashes are both given and differ.
abbrev pub Conflict : String → String → Type 0
Conflict a b = (a ≢ "") × (b ≢ "") × (a ≢ b)

-- The class that the taxonomy in the module's documentation gives an observation.
pub data Classified (o : Observation) : String → Type 0 where
  unknown : (o.local_policy_hash ≡ "") ⊎ (o.peer_policy_hash ≡ "") → Classified o "unknown"
  policy_divergence :
      Conflict o.local_policy_hash o.peer_policy_hash → Classified o "policy_divergence"
  publication_lag :
      o.local_policy_hash ≢ ""
      → o.local_policy_hash ≡ o.peer_policy_hash
      → o.local_entry_count ≢ o.peer_entry_count
      → Classified o "publication_lag"
  history_only_divergence :
      o.local_policy_hash ≢ ""
      → o.local_policy_hash ≡ o.peer_policy_hash
      → o.local_entry_count ≡ o.peer_entry_count
      → Conflict o.local_checkpoint_hash o.peer_checkpoint_hash
      → Classified o "history_only_divergence"
  aligned :
      o.local_policy_hash ≢ ""
      → o.local_policy_hash ≡ o.peer_policy_hash
      → o.local_entry_count ≡ o.peer_entry_count
      → ¬ (Conflict o.local_checkpoint_hash o.peer_checkpoint_hash)
      → Classified o "aligned"

eq→ : (a b : String) → (a == b) ≡ true → a ≡ b
eq→ a b = (eq_iff a b).0

ne→ : (a b : String) → (a == b) ≡ false → a ≢ b
ne→ a b h e = cc ((eq_iff a b).1 e)

matching-Classified :
    (o : Observation)
    → o.local_policy_hash ≢ ""
    → o.local_policy_hash ≡ o.peer_policy_hash
    → (count_match : Bool) → nat_eq o.local_entry_count o.peer_entry_count ≡ count_match
    → Classified o (classify_matching o count_match).0
unfolding classify_matching
matching-Classified o h e false c = publication_lag h e (ground arith)
matching-Classified o h e true c =
    let l = o.local_checkpoint_hash in
    let p = o.peer_checkpoint_hash in
    elim (Bool-cases (l == "")) [
      | inl x ↦ rw x (aligned h e (ground arith) (λ k. k.0 (eq→ l "" x)))
      | inr x ↦ elim (Bool-cases (p == "")) [
        | inl y ↦ rw (x, y) (aligned h e (ground arith) (λ k. k.1 (eq→ p "" y)))
        | inr y ↦ elim (Bool-cases (l == p)) [
          | inl z ↦ rw (x, y, z) (aligned h e (ground arith) (λ k. k.2 (eq→ l p z)))
          | inr z ↦
              rw (x, y, z)
                (history_only_divergence h e (ground arith) (ne→ l "" x, ne→ p "" y, ne→ l p z))
        ]
      ]
    ]

classify-Classified : (o : Observation) → Classified o (classify_checkpoint_drift o).0
unfolding classify_checkpoint_drift
classify-Classified o =
    let l = o.local_policy_hash in
    let p = o.peer_policy_hash in
    elim (Bool-cases (l == "")) [
      | inl x ↦ rw x (unknown (inl (eq→ l "" x)))
      | inr x ↦ elim (Bool-cases (p == "")) [
        | inl y ↦ rw (x, y) (unknown (inr (eq→ p "" y)))
        | inr y ↦ elim (Bool-cases (l == p)) [
          | inl z ↦
              rw (x, y, z)
                (matching-Classified o (ne→ l "" x) (eq→ l p z)
                  (nat_eq o.local_entry_count o.peer_entry_count) refl)
          | inr z ↦ rw (x, y, z) (policy_divergence (ne→ l "" x, ne→ p "" y, ne→ l p z))
        ]
      ]
    ]

Classified-unique :
    (o : Observation) (c : String) → Classified o c → (classify_checkpoint_drift o).0 ≡ c
unfolding classify_checkpoint_drift classify_matching
Classified-unique o _ (unknown (inl e)) = rw ((eq_iff o.local_policy_hash "").1 e)
Classified-unique o _ (unknown (inr e)) =
    ground (arith, eq_iff o.local_policy_hash "", eq_iff o.peer_policy_hash "")
Classified-unique o _ (policy_divergence k) = ground (
  arith,
  eq_iff o.local_policy_hash "",
  eq_iff o.peer_policy_hash "",
  eq_iff o.local_policy_hash o.peer_policy_hash,
)
Classified-unique o _ (publication_lag h e c) = ground (
  arith,
  eq_iff o.local_policy_hash "",
  eq_iff o.peer_policy_hash "",
  eq_iff o.local_policy_hash o.peer_policy_hash,
)
Classified-unique o _ (history_only_divergence h e c k) = ground (
  arith,
  eq_iff o.local_policy_hash "",
  eq_iff o.peer_policy_hash "",
  eq_iff o.local_policy_hash o.peer_policy_hash,
  eq_iff o.local_checkpoint_hash "",
  eq_iff o.peer_checkpoint_hash "",
  eq_iff o.local_checkpoint_hash o.peer_checkpoint_hash,
)
Classified-unique o _ (aligned h e c k) = ground (
  arith,
  eq_iff o.local_policy_hash "",
  eq_iff o.peer_policy_hash "",
  eq_iff o.local_policy_hash o.peer_policy_hash,
  eq_iff o.local_checkpoint_hash "",
  eq_iff o.peer_checkpoint_hash "",
  eq_iff o.local_checkpoint_hash o.peer_checkpoint_hash,
)

-- The classifier's answer is the one class that the taxonomy gives the observation.
pub classify-eq_iff :
    (o : Observation) (c : String) → ((classify_checkpoint_drift o).0 ≡ c) ↔ Classified o c
classify-eq_iff o c = (λ e. subst (Classified o) e (classify-Classified o), Classified-unique o c)

-- No answer depends on which of the two nodes asks.
pub classify-swap :
    (o : Observation) → (classify_checkpoint_drift (swap o)).0 ≡ (classify_checkpoint_drift o).0
unfolding classify_checkpoint_drift
classify-swap o = ground (
  arith,
  eq_iff o.local_policy_hash o.peer_policy_hash,
  eq_iff o.peer_policy_hash o.local_policy_hash,
  eq_iff o.local_checkpoint_hash o.peer_checkpoint_hash,
  eq_iff o.peer_checkpoint_hash o.local_checkpoint_hash,
)

-- `m` stands in `xs`, above all before it and not below any after it.
abbrev pub FirstGreatest : (String → ℕ) → String → List String → Type 0
FirstGreatest f m xs =
    (before after : List String) × (xs ≡ before ++ (m ∷ after))
    × All (λ c. f c < f m) before
    × All (λ c. f c ≤ f m) after

FirstGreatest-skip :
    (f : String → ℕ) (m b c : String) (cs : List String)
    → f c ≤ f b
    → FirstGreatest f m (b ∷ cs)
    → FirstGreatest f m (b ∷ c ∷ cs)
FirstGreatest-skip f m b c cs h ([], after, e, lt, le) =
    ([], c ∷ after, ground arith, tt, (ground arith, le))
FirstGreatest-skip f m b c cs h (x ∷ before, after, e, lt, le) =
    (b ∷ c ∷ before, after, ground arith, (ground arith, (ground arith, lt.1)), le)

le-max_by_severity :
    (best : String) (cs : List String)
    → drift_severity best ≤ drift_severity (max_by_severity best cs)
unfolding max_by_severity
le-max_by_severity best [] = omega arith
le-max_by_severity best (c ∷ cs) =
    ground (arith, le-max_by_severity best cs, le-max_by_severity c cs)

max_by_severity_lem :
    (best : String) (cs : List String)
    → FirstGreatest drift_severity (max_by_severity best cs) (best ∷ cs)
unfolding max_by_severity
max_by_severity_lem best [] = ([], [], refl, tt, tt)
max_by_severity_lem best (c ∷ cs) =
    elim (Bool-cases (ltb (drift_severity best) (drift_severity c))) [
      | inl h ↦
          let (before, after, e, lt, le) = max_by_severity_lem c cs in
          rw h (
            best ∷ before,
            after,
            ap (◌∷◌ best) e,
            (ground (arith, le-max_by_severity c cs), lt),
            le,
          )
      | inr h ↦ rw h (
          FirstGreatest-skip drift_severity _ best c cs (ground arith)
            (max_by_severity_lem best cs))
    ]

-- Of a list that is not empty the answer is the first element of the greatest severity.
pub most_severe-FirstGreatest :
    (c : String) (cs : List String) → FirstGreatest drift_severity (most_severe (c ∷ cs)) (c ∷ cs)
unfolding most_severe
most_severe-FirstGreatest c cs = max_by_severity_lem c cs
