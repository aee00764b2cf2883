-- ===== src/Drift/Compare.antt =====
-- links/checkpoint_exchange.py: the comparison of two checkpoint artifacts.
use policy_mesh.Prelude.{
  ℕ, String, ◌≡◌, ◌≢◌, ◌↔◌, Option, none, some, List, ◌==◌, nat_eq, refl, ◌∙◌, inl, inr, Bool-cases,
  eq_iff, arith, if◌then◌else◌,
}
use policy_mesh.Drift.{Note, classify_matching, classify_checkpoint_drift}

-- The keys of a checkpoint artifact that the comparison reads; `none` where the key is absent.
pub record Checkpoint : Type 0 where
  pub village_id : Option String
  pub checkpoint_hash : Option String
  pub latest_policy_hash : Option String
  pub entry_count : Option ℕ

-- `compared_at` is left out: it is the clock's value.
pub record CheckpointComparisonReport : Type 0 where
  pub village_id : String
  pub local_checkpoint_hash : String
  pub peer_checkpoint_hash : String
  pub local_entry_count : ℕ
  pub peer_entry_count : ℕ
  pub local_latest_policy_hash : String
  pub peer_latest_policy_hash : String
  pub drift_class : String
  pub status : String
  pub notes : List Note

-- `d.get(key, default)`
abbrev pub get_or {ℓ} : {A : Type ℓ} → Option A → A → A
get_or none d = d
get_or (some a) d = a

-- `local.get("village_id") or peer.get("village_id") or "unknown"`
abbrev or_else : Option String → String → String
or_else none d = d
or_else (some s) d = if s == "" then d else s

abbrev status_for : String → String
status_for drift_class = if drift_class == "aligned" then "aligned" else "drift"

unfoldable pub compare_checkpoints : Checkpoint → Checkpoint → CheckpointComparisonReport
compare_checkpoints l p =
    let (drift_class, notes) = classify_checkpoint_drift (record {
      local_policy_hash = get_or l.latest_policy_hash "";
      peer_policy_hash = get_or p.latest_policy_hash "";
      local_entry_count = get_or l.entry_count 0;
      peer_entry_count = get_or p.entry_count 0;
      local_checkpoint_hash = "";
      peer_checkpoint_hash = "";
    }) in
    record {
      village_id = or_else l.village_id (or_else p.village_id "unknown");
      local_checkpoint_hash = get_or l.checkpoint_hash "";
      peer_checkpoint_hash = get_or p.checkpoint_hash "";
      local_entry_count = get_or l.entry_count 0;
      peer_entry_count = get_or p.entry_count 0;
      local_latest_policy_hash = get_or l.latest_policy_hash "";
      peer_latest_policy_hash = get_or p.latest_policy_hash "";
      drift_class = drift_class;
      status = status_for drift_class;
      notes = notes;
    }

drift-ne-aligned : ◌≢◌ {A = String} "drift" "aligned"
drift-ne-aligned e = cc ((eq_iff "drift" "aligned").1 e)

aligned_iff :
    (a b : String) (m n : ℕ)
    → let (c, _) = classify_checkpoint_drift (record {
      local_policy_hash = a;
      peer_policy_hash = b;
      local_entry_count = m;
      peer_entry_count = n;
      local_checkpoint_hash = "";
      peer_checkpoint_hash = "";
    }) in
      (status_for c ≡ "aligned") ↔ ((a ≢ "") × (a ≡ b) × (m ≡ n))
unfolding classify_checkpoint_drift classify_matching
aligned_iff a b m n = elim (Bool-cases (a == "")) [
  | inl x ↦ rw x (λ e. absurd (drift-ne-aligned e), λ k. absurd (k.0 ((eq_iff a "").0 x)))
  | inr x ↦ elim (Bool-cases (b == "")) [
    | inl y ↦
        rw (x, y) (λ e. absurd (drift-ne-aligned e), λ k. absurd (k.0 (k.1 ∙ (eq_iff b "").0 y)))
    | inr y ↦ elim (Bool-cases (a == b)) [
      | inl z ↦
          rw (x, y, z)
            (elim (Bool-cases (nat_eq m n)) [
              | inl c ↦
                  rw c (
                    λ _. ((λ e. cc ((eq_iff a "").1 e)), (eq_iff a b).0 z, ground arith),
                    λ _. refl,
                  )
              | inr c ↦ rw c (λ e. absurd (drift-ne-aligned e), λ k. absurd (ground arith))
            ])
      | inr z ↦ rw (x, y, z) (λ e. absurd (drift-ne-aligned e), λ k. cc ((eq_iff a b).1 k.1))
    ]
  ]
]

-- The report says "aligned" exactly if the two policy hashes are one hash that is not empty, and
-- the entry counts are equal. The checkpoint hashes that it shows have no part in it.
pub compare-aligned_iff :
    (l p : Checkpoint)
    → let r = compare_checkpoints l p in
      (r.status ≡ "aligned") ↔ (
        (r.local_latest_policy_hash ≢ "")
        × (r.local_latest_policy_hash ≡ r.peer_latest_policy_hash)
        × (r.local_entry_count ≡ r.peer_entry_count))
unfolding compare_checkpoints
compare-aligned_iff l p =
    aligned_iff (get_or l.latest_policy_hash "") (get_or p.latest_policy_hash "")
      (get_or l.entry_count 0) (get_or p.entry_count 0)
