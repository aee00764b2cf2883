-- ===== src/Norms/Invariant.antt =====
-- What a compiled policy is like.
use policy_mesh.Json.Dict.{set_key, get-set_key_self, get-set_key_ne}
use policy_mesh.Norms.Rules.{
  NormProblem, set_rule, Checked, passed, refused, ◌>>=◌, at_least_one, to_int, to_list,
}
use policy_mesh.Norms.Base.{base_policy}
use policy_mesh.Json.{truth, no_elements, Value, Entries, Elements, int, bool, list, get}
use policy_mesh.Prelude.Int.{ℤ, pos, ltb_ℤ}
use policy_mesh.Prelude.{
  [], sym, eq_iff, true, ◌++◌, ◌∷◌, All, List, Option, ap, contains, inr, inl, Bool-cases, arith,
  Bool, refl, some, ◌==◌, String, false, ◌≡◌,
}
use mathlib.Core.Path.{subst}

-- What a step that passed has handed to the next one.
pub bind-passes {ℓ κ} :
    {S : Type ℓ} {T : Type κ} (step : Checked S) (next : S → Checked T) {after : T}
    → (step >>= next) ≡ passed after
    → (between : S) × (step ≡ passed between) × (next between ≡ passed after)
bind-passes (refused problem) next stopped = cc
bind-passes (passed between) next went_on = (between, refl, went_on)

abbrev pub OneOrMore : Option Value → Type 0
OneOrMore o = (n : ℤ) × (o ≡ some (int n)) × (ltb_ℤ n (pos 1) ≡ false)

abbrev pub IsBool : Option Value → Type 0
IsBool o = (b : Bool) × (o ≡ some (bool b))

abbrev pub IsList : Option Value → Type 0
IsList o = (xs : Elements) × (o ≡ some (list xs))

abbrev pub ones : List String
ones = "policy_signature_threshold_m" ∷ "quarantine_review_min_approvals" ∷ []

abbrev pub bools : List String
bools =
    "quarantine_external_bundles" ∷ "require_policy_signature" ∷ "require_manifest_signature"
    ∷ "require_trusted_manifest_signer" ∷ []

abbrev pub lists : List String
lists = "trusted_manifest_signer_allowlist" ∷ []

-- The fields that templates set.
abbrev pub fields : List String
fields = "transparency_checkpoints_enabled" ∷ (ones ++ (bools ++ lists))

-- The numbers are whole and one at least, the switches are Booleans, and the allowlist is a list.
abbrev pub IsWellFormed : Entries → Type 0
IsWellFormed policy =
    All (λ k. OneOrMore (get k policy)) ones
    × All (λ k. IsBool (get k policy)) bools
    × All (λ k. IsList (get k policy)) lists

pub base_policy-IsWellFormed : IsWellFormed base_policy
unfolding get base_policy
base_policy-IsWellFormed = (
  ((pos 1, refl, refl), ((pos 1, refl, refl), tt)),
  ((false, refl), ((false, refl), ((false, refl), ((false, refl), tt)))),
  ((no_elements, refl), tt),
)

set_key-All :
    (P : Option Value → Type 0) (f : String) (v : Value) (d : Entries) (ks : List String)
    → (contains f ks ≡ true → P (some v))
    → All (λ k. P (get k d)) ks
    → All (λ k. P (get k (set_key f v d))) ks
unfolding contains
set_key-All P f v d [] fits w = tt
set_key-All P f v d (k ∷ ks) fits w = (
  elim (Bool-cases (f == k)) [
    | inl e ↦
        subst (λ o. P o) (ap (λ x. get x (set_key f v d)) ((eq_iff f k).0 e))
          (subst (λ o. P o) (sym (get-set_key_self f v d))
            ((fits ground (arith, eq_iff f k, eq_iff k f))))
    | inr e ↦ subst (λ o. P o) (sym (get-set_key_ne k f v d e)) w.0
  ],
  set_key-All P f v d ks (λ c. fits ground arith) w.1,
)

-- A field and the value that a rule sets.
pub record Fits (f : String) (v : Value) : Type 0 where
  pub known : contains f fields ≡ true
  pub as_one : contains f ones ≡ true → OneOrMore (some v)
  pub as_bool : contains f bools ≡ true → IsBool (some v)
  pub as_list : contains f lists ≡ true → IsList (some v)

pub set_key-IsWellFormed :
    (f : String) (v : Value) (d : Entries)
    → Fits f v
    → IsWellFormed d
    → IsWellFormed (set_key f v d)
set_key-IsWellFormed f v d fits w = (
  set_key-All OneOrMore f v d ones fits.as_one w.0,
  set_key-All IsBool f v d bools fits.as_bool w.1,
  set_key-All IsList f v d lists fits.as_list w.2,
)

abbrev pub Sets : Entries → Entries → Type 0
Sets p q = (f : String) × (v : Value) × (q ≡ set_key f v p) × Fits f v

passed-injective : (p q : Entries) → ◌≡◌ {A = Checked Entries} (passed p) (passed q) → p ≡ q
passed-injective p q e = cc

bool_rule :
    (f : String) (b : Bool) (p q : Entries)
    → contains f fields ≡ true
    → contains f ones ≡ false
    → contains f lists ≡ false
    → ◌≡◌ {A = Checked Entries} (passed (set_key f (bool b) p)) (passed q)
    → Sets p q
bool_rule f b p q a n m e = (
  f,
  bool b,
  sym (passed-injective _ _ e),
  record { known = a; as_one = λ c. cc; as_bool = λ c. (b, refl); as_list = λ c. cc },
)

number_rule :
    (f key : String) (value : Value) (p q : Entries)
    → contains f fields ≡ true
    → contains f bools ≡ false
    → contains f lists ≡ false
    → (at_least_one key value >>= λ iv. passed (set_key f (int iv) p)) ≡ passed q
    → Sets p q
unfolding at_least_one
number_rule f key value p q a n m e =
    let (iv, ei, rest) = bind-passes (at_least_one key value) _ e in
    let (j, ej, high) = bind-passes (to_int value) _ ei in
    (
      f,
      int iv,
      sym (passed-injective _ _ rest),
      record {
        known = a;
        as_one = λ c. (iv, refl, ground (arith, high));
        as_bool = λ c. cc;
        as_list = λ c. cc;
      },
    )

cc_refused :
    {A : Type 0} {x : Entries} {problem : NormProblem}
    → ◌≡◌ {A = Checked Entries} (refused problem) (passed x)
    → A
cc_refused h = cc

list_rule :
    (value : Value) (p q : Entries)
    → (to_list value >>= λ xs. passed (set_key "trusted_manifest_signer_allowlist" xs p)) ≡ passed q
    → Sets p q
unfolding contains
list_rule (list xs) p q e = (
  "trusted_manifest_signer_allowlist",
  list xs,
  sym (passed-injective _ _ e),
  record { known = refl; as_one = λ c. cc; as_bool = λ c. cc; as_list = λ c. (xs, refl) },
)
list_rule value p q e = cc_refused e

pub set_rule_lem :
    (key : String) (value : Value) (p q : Entries) → set_rule key value p ≡ passed q → Sets p q
unfolding set_rule contains
set_rule_lem key value p q h = elim (Bool-cases (key == "quarantine_external_bundles")) [
  | inl e ↦ bool_rule "quarantine_external_bundles" (truth value) p q refl refl refl (rw e at h)
  | inr n0 ↦ elim (Bool-cases (key == "review_min_approvals")) [
    | inl e ↦
        number_rule "quarantine_review_min_approvals" key value p q refl refl refl (rw (n0, e) at h)
    | inr n1 ↦ elim (Bool-cases (key == "require_policy_signature")) [
      | inl e ↦
          bool_rule "require_policy_signature" (truth value) p q refl refl refl
            (rw (n0, n1, e) at h)
      | inr n2 ↦ elim (Bool-cases (key == "policy_signature_threshold_m")) [
        | inl e ↦
            number_rule "policy_signature_threshold_m" key value p q refl refl refl
              (rw (n0, n1, n2, e) at h)
        | inr n3 ↦ elim (Bool-cases (key == "trust_anchor_allowlist")) [
          | inl e ↦ list_rule value p q (rw (n0, n1, n2, n3, e) at h)
          | inr n4 ↦ elim (Bool-cases (key == "enable_transparency_checkpoints")) [
            | inl e ↦
                bool_rule "transparency_checkpoints_enabled" (truth value) p q refl refl refl
                  (rw (n0, n1, n2, n3, n4, e) at h)
            | inr n5 ↦ elim (Bool-cases (key == "require_manifest_signature")) [
              | inl e ↦
                  bool_rule "require_manifest_signature" (truth value) p q refl refl refl
                    (rw (n0, n1, n2, n3, n4, n5, e) at h)
              | inr n6 ↦ elim (Bool-cases (key == "require_trusted_manifest_signer")) [
                | inl e ↦
                    bool_rule "require_trusted_manifest_signer" (truth value) p q refl refl refl
                      (rw (n0, n1, n2, n3, n4, n5, n6, e) at h)
                | inr n7 ↦ cc_refused (rw (n0, n1, n2, n3, n4, n5, n6, n7) at h)
              ]
            ]
          ]
        ]
      ]
    ]
  ]
]
