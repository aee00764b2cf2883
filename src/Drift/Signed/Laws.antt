-- ===== src/Drift/Signed/Laws.antt =====
-- links/checkpoint_exchange.py: a checkpoint that is signed and checked.
use policy_mesh.Json.Dict.{get-set_key_self, get-set_key_ne, without-absent, set_key, without}
use policy_mesh.Prelude.{
  some, ℕ, List, truthy, eq_refl, ◌∙◌, eq_iff, ap, arith, true, inr, inl, refl, Bool-cases, false,
  none, ◌==◌, ◌≡◌, String,
}
use policy_mesh.Json.{str, truth, flag, no_entries, entry, Entries, get, Value}
use policy_mesh.Drift.Signed.{
  read_signature, checked_with, read_key, checkpoint_ok, verify_key_of, sign_checkpoint,
  verify_checkpoint_signature, CheckpointCrypto, checkpoint_body,
}
use policy_mesh.Update.Signing.{SigningKey}

other_key : (k j i : String) → (i == j) ≡ true → (j == k) ≡ false → (i == k) ≡ false
other_key k j i e n = ap (λ x. x == k) ((eq_iff i j).0 e) ∙ n

get-none :
    (k i : String) (w : Value) (rest : Entries)
    → get k (entry i w rest) ≡ none
    → ((i == k) ≡ false) × (get k rest ≡ none)
unfolding get
get-none k i w rest h = ground (arith, h)

without-set_key_ne :
    (k j : String) (v : Value) (d : Entries)
    → (j == k) ≡ false
    → without k (set_key j v d) ≡ set_key j v (without k d)
unfolding without set_key
without-set_key_ne k j v no_entries n = rw n refl
without-set_key_ne k j v (entry i w rest) n = elim (Bool-cases (i == j)) [
  | inl e ↦ rw e (rw (other_key k j i e n) (rw e refl))
  | inr e ↦ elim (Bool-cases (i == k)) [
    | inl f ↦ rw (e, f) (without-set_key_ne k j v rest n)
    | inr f ↦ rw (e, f) (rw e (ap (entry i w) (without-set_key_ne k j v rest n)))
  ]
]

get-without_self : (k : String) (d : Entries) → get k (without k d) ≡ none
unfolding get without
get-without_self k no_entries = refl
get-without_self k (entry j w rest) = elim (Bool-cases (j == k)) [
  | inl e ↦ rw e (get-without_self k rest)
  | inr e ↦ rw e (rw e (get-without_self k rest))
]

get-without_ne :
    (k j : String) (d : Entries) → (k == j) ≡ false → get k d ≡ none → get k (without j d) ≡ none
unfolding get without
get-without_ne k j no_entries n h = refl
get-without_ne k j (entry i w rest) n h =
    let (absent, later) = get-none k i w rest h in
    elim (Bool-cases (i == j)) [
      | inl e ↦ rw e (get-without_ne k j rest n later)
      | inr e ↦ rw e (rw absent (get-without_ne k j rest n later))
    ]

without-set_key_any :
    (k : String) (v : Value) (d : Entries) → without k (set_key k v d) ≡ without k d
unfolding without set_key
without-set_key_any k v no_entries = ground (arith, eq_refl k)
without-set_key_any k v (entry i w rest) = elim (Bool-cases (i == k)) [
  | inl e ↦ rw e (rw e refl)
  | inr e ↦ rw e (rw e (ap (entry i w) (without-set_key_any k v rest)))
]

body-set_hash :
    (d : Entries) (h : Value) → checkpoint_body (set_key "signer_key_hash" h d) ≡ checkpoint_body d
unfolding checkpoint_body
body-set_hash d h =
    ap (without "signer_key_hash") (without-set_key_ne "signature" "signer_key_hash" h d refl)
    ∙ without-set_key_any "signer_key_hash" h (without "signature" d)

body_lem :
    (d : Entries) (s h : Value)
    → checkpoint_body (set_key "signer_key_hash" h (set_key "signature" s (checkpoint_body d)))
      ≡ checkpoint_body d
unfolding checkpoint_body
body_lem d s h =
    body-set_hash (set_key "signature" s (checkpoint_body d)) h
    ∙ ap (without "signer_key_hash") (
        without-set_key_any "signature" s (checkpoint_body d)
        ∙ without-absent "signature" (checkpoint_body d) (
            get-without_ne "signature" "signer_key_hash" (without "signature" d) refl
              (get-without_self "signature" d)))
    ∙ without-absent "signer_key_hash" (checkpoint_body d)
        (get-without_self "signer_key_hash" (without "signature" d))

module _ (K : CheckpointCrypto) (k : SigningKey) where
  flag-text :
      (d : Entries) (s : String)
      → get "signature" d ≡ some (str s)
      → truthy s ≡ true
      → flag "signature" d ≡ true
  unfolding flag truth
  flag-text d s g t = rw (flag, g) t

  checked_lem :
      (message : List ℕ) (text : String)
      → K.verify k.verify_key message (k.sign message) ≡ true
      → K.from_hex text ≡ some (k.sign message)
      → checked_with K message (some k.verify_key) (read_signature K (some (str text)))
        ≡ (true, checkpoint_ok)
  unfolding checked_with read_signature
  checked_lem message text v x = rw x (rw v refl)

  signed_lem :
      (c d : Entries)
      → checkpoint_body c ≡ checkpoint_body d
      → get "signature" c ≡ some (str (K.hex (k.sign (K.checkpoint_json (checkpoint_body d)))))
      → ((message : List ℕ) → K.verify k.verify_key message (k.sign message) ≡ true)
      → ((message : List ℕ) → K.from_hex (K.hex (k.sign message)) ≡ some (k.sign message))
      → ((message : List ℕ) → truthy (K.hex (k.sign message)) ≡ true)
      → verify_checkpoint_signature K c (verify_key_of k.verify_key) ≡ (true, checkpoint_ok)
  unfolding verify_checkpoint_signature read_key
  signed_lem c d b g v x t =
      let message = K.checkpoint_json (checkpoint_body d) in
      rw (flag-text c _ g (t message))
        (rw (b, g) (checked_lem message (K.hex (k.sign message)) (v message) (x message)))

  -- What `sign_checkpoint` writes is the body with a signature on it, so that signing again is safe.
  sign-body :
      (d : Entries) (s h : Value)
      → sign_checkpoint K
          (set_key "signer_key_hash" h (set_key "signature" s (checkpoint_body d)))
          k
        ≡ sign_checkpoint K d k
  unfolding sign_checkpoint
  sign-body d s h =
      ap
        (λ b.
          set_key "signer_key_hash" (str (K.sha256_hex k.verify_key))
            (set_key "signature" (str (K.hex (k.sign (K.checkpoint_json b)))) b))
        (body_lem d s h)

  -- A checkpoint that a key has signed verifies by that key, where the key verifies what it signs and the
  -- digits of its signatures are read back and not empty. It says what the checkpoint said, and it can be
  -- signed again: that gives the same signed checkpoint.
  pub verify-sign_checkpoint :
      (d : Entries)
      → ((message : List ℕ) → K.verify k.verify_key message (k.sign message) ≡ true)
      → ((message : List ℕ) → K.from_hex (K.hex (k.sign message)) ≡ some (k.sign message))
      → ((message : List ℕ) → truthy (K.hex (k.sign message)) ≡ true)
      → (verify_checkpoint_signature K (sign_checkpoint K d k) (verify_key_of k.verify_key)
          ≡ (true, checkpoint_ok))
        × (checkpoint_body (sign_checkpoint K d k) ≡ checkpoint_body d)
        × (sign_checkpoint K (sign_checkpoint K d k) k ≡ sign_checkpoint K d k)
  unfolding sign_checkpoint
  verify-sign_checkpoint d v x t =
      let s : Value = str (K.hex (k.sign (K.checkpoint_json (checkpoint_body d)))) in
      let hash : Value = str (K.sha256_hex k.verify_key) in
      let marked = set_key "signature" s (checkpoint_body d) in
      let signed = set_key "signer_key_hash" hash marked in
      let there =
        get-set_key_ne "signature" "signer_key_hash" hash marked refl
        ∙ get-set_key_self "signature" s (checkpoint_body d) in
      (signed_lem signed d (body_lem d s hash) there v x t, body_lem d s hash, sign-body d s hash)
