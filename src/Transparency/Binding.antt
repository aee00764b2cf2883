-- ===== src/Transparency/Binding.antt =====
-- What the hash of a checkpoint says of the log.
-- Two texts with one hash.
use policy_mesh.Prelude.{
  ap, ◌∙◌, sym, inr, refl, Option, inl, true, ◌∷◌, All, [], map, truthy, ◌++◌, ◌⊎◌, ◌≡◌, ◌≢◌,
  String, ℕ, List,
}
use policy_mesh.Transparency.{
  build_transparency_checkpoint, checkpoint_hash_of, LogEntry, append_transparency_entry, non_empty,
  UnsignedEntry,
}
use policy_mesh.Admission.Receipt.Laws.{codes_discrete}
use policy_mesh.Json.{Entries}

abbrev pub Collision : (List ℕ → String) → Type 0
Collision sha256_hex = (a b : List ℕ) × (a ≢ b) × (sha256_hex a ≡ sha256_hex b)

module _ (sha256_hex : List ℕ → String) (entry_json : UnsignedEntry → List ℕ)
    (hashes_json : List String → List ℕ) (sign : List ℕ → String) where
  -- The log comes from appending entries to an empty one.
  pub data Appended : List LogEntry → Type 0 where
    no_entry : Appended []
    one_more :
        {log : List LogEntry} (village_id policy_hash : String) (update_hash : Option String)
        (meta : Entries) (now : ℕ)
        → Appended log
        → Appended (
            append_transparency_entry sha256_hex entry_json hashes_json sign log village_id
              policy_hash update_hash meta now)

  abbrev pub texts : List LogEntry → List (List ℕ)
  texts = map (λ e. entry_json e.payload)

  Hashed : List LogEntry → Type 0
  Hashed = All (λ e. e.entry_hash ≡ sha256_hex (entry_json e.payload))

  snoc-Hashed :
      (log : List LogEntry) (e : LogEntry)
      → Hashed log
      → e.entry_hash ≡ sha256_hex (entry_json e.payload)
      → Hashed (log ++ (e ∷ []))
  unfolding Hashed
  snoc-Hashed [] e h w = (w, tt)
  snoc-Hashed (x ∷ log) e h w = (h.0, snoc-Hashed log e h.1 w)

  Appended-Hashed : {log : List LogEntry} → Appended log → Hashed log
  unfolding Hashed append_transparency_entry
  Appended-Hashed no_entry = tt
  Appended-Hashed (one_more {log = log} v p u m t a) = snoc-Hashed log _ (Appended-Hashed a) refl

  non_empty-Hashed :
      ((a : List ℕ) → truthy (sha256_hex a) ≡ true)
      → (log : List LogEntry) → Hashed log
      → non_empty (map (λ e. e.entry_hash) log) ≡ map (λ e. e.entry_hash) log
  unfolding Hashed non_empty
  non_empty-Hashed full [] h = refl
  non_empty-Hashed full (e ∷ log) h =
      rw (h.0, full (entry_json e.payload), non_empty-Hashed full log h.1) refl

  hash_apart : (a b : List ℕ) → sha256_hex a ≡ sha256_hex b → (a ≡ b) ⊎ Collision sha256_hex
  hash_apart a b e = elim (codes_discrete a b) [ yes p ↦ inl p | no p ↦ inr (a, b, p, e) ]

  texts-Bound :
      (xs ys : List LogEntry)
      → Hashed xs
      → Hashed ys
      → map (λ e. e.entry_hash) xs ≡ map (λ e. e.entry_hash) ys
      → (texts xs ≡ texts ys) ⊎ Collision sha256_hex
  unfolding Hashed
  texts-Bound [] [] h k e = inl refl
  texts-Bound [] (y ∷ ys) h k e = cc
  texts-Bound (x ∷ xs) [] h k e = cc
  texts-Bound (x ∷ xs) (y ∷ ys) h k e =
      let first : x.entry_hash ≡ y.entry_hash = cc e in
      let rest : map (λ z. z.entry_hash) xs ≡ map (λ z. z.entry_hash) ys = cc e in
      elim (hash_apart (entry_json x.payload) (entry_json y.payload) (sym h.0 ∙ first ∙ k.0)) [
        | inl p ↦ elim (texts-Bound xs ys h.1 k.1 rest) [
          | inl q ↦ inl (ap (λ z. z ∷ texts xs) p ∙ ap (λ zs. entry_json y.payload ∷ zs) q)
          | inr c ↦ inr c
        ]
        | inr c ↦ inr c
      ]

  hashes-Bound :
      (hs ks : List String)
      → ((h : String) (rest : List String) → hashes_json (h ∷ rest) ≢ [])
      → (hashes_json hs ≡ hashes_json ks → hs ≡ ks)
      → checkpoint_hash_of sha256_hex entry_json hashes_json hs
        ≡ checkpoint_hash_of sha256_hex entry_json hashes_json ks
      → (hs ≡ ks) ⊎ Collision sha256_hex
  unfolding checkpoint_hash_of
  hashes-Bound [] [] full apart e = inl refl
  hashes-Bound [] (k ∷ ks) full apart e = inr ([], hashes_json (k ∷ ks), λ p. full k ks (sym p), e)
  hashes-Bound (h ∷ hs) [] full apart e = inr (hashes_json (h ∷ hs), [], full h hs, e)
  hashes-Bound (h ∷ hs) (k ∷ ks) full apart e =
      elim (hash_apart (hashes_json (h ∷ hs)) (hashes_json (k ∷ ks)) e) [
        | inl p ↦ inl (apart p)
        | inr c ↦ inr c
      ]

  -- Two logs that were made by appending entries and have one checkpoint hash have the same texts in
  -- the same order, or two texts with one hash can be given. Hashes are not empty, the text of a list
  -- that is not empty is not empty, and the lists of the entries' hashes have one text only where
  -- they are one list.
  pub checkpoint-Binding :
      (xs ys : List LogEntry) (v w : String)
      → Appended xs
      → Appended ys
      → ((a : List ℕ) → truthy (sha256_hex a) ≡ true)
      → ((h : String) (rest : List String) → hashes_json (h ∷ rest) ≢ [])
      → (hashes_json (map (λ e. e.entry_hash) xs) ≡ hashes_json (map (λ e. e.entry_hash) ys)
          → map (λ e. e.entry_hash) xs ≡ map (λ e. e.entry_hash) ys)
      → (build_transparency_checkpoint sha256_hex entry_json hashes_json xs v).checkpoint_hash
        ≡ (build_transparency_checkpoint sha256_hex entry_json hashes_json ys w).checkpoint_hash
      → (texts xs ≡ texts ys) ⊎ Collision sha256_hex
  unfolding build_transparency_checkpoint
  checkpoint-Binding xs ys v w a b full filled apart e =
      let h = Appended-Hashed a in
      let k = Appended-Hashed b in
      let same =
        ap (checkpoint_hash_of sha256_hex entry_json hashes_json) (sym (non_empty-Hashed full xs h))
        ∙ e
        ∙ ap (checkpoint_hash_of sha256_hex entry_json hashes_json) (non_empty-Hashed full ys k) in
      elim (hashes-Bound (map (λ z. z.entry_hash) xs) (map (λ z. z.entry_hash) ys) filled apart
        same) [ inl p ↦ texts-Bound xs ys h k p | inr c ↦ inr c ]
