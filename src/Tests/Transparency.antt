-- ===== src/Tests/Transparency.antt =====
-- Tests of links/transparency.py.
use policy_mesh.Json.{no_entries}
use policy_mesh.Transparency.Binding.{checkpoint-Binding, no_entry, one_more, Collision, texts}
use policy_mesh.Prelude.{refl, none, [], length, ◌∷◌, ◌⊎◌, String, ℕ, ◌≡◌, List}
use policy_mesh.Transparency.{append_transparency_entry, LogEntry, UnsignedEntry}

abbrev toy_hash : List ℕ → String
toy_hash a = "h"

abbrev entry_text : UnsignedEntry → List ℕ
entry_text payload = payload.ts ∷ []

abbrev list_text : List String → List ℕ
list_text hs = length hs ∷ []

abbrev blank_sign : List ℕ → String
blank_sign a = ""

abbrev log : List LogEntry
log =
    append_transparency_entry toy_hash entry_text list_text blank_sign [] "ops" "p" none no_entries
      7

checkpoint-Binding_example :
    (texts toy_hash entry_text list_text blank_sign log
      ≡ texts toy_hash entry_text list_text blank_sign log)
    ⊎ Collision toy_hash
checkpoint-Binding_example =
    let a = one_more "ops" "p" none no_entries 7 no_entry in
    checkpoint-Binding toy_hash entry_text list_text blank_sign log log "ops" "ops" a a (λ _. refl)
      (λ h rest p. cc p) (λ _. refl) refl
