-- ===== src/Villages/Apply/Applied.antt =====
-- links/villages.py: what apply_policy_update changes.
use policy_mesh.Prelude.Options.{chain-some}
use policy_mesh.Villages.Apply.{
  ApplyEvent, HistoryRow, append_policy_history, UpdateMeta, apply_policy_update, log_apply,
  record_apply, save_village, Node, PolicyModel, Room, load_village, set_at,
}
use policy_mesh.Prelude.{
  ◌∙◌, ap, [], true, ◌∷◌, false, none, refl, ◌++◌, List, eq_refl, if◌then◌else◌, sym, ◌==◌, Option,
  String, ◌≡◌, Bool, some,
}
use policy_mesh.Villages.{Village, VillagePolicy}
use policy_mesh.Json.{Value}
use policy_mesh.Villages.Name.{validate_village_id}
use policy_mesh.Transparency.{LogEntry}

-- Each village is kept under its own name.
unfoldable pub Homed : Node → Type 0
Homed n = (w : String) (v : Village) → (n.rooms w).village ≡ some v → v.village_id ≡ w

pub set_at-here {ℓ} : {A : Type ℓ} (id : String) (x : A) (f : String → A) → set_at id x f id ≡ x
unfolding set_at
set_at-here id x f = rw (eq_refl id) refl

pub set_at-other {ℓ} :
    {A : Type ℓ} (id : String) (x : A) (f : String → A) (w : String)
    → (w == id) ≡ false
    → set_at id x f w ≡ f w
unfolding set_at
set_at-other id x f w e = rw e refl

set_at_twice {ℓ} :
    {A : Type ℓ} (id : String) (x y : A) (f : String → A) (w : String)
    → (w == id) ≡ false
    → set_at id x (set_at id y f) w ≡ f w
set_at_twice id x y f w e = set_at-other id x (set_at id y f) w e ∙ set_at-other id y f w e

with_row : Room → HistoryRow → Room
with_row room row = record room { history = room.history ++ (row ∷ []) }

history-set_at :
    (id : String) (row : HistoryRow) (r : Room) (f : String → Room)
    → set_at id (with_row (set_at id r f id) row) (set_at id r f) id ≡ with_row r row
history-set_at id row r f =
    set_at-here id _ (set_at id r f) ∙ ap (λ room. with_row room row) (set_at-here id r f)

pub if_some {ℓ} :
    {A : Type ℓ} (b : Bool) (x : Option A) {v : A}
    → (if b then x else none) ≡ some v
    → (b ≡ true) × (x ≡ some v)
if_some true x h = (refl, h)
if_some false x h = cc

pub some-injective {ℓ} : {A : Type ℓ} {x y : A} → some x ≡ some y → x ≡ y
some-injective h = cc

pub loaded_lem :
    (n : Node) (id : String) (v : Village)
    → load_village n id ≡ some v
    → (n.rooms id).village ≡ some v
unfolding load_village
loaded_lem n id v h = (if_some (validate_village_id id) _ h).1

-- The directory of the village after the policy is applied, by the row of its history.
unfoldable pub with_policy : Room → Village → VillagePolicy → HistoryRow → Room
with_policy room v incoming row = record room {
  village = some (record v { policy = incoming });
  history = room.history ++ (row ∷ []);
}

unfoldable pub apply_row : VillagePolicy → UpdateMeta → HistoryRow
apply_row incoming meta = record {
  policy = incoming;
  policy_hash = meta.policy_hash;
  policy_update = meta.policy_update;
}

unfoldable pub apply_event :
    PolicyModel → String → VillagePolicy → Option String → UpdateMeta → ApplyEvent
apply_event M id incoming actor meta = record {
  village_id = id;
  actor = actor;
  reason = meta.policy_update;
  policy_hash = M.dump_hash incoming;
}

put_policy : Room → Village → VillagePolicy → Room
put_policy room v incoming = record room { village = some (record v { policy = incoming }) }

put_saved : Node → String → Village → VillagePolicy → Node
put_saved n id v incoming = record n {
  rooms = set_at id (put_policy (n.rooms id) v incoming) n.rooms;
}

module _ (M : PolicyModel) where
  log_apply_rooms :
      (append : Option (List LogEntry → String → String → Option String → List LogEntry)) (n : Node)
      (id h k : String)
      → ((log_apply M append n id h k).rooms ≡ n.rooms)
        × ((log_apply M append n id h k).audit ≡ n.audit)
  unfolding log_apply
  log_apply_rooms none n id h k = (refl, refl)
  log_apply_rooms (some append) n id h k = (refl, refl)

  recorded_rooms :
      (n : Node) (id : String) (incoming : VillagePolicy) (actor : Option String)
      (meta : UpdateMeta)
      → (record_apply M n id incoming actor meta).rooms
        ≡ set_at id (with_row (n.rooms id) (apply_row incoming meta)) n.rooms
  unfolding record_apply append_policy_history with_row apply_row
  recorded_rooms n id incoming actor meta =
      (log_apply_rooms M.log_entry _ id (M.dump_hash incoming) meta.policy_hash).0

  recorded_audit :
      (n : Node) (id : String) (incoming : VillagePolicy) (actor : Option String)
      (meta : UpdateMeta)
      → (record_apply M n id incoming actor meta).audit
        ≡ n.audit ++ (apply_event M id incoming actor meta ∷ [])
  unfolding record_apply append_policy_history apply_event
  recorded_audit n id incoming actor meta =
      (log_apply_rooms M.log_entry _ id (M.dump_hash incoming) meta.policy_hash).1

  -- What a successful call leaves.
  pub record Applied (n : Node) (id : String) (policy_obj : Value) (actor : Option String)
      (meta : UpdateMeta) (after : Node) : Type 0 where
    pub village : Village
    pub incoming : VillagePolicy
    pub loaded : load_village n id ≡ some village
    pub validated : M.validate policy_obj ≡ some incoming
    pub here : after.rooms id ≡ with_policy (n.rooms id) village incoming (apply_row incoming meta)
    pub elsewhere : (w : String) → (w == id) ≡ false → after.rooms w ≡ n.rooms w
    pub audited : after.audit ≡ n.audit ++ (apply_event M id incoming actor meta ∷ [])

  saved_lem :
      (n saved : Node) (id : String) (v : Village) (incoming : VillagePolicy)
      → v.village_id ≡ id
      → save_village n (record v { policy = incoming }) ≡ some saved
      → saved ≡ put_saved n id v incoming
  unfolding save_village put_saved put_policy
  saved_lem n saved id v incoming own h =
      rw (sym own) (sym (some-injective (if_some (validate_village_id v.village_id) _ h).1))

  recorded_lem :
      (n : Node) (id : String) (v : Village) (incoming : VillagePolicy) (actor : Option String)
      (meta : UpdateMeta) (policy_obj : Value)
      → load_village n id ≡ some v
      → M.validate policy_obj ≡ some incoming
      → Applied n id policy_obj actor meta
          (record_apply M (put_saved n id v incoming) id incoming actor meta)
  unfolding with_policy with_row put_policy put_saved
  recorded_lem n id v incoming actor meta policy_obj l i = record {
    village = v;
    incoming = incoming;
    loaded = l;
    validated = i;
    here =
        ap (λ f. f id) (recorded_rooms (put_saved n id v incoming) id incoming actor meta)
        ∙ history-set_at id (apply_row incoming meta) (put_policy (n.rooms id) v incoming) n.rooms;
    elsewhere = λ w e.
        ap (λ f. f w) (recorded_rooms (put_saved n id v incoming) id incoming actor meta)
        ∙ set_at_twice id _ _ n.rooms w e;
    audited = recorded_audit (put_saved n id v incoming) id incoming actor meta;
  }

  pub apply-Applied :
      (n : Node) (id : String) (policy_obj : Value) (actor : Option String) (meta : UpdateMeta)
      {after : Node}
      → Homed n
      → apply_policy_update M n id policy_obj actor meta ≡ some after
      → Applied n id policy_obj actor meta after
  unfolding apply_policy_update Homed
  apply-Applied n id policy_obj actor meta homed h =
      let (v, l, h1) = chain-some (load_village n id) _ h in
      let (incoming, i, h2) = chain-some (M.validate policy_obj) _ h1 in
      let (saved, s, h3) = chain-some (save_village n (record v { policy = incoming })) _ h2 in
      rw
        (
          sym (some-injective h3),
          saved_lem n saved id v incoming (homed id v (loaded_lem n id v l)) s,
        )
        (recorded_lem n id v incoming actor meta policy_obj l i)
