-- ===== src/Tests/Server.antt =====
-- Tests of the handler of POST /villages/{village_id}/policy in links/server.py.
use policy_mesh.Server.Update.Granted.{Granted}
use policy_mesh.Server.Token.{bearer_token}
use policy_mesh.Villages.Members.{authorize, is_token_revoked, find_row}
use policy_mesh.Prelude.{All, List, contains}
use policy_mesh.Villages.{role_can}
use policy_mesh.Server.Update.{update_of, store_policy_update}
use policy_mesh.Feed.Policy.{signer_allowed}
use policy_mesh.Villages.Apply.{apply_policy_update}
use policy_mesh.Villages.Apply.Applied.{some-injective}
use policy_mesh.Tests.Samples.{toy, update_at}
use policy_mesh.Update.{VillagePolicyUpdate}
use policy_mesh.Json.{no_entries, Entries}
use policy_mesh.Villages.Apply.Applied.{Homed}
use policy_mesh.Prelude.{
  eq_iff, ap, sym, Bool, refl, ◌∙◌, false, ◌==◌, ◌∷◌, Option, [], if◌then◌else◌, none, some, true,
  ◌⊎◌, String, ◌≡◌,
}
use policy_mesh.Server.Update.Stored.{policy_update-Installed, Installed}
use policy_mesh.Villages.Apply.{Node, PolicyModel, Room}
use policy_mesh.Villages.{Village, VillageCapabilities, VillagePolicy}
use policy_mesh.Server.Update.{Request, policy_update, Reply, stored}
use policy_mesh.Server.Update.Rooms.{policy_update-May, May}
use policy_mesh.Prelude.Int.{pos}
use policy_mesh.Server.Reads.After.{policy_update-Finds, Finds}
use policy_mesh.Server.Reads.{policy_latest, policy_update_by_hash}
use policy_mesh.Feed.Order.{le_key}

abbrev caps : VillageCapabilities
caps = record { can_pull = true; can_push = true; can_manage = true }

abbrev rules : VillagePolicy
rules = record {
  visibility = "village";
  allowed_predicates = [];
  quarantine_external_bundles = false;
  quarantine_review_min_approvals = pos 1;
  max_window_days = pos 30;
  min_signature_alg = "Ed25519";
  allow_unverified = false;
  retention_days = pos 90;
  rate_limit_per_min = pos 60;
  rate_limit_strategy = "fixed_window";
  submission_quota_per_day = pos 0;
  public_policy_endpoint = false;
  policy_update_expires_minutes = pos 0;
  issuer_allowlist = [];
  issuer_blocklist = [];
  issuer_id_allowlist = [];
  issuer_id_blocklist = [];
  require_policy_signature = false;
  policy_signer_allowlist = [];
  policy_signature_threshold_m = pos 1;
  policy_quorum = no_entries;
  policy_signer_weights = no_entries;
  policy_signer_roles = [];
  trusted_manifest_signer_allowlist = [];
  require_manifest_signature = false;
  require_trusted_manifest_signer = false;
  require_quorum_metadata = false;
  require_issuer_allowlist = false;
  capabilities = ("admin", caps) ∷ [];
}

abbrev green : Village
green = record {
  village_id = "green";
  name = "Green";
  description = "";
  created_at = 0;
  governance = record { admins = []; decision_model = "admin-consensus" };
  policy = rules;
}

abbrev room : Room
room = record {
  village = some green;
  directory = record {
    has_village = true;
    members =
        record { member_id = "ann"; role = "admin"; token_hash = "k"; is_revoked = false } ∷ [];
    revocations = [];
    audit = [];
  };
  updates = [];
  history = [];
}

abbrev no_room : Room
no_room = record {
  village = none;
  directory = record { has_village = false; members = []; revocations = []; audit = [] };
  updates = [];
  history = [];
}

-- The village "green", of which Ann is an admin, and no other.
abbrev node : Node
node = record { rooms = λ w. if w == "green" then room else no_room; audit = []; logs = λ w. [] }

abbrev model : PolicyModel
model = record {
  validate = λ v. some rules;
  dump = λ p. no_entries;
  dump_hash = λ p. "d";
  log_entry = none;
}

-- An update of another village, which was rolled back.
abbrev foreign : VillagePolicyUpdate
foreign = record (update_at "p" none 1) { village_id = "blue"; lifecycle_state = "rolled_back" }

abbrev read : Entries → Option VillagePolicyUpdate
read body = some foreign

abbrev token_hash : String → String
token_hash t = if t == "secret" then "k" else "other"

abbrev request : Request
request = record {
  village_id = "green";
  body = no_entries;
  authorization = some "Bearer  secret ";
  now = 5;
}

abbrev answer : Node × Reply
answer = policy_update token_hash toy model read node request

one_village :
    (b : Bool) (v : Village)
    → (if b then room else no_room).village ≡ some v
    → (b ≡ true) × (v.village_id ≡ "green")
one_village true v e = (refl, ap (λ x. x.village_id) (sym (some-injective e)))
one_village false v e = cc

node-Homed : Homed node
unfolding Homed
node-Homed w v e =
    let (k, own) = one_village (w == "green") v e in own ∙ sym ((eq_iff w "green").0 k)

-- The update is stored in the feed of the other village, and applied to the village of the request,
-- although it was rolled back.
foreign_stored : answer.1 ≡ stored "p" × ((answer.0.rooms "blue").updates ≡ foreign ∷ [])
unfolding policy_update bearer_token authorize is_token_revoked contains find_row role_can update_of
    signer_allowed store_policy_update apply_policy_update
foreign_stored = (refl, refl)

policy_update-May_example :
    ((answer.0.rooms "blue") ≡ node.rooms "blue")
    ⊎ May token_hash toy model read node request "blue" (answer.0.rooms "blue")
policy_update-May_example =
    policy_update-May token_hash toy model read node request "blue" node-Homed

policy_update-Installed_example : Installed token_hash toy model read node request "p" answer.0
unfolding policy_update bearer_token authorize is_token_revoked contains find_row role_can update_of
    signer_allowed store_policy_update apply_policy_update
policy_update-Installed_example =
    policy_update-Installed token_hash toy model read node request answer.0 "p" node-Homed refl

-- The directory lists the files as they are kept.
abbrev listing : List VillagePolicyUpdate → List VillagePolicyUpdate
listing us = us

listing-All :
    (P : VillagePolicyUpdate → Type 0) (us : List VillagePolicyUpdate)
    → All P (listing us)
    → All P us
listing-All P us a = a

policy_update-Finds_example :
    (g : Granted token_hash toy model read node request) × Finds listing listing-All
      (λ v. v.policy_hash ≡ "p")
      (policy_update_by_hash listing answer.0 g.update.village_id "p")
    × Finds listing listing-All
        (λ v. le_key g.update v ≡ true)
        (policy_latest listing answer.0 g.update.village_id)
unfolding policy_update bearer_token authorize is_token_revoked contains find_row role_can update_of
    signer_allowed store_policy_update apply_policy_update
policy_update-Finds_example =
    policy_update-Finds listing listing-All token_hash toy model read node request answer.0 "p"
      node-Homed refl
