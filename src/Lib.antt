-- ===== src/Lib.antt =====
-- PolicyMesh: villages share policies, sign updates of them, and compare what they have published.
--
-- The parts modelled here, each with the Python module that it stands for:
--   Drift          links/drift_classes.py: classify_checkpoint_drift, drift_severity, most_severe.
--   Drift.Compare  links/checkpoint_exchange.py: compare_checkpoints, over the keys that it reads.
--   Drift.Signed   links/checkpoint_exchange.py: sign_checkpoint and verify_checkpoint_signature.
--   Json           the values that json.loads gives, for policies, requests and
--                  manifests; Json.Read how the code reads them, Json.Compare how Python compares
--                  them, Json.Dict the changes of a dict.
--   Update         links/policy_updates.py: VillagePolicyUpdate, its hashes, _verify_one and
--                  verify_update_any; Update.Signing build_update and add_signature, Update.Quorum,
--                  Update.Weighted and Update.Roles the three checks of a quorum.
--   Feed           links/policy_feed.py: Feed.Order the order of list_policy_updates, Feed.Page
--                  filter_updates_since and paginate_updates, Feed.Gaps fill_history_gaps,
--                  Feed.Merkle _merkle_root, Feed.Policy evaluate_policy_quorum, Feed.Manifest the
--                  manifest of a feed and verify_manifest_against_policy.
--   Action         links/action_decisions.py: the rules of an action policy and their evaluation;
--                  Action.Receipt evaluate_action and verify_action_receipt.
--   Capability     links/capability_manifest.py: build_manifest, verify_manifest_hash and
--                  check_compatibility.
--   Norms          links/norms.py: compile_norm_set; Norms.Rules what a rule sets, Norms.Base the
--                  policy of a new village, Norms.Diff diff_norm_sets.
--   Pull           links/cli.py: policy_pull, from the fetched updates to the decision.
--   Lifecycle      links/policy_lifecycle.py: validate_transition, transition_update and
--                  find_policy_in_history, over the updates of Update.
--   Admission      links/decision_receipts.py: evaluate_policy_update; Admission.Receipt the receipt,
--                  its identifier, sign_receipt and verify_receipt.
--   Villages       links/villages.py: VillagePolicy and role_can; Villages.Members the tokens of the
--                  members, Villages.Issuers the issuers, Villages.Bundles
--                  enforce_policy_on_bundle, Villages.Apply apply_policy_update over the directories
--                  of all villages, Villages.Name the names (links/validate.py).
--   Server         links/server.py: Server.RateLimit the middleware that limits requests, Server.Update
--                  POST /villages/{village_id}/policy and store_policy_update of
--                  links/policy_feed.py, Server.Token the token of a request, Server.Reads
--                  the routes that read the feed.
--   Claims         links/claims.py: bundles of claims, sign_bundle and verify_bundle; Claims.Store
--                  links/store.py, Claims.Quarantine links/quarantine.py.
--   PolicyDiff     links/policy_diff.py: diff_policies.
--   Reconcile      links/reconcile.py: reconcile; Reconcile.Forks detect_forks, Reconcile.Report the
--                  status, the selection and the heads, Reconcile.Counts the counts.
--   TrustAnchors   links/trust_anchors.py: the entries and latest_active_anchor; TrustAnchors.Signed
--                  add_anchor_signature and verify_anchor_entry_any.
--   Transparency   links/transparency.py: append_transparency_entry, build_transparency_checkpoint.
--   CryptoPolicy   links/crypto_policy.py: CryptographicPolicy with state_for and permits.
-- Prelude holds what they share, and Tests the samples, the runs and the theorems at concrete
-- inputs. A module's children prove what it computes.
--
-- How the code is read. Times are instants (natural numbers from one origin), since the code compares
-- aware datetimes only. A text is a String; `lower` folds the letters of ASCII alone, which is all
-- that the names it is used on have. A dict is an association list in the order of insertion, a set a
-- list without repetition. JSON numbers are integers: no fraction is modelled. An f-string of a
-- message is a constructor with the values that it interpolates. hashlib, base64, PyNaCl and the
-- serialisation by pydantic and json are parameters (the records Crypto and Canonical, or single
-- functions such as sha256);
-- where Python raises, the model returns `raise`, or `refused` in Norms, `raised` in Server.Update and
-- nothing in Villages.Apply. The clock's values are left out of the reports, or are arguments.
--
-- Fuel. The loop of fill_history_gaps gets as much fuel as there are hashes pending and fetches left;
-- the loop of _merkle_root gets the number of items, and each round halves the layer. That the fuel
-- is enough is proved (Feed.Gaps.Complete, and length-reduce in Feed.Merkle.Binding).
--
-- Not modelled: the file system, the routing of HTTP and the other routes of links/server.py, the
-- commands other than policy_pull, the SQLite backend, and the parts that the manifest lists as not
-- modelled.
pub mod Prelude
pub mod Drift
pub mod Json
pub mod Update
pub mod Feed
pub mod Lifecycle
pub mod Admission
pub mod Villages
pub mod Reconcile
pub mod TrustAnchors
pub mod Transparency
pub mod CryptoPolicy
pub mod Pull
pub mod Server
pub mod Claims
pub mod PolicyDiff
pub mod Action
pub mod Norms
pub mod Capability
mod Tests
