-- ===== src/Lib.antt =====
-- Verification of the Ormas subnet SDK: the miner that claims, delivers and completes jobs of a
-- gateway, and the validator that reviews deliveries.
--
-- The parts, with the file that models each:
--
-- - Acceptance: ormas_subnet/public_acceptance.py. Policy.antt has the field checks and the policy
--   (validate_acceptance_policy, is_operator_run, acceptance_task_cell), Contract.antt the subjects
--   and the claim plan (validate_acceptance_contract). Dictionaries are the entries of a value.
-- - Workdir: ormas_subnet/_workdir.py (require_safe_component) and _assignment_id_or_none of
--   ormas_subnet/validator.py.
-- - Scope: the path tests of ormas_subnet/skeleton.py (_path_covered_by_allowed, _nul_git_paths,
--   the decision of _compute_scope), of ormas_subnet/validator.py (in _decide) and of
--   ormas_subnet/outcomes_support.py (_publication_path_covered, public_result_scope).
-- - Receipt: SolveResult and _build_receipt of ormas_subnet/skeleton.py, TaskReceipt of
--   ormas_subnet/protocol.py.
-- - Retry: the loops of ormas_subnet/skeleton.py against an unreliable gateway. Completion.antt is
--   _complete_with_retry, Heartbeat.antt is _heartbeat_loop, Backoff.antt is run_forever with
--   _claim_refusal_backoff_s.
-- - Validator: Decide.antt is _decide of ormas_subnet/validator.py. The calls that it makes are a
--   record of what each returns or raises, so that every outcome of git, of the toolchain and of
--   the verifier is covered; the review carries the calls in their order. Shapes has what an
--   assignment must look like: Shapes/Toolchain.antt is validate_toolchain_shape with the
--   requirement pattern as an automaton, Shapes/Execution.antt the execution contract,
--   canonical_evidence_fields and validate_assignment_execution. Protocol.antt has
--   _assignment_decision_protocol and decision_signature_message, Review.antt _preface and
--   _signature_message, Poll.antt run_once with _attest, _clone_with_retry and _sign_and_post. What
--   str makes of a value that is no text, json.dumps, SHA-256, the packet check of
--   ormas_subnet/outcomes_support.py, the key and the gateway are parameters.
-- - Intake: protected/worker/conformance/intake_check.py. Segment.antt is _segment_glob_match, the
--   scan with one point to go back to; Paths.antt has _normalize_repo_rel_path,
--   _validate_allowlist_pattern, _glob_path_match and _path_is_allowed.
-- - Localnet: ormas_subnet/localnet.py. Localnet.antt has the state of the gateway,
--   Localnet/Settlement.antt _derive_settlement and _handle_complete, Localnet/Requests.antt the
--   other handlers and post. A request is a step that leaves a gateway, also where it raises.
-- - Recovery: ormas_subnet/_recovery.py. Recovery.antt reads and saves a record, Journal.antt has
--   begin, checkpoint_artifact, freeze and acknowledge on what is on disk, Leases.antt sequences
--   of them, Turns.antt the machine that they refine, Replay.antt completion_for_wire. A file holds
--   the value that its text parses to, keys up to order; the encoding and the hash are parameters,
--   of which nothing is assumed.
-- - Offers: _validate_offers, _validate_window_offer and _validate_effort of
--   ormas_subnet/client.py.
-- - Window: the offer window of ormas_subnet/skeleton.py. Window.antt has the record of own bids
--   and _offer_state, Window/Programs.antt the steps that a claim is made of, with _save_offers as
--   an event where it replaces the record, whether it then raises or not, Window/Bids.antt
--   _read_bid and _offer_conflict, Window/Lease.antt _check_offer_lease, Window/Place.antt one job
--   of the queue and Window/Claim.antt _claim_offer_window. The gateway may answer each request as
--   it likes, by all that happened before. A file of the runner is there: without an identity the
--   source refuses before it reads.
-- - Wire: snapshot_evidence of ormas_subnet/protocol.py, on the Python values that it takes apart.
-- - Common: Python's values, numbers, texts and exceptions, and the chains of fallible steps.
--
-- How they interact: the scope tests decide in the validator's review, in the miner's scope check
-- and in its publication gate. The window checks its offers as the client does. The journal and the
-- validator take identities through the path component check. The local gateway answers what the
-- miner's loops send.
--
-- Numbers: an int is unbounded, a float is a dyadic rational, an infinity or nan. The loops on
-- time count ticks of one clock, of which the times that are configured are multiples, and do
-- without the rounding of a sum of floats. The backoff after refusals raises as the source does
-- where its power of two is no float. The completion loop is recursion on fuel, the ticks of the
-- lease and one more: each retry waits for at least one second, which takes a tick or more. The
-- other loops go through the list of what comes at each round. The glob scan is recursion on as
-- many rounds as the segment and the pattern can take, which is proved to be enough; the clone is
-- recursion on the attempts that are left.
--
-- Not modelled: HTTP, git, sandboxes, processes, file locks and the command lines, which are input
-- and output; the transfer objects of ormas_subnet/protocol.py, whose classes have conversions,
-- defaults and checks of their own; the hotkey challenge of ormas_subnet/client.py; the leased
-- run, the recovery of public work and the registration of ormas_subnet/skeleton.py; the command
-- line, the client and the toolchain commands of ormas_subnet/validator.py;
-- ormas_subnet/outcomes_support.py but its scope decision; ormas_subnet/verifier_runtime.py; and
-- protected/ but the paths of the intake.
pub mod Acceptance
pub mod Common
pub mod Intake
pub mod Localnet
pub mod Offers
pub mod Receipt
pub mod Recovery
pub mod Retry
pub mod Scope
pub mod Validator
pub mod Window
pub mod Wire
pub mod Workdir
