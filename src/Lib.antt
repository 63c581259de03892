-- ===== src/Lib.antt =====
-- A verification library of myc, a NIP-46 signer service: the durable state that it keeps in SQLite.
--
-- The program's parts. src/state_delivery.rs keeps the outbox of signed artifacts: a job has a policy
-- and up to 32 relay targets, a target has up to 32 attempts, and each of its functions is one
-- transaction on the tables that src/state_catalog.rs declares. src/delivery_worker.rs takes a ready
-- target, leases an attempt, asks the relay, and records what came of it. src/state_governance.rs counts
-- the attempts of clients in rate windows, one row for each subject, and keeps the log of what was
-- decided, one row for each correlation and kind. src/state_connection.rs keeps the connections of the
-- clients: a connect request is admitted under its client's policy, through the rate windows; an
-- operator approves it with some of the permissions that it requested, or denies it; and an active
-- connection expires or is revoked. A request on an active connection may be challenged, and the
-- challenge is authorized in time or expires. Each of these is an event of the audit log.
--
-- Which file models which part.
--   Common: Boolean tests, results, lists, 64-bit words, texts, sorting, rows by key, searches and relations.
--   Delivery/Types: the records, statuses and bounded newtypes of src/state_delivery.rs.
--   Delivery/Rows: what a read admits (`parse_attempt`, `parse_target`, `read_job_rows`), and the CHECKs
--     and triggers of the tables in src/state_catalog.rs.
--   Delivery/Statements: the form of an UPDATE under its trigger, and the reads by key.
--   Delivery/Policy, Delivery/Create: `MycDeliveryPolicies::new` and `create_job`.
--   Delivery/Claim, Delivery/Submit, Delivery/Resolve, Delivery/Finalize: `claim_target`,
--     `mark_submitted`, `record_outcome` with `recover_expired`, and `finalize_job_if_terminal`.
--   Delivery/Ready: `next_ready_delivery_target`.
--   Delivery/Invariant, Progress, Standing, Lifecycle, Outcome, Reading, Lifetime: the invariant of the
--     stored rows, the step relation of the calls, and what holds in every state they reach.
--   Delivery/Policy/Accepted, Create/Admission, Ready/Claims, Ready/Leases, Ready/Terms, Ready/First,
--     Resolve/Replay: the policy that is accepted, the admission, the query with its claim, and the replay of
--     an outcome.
--   Delivery/Retry: the retry schedule. Delivery/Worker: `run_with_adapter` of src/delivery_worker.rs,
--     proved in Worker/Jitter, Stored, Runs and Answers.
--   Governance/Rates: the rate windows of src/state_governance.rs, and the work of `govern_rate_attempt`
--     on its subjects. Rates/Windows and Rates/Subjects prove it.
--   Governance/Audit: the records and rows of the audit log, `decode_audit` and `record_audit`;
--     Audit/Sequences and Audit/Replay prove it. Audit/Attempts: `govern_rate_attempt` with its replay.
--   Connection/Permissions: `MycConnectionPermission` and its sets; Permissions/Codes and
--     Permissions/Sets prove them.
--   Connection/Types, Connection/Rows, Connection/Statements: the records of src/state_connection.rs, what
--     a read admits, the CHECKs and triggers of the tables in src/state_catalog.rs, and the statements.
--   Connection/Admit, Connection/Decide, Connection/Expire: `admit_connection`, `decide_connection`,
--     `expire_connection` and `apply_admin_connection_mutation`.
--   Connection/Challenges: the transactions `issue_challenge` and `authorize_challenge`, proved in
--     Challenges/Resolved and Challenges/Once. Challenges/Repository: the calls of the repository around
--     them, with the challenge policy of src/nip46_authorization.rs; Repository/Again proves it.
--   Connection/Moves, Connection/Effects: what a statement and a whole transaction do to the rows.
--   Connection/Lifecycle: the calls as steps, with Lifecycle/Onwards and Lifecycle/Grants.
--   Delivery/Tests, Governance/Tests, Connection/Tests: runs at concrete inputs.
--
-- How state and operations correspond. A transaction is a function from the rows to a result: on `err`
-- it is rolled back, so no row changes. The rows of a job are nested: a target's row holds its attempts.
-- An operation reads by the same functions that the source reads by, and each UPDATE passes its WHERE,
-- the trigger and the CHECKs, or the call fails. The tests of SQL are written with Booleans: the columns
-- that a trigger compares are the ones that a statement writes with a value, or that the CHECKs make
-- present. Times are native numbers with the range tests of the source, and the retry arithmetic keeps
-- its saturation and its 64-bit checks. Digests and ids are numbers.
--
-- A connection's row holds the codes of its `connection_permissions`, one list for each scope. The rows
-- of the audit log and of the connections are lists, newest first. A public key is a number.
--
-- Parameters. `Url::parse`, SHA-256 of the ids (`derive_job_id`, `derive_attempt_id`, `derive_audit_id`,
-- `derive_connection_id`, `derive_challenge_id`) and of a permission set, the rows of `nip46_requests`, the primary keys in use
-- elsewhere in the database, the relay adapter and the cancellation are arguments.
--
-- No fuel is used: the loops are over the lists of rows. A number has at most ten decimal digits, as a
-- `u32` has.
--
-- A run of the worker has no other caller between its transactions; the life cycle of a job allows any. The
-- life cycle of a connection has the transactions with no test of the configuration before them, so it
-- allows more calls than the repository; the updates of state_config.rs and state_completion.rs are no
-- part of it.
--
-- Not modelled: the SQL text and the decoding of single columns, the pages of the connections and the
-- audit log, the compaction, and the other parts of the program.
pub mod Common
pub mod Delivery
pub mod Governance
pub mod Connection
