-- ===== src/Lib.antt =====
-- openai-auth: OAuth accounts for the Codex and ChatGPT back ends, pooled and routed for the
-- OpenCode and Pi hosts. This development models the program's own core logic: the evidence that
-- decides when a rate-limit mark of an account may be cleared, the routing of a request over the
-- pool of accounts, quota readings and their backoff, the redemption of reset credits, the frames
-- of the WebSocket, and the fence of the migration.
--
-- Prelude holds what the files share: Boolean tests on native numbers, equality by instance,
-- JavaScript's numbers with NaN and Infinity, lists, and JavaScript's Map as an association list
-- in insertion order (Prelude.JsMap).
--
-- Limits.Accounts: the account identity of packages/core/src/limit-identity.ts, and the types of a
-- limits envelope that the code reads.
-- Limits.Provenance: packages/core/src/limit-provenance.ts, the class LimitProvenanceStore.
-- Limits.Recovery: packages/core/src/limit-recovery.ts, the class LimitRecoveryLatch; its `adopt`
-- is in Limits.Recovery.Adoption.
-- Routing: packages/core/src/pool-routing.ts. Routing.Credits has the tier of accounts that serve
-- on prepaid credits, Routing.Ordered the plans of the ordered modes, and Routing.Sticky the
-- sessions that are pinned to a row.
-- Backoff: packages/core/src/backoff.ts, when a failed refresh or quota call may be tried again.
-- Pins: packages/core/src/pool-session-pins.ts and packages/opencode/src/v2/pins.ts, the accounts
-- that sessions are pinned to.
-- Frames: packages/opencode/src/raw-ws-node.ts. Frames and Frames.Parsing read frames into events,
-- Frames.Handshake and Frames.Upgrade (with raw-ws-upgrade.ts) are the answer to the upgrade,
-- Frames.Writing is writeFrame, and Frames.Closing has send, close and the loss of the connection.
-- Balance: packages/opencode/src/core/sticky-routing.ts, and what it uses of sidebar-state.ts: when
-- a session leaves its account, and the account with the best weight.
-- Reset: packages/core/src/reset-credits.ts, the redemption of a reset credit. Reset has the saved
-- pair, Reset.Writes the locked writes, Reset.Answers and Reset.History sequences of them, and
-- Reset.Redemption a whole run, with what other processes write between its steps.
-- Fence: packages/opencode/src/core/version-fence.ts. Fence.Versions has the versions, and
-- Fence.Migration and Fence.Looking the records and the walk that decides whether accounts may migrate.
-- Limits.Policy: packages/core/src/limit-policy.ts, exhausted windows, response bodies and holds, and in
-- Limits.Policy.Marks packages/core/src/limit-mark.ts, the marks with their provenance.
-- Limits.Refusal: packages/core/src/quota-refusal.ts, what is known of the next reset once every
-- account is blocked.
-- Source: packages/core/src/pool-source-state.ts, quota observations that wait for their write, and
-- the backoff of token refreshes.
-- Quota: packages/core/src/quota-manager.ts. Quota has snapshots and reset times, Quota.Manager the
-- caches and marks, Quota.Refresh a refresh and its backoff, and Quota.Seeds what storage gives.
--
-- A method of a class is a function from the object's state, a record, to its result and the new
-- state. An id that the code makes with JSON.stringify is the tuple it encodes. The routing and
-- limits libraries of @cortexkit/common-auth are not in the repository: their functions are the
-- fields of the record RoutingLibrary, which is a parameter, and the types that they share with
-- the code are declared beside the code that uses them. Times are milliseconds as natural
-- numbers, or JsNumber where the code tests Number.isFinite. Most loops of the modelled code run
-- over a finite collection. Two run on fuel: the reader of frames has the length of its buffer,
-- and every frame takes two bytes at least, so more fuel changes nothing; and the eviction of
-- pins has the number of pins, each step forgets one, and the bound on the ledger shows that the
-- loop ends.
--
-- Not modelled, and left for extensions: the registry of limits, quota normalisation, the sidebar
-- file, pool requests, vault routing, the WebSocket pool, cache keeping, and commands.
--
-- Not modelled, as no logic of the program: network and file input and output, promises and
-- timers, logging text, and the user interface.
pub mod Prelude
pub mod Backoff
pub mod Balance
pub mod Fence
pub mod Frames
pub mod Limits
pub mod Pins
pub mod Quota
pub mod Reset
pub mod Routing
pub mod Source
