-- ===== src/Lib.antt =====
-- Verification of the kya-os MCP library: delegation of authority, its revocation, replay
-- protection, status lists, policy decisions, the audit log's Merkle tree and the in-memory
-- stores.
--
-- The parts and how they interact. A tool call presents a delegation credential.
-- `validateDelegationChain` (src/delegation/chain-enforcement.ts) resolves its ancestors, has each
-- verified, and compares authority link by link with the scope matchers
-- (src/delegation/scope-matcher.ts); it asks a revocation checker, whose reference implementation
-- (src/delegation/cascading-revocation.ts) walks the delegation graph
-- (src/delegation/delegation-graph.ts over src/delegation/storage/memory-graph-storage.ts) and
-- reads status lists. A proof's nonce is admitted through a replay store (src/providers/memory.ts,
-- src/card/proof/nonce-cache.ts, src/providers/nonce-admission.ts). The policy engine (src/policy)
-- decides dangerous actions by a quorum of approvals. The status lists that revocation writes are
-- kept by src/delegation/statuslist-manager.ts over src/delegation/bitstring.ts,
-- src/utils/statuslist-bits.ts and src/delegation/storage/memory-statuslist-storage.ts. Audit
-- entries are the leaves of a Merkle tree (src/audit/merkle.ts), whose proofs a reader verifies; a
-- source claims its events' sequences (src/audit/providers/source-state.ts), and the entries are
-- appended to a journal under their expected heads (src/audit/providers/memory-journal.ts); an
-- outbox (src/audit/providers/outbox.ts) keeps submissions until they are delivered. An Entity
-- Card carries a delegation chain of its own profile (src/card/delegation.ts over
-- src/card/revocation.ts). A call that is repeated without its delegation is authorized from the
-- grant store (src/middleware/with-kya-os.grants.ts over src/delegation/holder-binding.ts and
-- src/providers/grant-store.ts). Approved grants, pending authorization flows, sessions and cached
-- results live in in-memory stores; revocation statuses are cached for a declared time
-- (src/delegation/status-cache.ts).
--
-- The files. Common holds what all share: Boolean tests, equality as an interface, lists as
-- JavaScript arrays and sets, results, and `Map` as an association list in insertion order
-- (Common/Map). Text holds strings whose code units the program reads. Delegation/Scope models
-- scope-matcher.ts, Delegation/Authority `scopeAuthority`, `scopeSatisfies` and
-- `validateScopeAttenuation`, Delegation/Credential the credential's fields with
-- audience-validator.ts and `credentialIssuerDid`, Delegation/Chain `validateDelegationChain`,
-- each check a function named for it and composed in the order of the code in a monad whose
-- outcomes are a result, a rejection with its reason, and a thrown error. Delegation/Graph models
-- the graph and its store as one map, each call from a graph to a graph or an error.
-- Delegation/StatusEntry reads a node's status list entry, and Delegation/Revocation models the
-- revocation manager over an interface `StatusLists` of what it calls; a call returns the world it
-- leaves even where it throws. Delegation/StatusCache is status-cache.ts. Replay/Provider and
-- Replay/Card are the two nonce caches, Replay/Admission `admitNonce` and `nonceRetentionSeconds`.
-- Policy/Approval is approval.ts, Policy/Engine default-engine.ts. StatusLists/Bits is
-- bitstring.ts, StatusLists/Payload the encoding of a list, StatusLists/Storage the storage with
-- its versions and counters, and StatusLists/Manager the manager, which fills the interface that
-- Revocation uses. Audit/Digests reads the bytes of a digest, Audit/Merkle has the tree with its
-- inclusion proofs, Audit/Consistency the consistency proofs; Audit/Merkle/Directions and
-- Audit/Merkle/Climb relate the loops of the two verifications to the tree's splits. Session is
-- the session manager over its default stores. Stores has the session store, the TTL cache, the
-- pending flow store and the grant store. Audit/SourceState is source-state.ts with its calls as
-- sequences of steps, Audit/Journal memory-journal.ts, Audit/Outbox outbox.ts. Card/Json and
-- Card/Decimal have the structural equality and the decimals of card/delegation.ts, Card/Caveats
-- its caveats, Card/Delegation its chains, and Card/Revocation the walk over the statuses.
-- Middleware/HolderBinding is the holder-of-key check, Middleware/Grants `createGrantResolution`.
-- The Tests modules hold concrete inputs.
--
-- Correspondence. A function keeps its name in snake case and an object its fields; state that a
-- method changes is an argument and a result. The clock is an argument, in milliseconds; times and
-- sizes are natural numbers, and a subtraction that would be negative in the code is compared so
-- that stopping at 0 changes nothing. A JavaScript number in a lifetime or a limit is a whole
-- number here.
--
-- Fuel. The loop that strips slashes has the length of the pattern, the chain walk one round more
-- than the graph has nodes, the descendant search two rounds more than the graph has child links;
-- each round of the walk visits another stored node, each round of the search takes one id of the
-- queue, which only unvisited nodes' children extend. The Merkle tree's recursions have the number
-- of leaves, since both parts of a split are smaller; its halving loops have the node's own
-- number.
--
-- Parameters. The test of a regular expression, the per-credential verifier, the chain resolver,
-- `Date.parse`, the signature check of an approval, the status list manager where revocation calls
-- it, the audit hasher, the compression and base64url calls, canonical JSON, the signing function,
-- the status resolver, the check of a grant's delegation, the proof verifier, the key that a
-- did:key DID encodes, the hash of a grant's key, `JSON.parse` and `JSON.stringify` are arguments.
-- Calls may fail where the real ones reject.
--
-- Not modelled: signatures, DIDs and JSON canonicalisation, the allocation of status list entries
-- by the manager, the session manager's random ids and client information, the default revocation
-- checker of Entity Cards, whose list is fetched, the audit services, HTTP flows, integrations,
-- and the gates of the middleware that wire the parts to the MCP SDK. Log lines, event times, the
-- revocation hook and the texts of errors are left out.
pub mod Audit
pub mod Common
pub mod Text
pub mod Delegation
pub mod Replay
pub mod StatusLists
pub mod Session
pub mod Stores
pub mod Policy
pub mod Card
pub mod Middleware
