-- ===== src/Lib.antt =====
-- symnav navigates code by symbols: a command names a symbol, a backend of the language finds its
-- definition, references and calls, and a daemon keeps the backends warm for a workspace. This
-- library models the core's data and algorithms and the daemon's state machines, and proves what
-- they are relied on for.
--
-- Prelude: tests on the native numbers, results that may be errors, lists, strings as lists of UTF-16
--   code units, ordered maps and the stable sort, as JavaScript has them.
-- Core (packages/core/src):
--   Identity, Segment, Decimal: intermediate-representation/symbol-identity.ts, segment-grammar.ts and
--     canonical-identity.ts; `parse` and `format` are SegmentGrammar's, `format_symbol_identity` is
--     formatSymbolIdentity.
--   Target: target/symbol-target-pattern.ts; `parse` and `matches` are SymbolTargetGrammar's.
--   Overview, Diagnostic: intermediate-representation/overview-tree.ts and call-edge.ts, the types and
--     the walks of the tree; diagnostics/navigation-diagnostic.ts.
--   Traverser: graph/graph-traverser.ts; `traverse` and `extend` with the cache of edges. The recursion
--     is on the depth that is left, which is the depth minus the steps so far, so that no fuel is
--     chosen. The edges that a backend finds are a parameter.
--   Pagination: pagination/paginator.ts and validate-page-request.ts.
--   GraphResult: intermediate-representation/graph-result-builder.ts, over the pages and the paths.
--   Disambiguators: intermediate-representation/assign-disambiguators.ts.
--   Expander: overview/overview-expander.ts, on a tree of the overview.
--   Resolver: target/symbol-target-resolver.ts and symbol-target-request.ts. The workspace and the
--     backends are parameters; `choose`, of its module Choosing, follows the matching.
--   Backend: backend/revisioned-backend-state.ts. Building is buildIndex, Candidate the request and the
--     checks of a refresh, Refresh the refresh and the answers. The preparation (createPreparation) is a
--     parameter; a prepared file carries a number that stands for its reference, and theorems that need
--     it say that a reference has one content.
-- Daemon (packages/daemon/src):
--   Failures: daemon-execution-failure.ts. Admission: daemon-admission.ts.
--   Request: the requests (daemon-executor.ts, daemon-command-name.ts) and their fingerprint, with the
--     order of localeCompare and the digest as parameters.
--   Ledger: execution/accepted-request-ledger.ts, one function for each method; an error is a value, and
--     a call that throws leaves the ledger as it was. The sets of subscribers are shared objects.
--   Queue: execution/request-queue.ts as a machine: a step is a call from outside, or the return of
--     what the loop awaits. Promises are the events that a step gives.
--   Transfer: transport/result-transfer-receiver.ts over any capture of output, an interface; Capture is
--     DaemonClientResultCapture of transport/client-result-capture.ts, on a file system that is a
--     parameter; Stored is the DaemonStoredExecutorOutput that it leaves. Sessions states what a capture is
--     relied on for, which Captured proves of the client's.
--   Policy: daemon-policy.ts; the products with 0.8 and 0.7 are rounded to a double as the source's
--     are, on integers below 2^53. Codec is DaemonPolicyCodec, on values of JSON.
--   Supervisor: resources/resource-supervisor.ts as a machine; each callback of a promise is a step.
--   Lifetime: lifecycle/daemon-lifetime.ts with the timer that it sets. Inputs come with the time that
--     passed, so that the clock does not go back.
--   Routing: client/daemon-routing-policy.ts; the context writes down the calls of its operations.
--   Wire: transport/wire-codec.ts. Chunks is DaemonResultChunkCodec, Decoders has the one loop of both
--     decoders. JSON in UTF-8 and SHA-256 are a parameter.
-- The admission asks the ledger for its compatibility, the queue for its state and the supervisor for
-- its pause; an accepted request goes from the ledger to the queue, and its result comes to the
-- client through the transfer. The policy gives the supervisor its limits.
-- Scenarios: the theorems at concrete data.
--
-- Numbers are whole. Where the code prints and reads them, `Core.Decimal` rounds as doubles do.
--
-- Fuel: the `digits` of Core.Decimal have one more than the number, and each step divides by ten; its
-- `spacing` has the 971 bits that a double has above 53, and `shortest` the 308 tens; `unit_of` of
-- Daemon.Policy has 16 for the bits above 53, of which a limit of at most 8192 MiB has 13. The rounds
-- of `frames_of` are the bytes that are buffered, of which each round takes four or more; those of
-- `decode_records` are the bytes of the file, nine or more a round; those of `slices_from` are the
-- paths, of which each round passes one or more. `assign_to_depth` has the depth of the scopes.
--
-- Not modelled: files, sockets, processes and threads; the backends, which call the compilers of their
-- languages; the command line and the rendering of text. Still open are the trees of paths, the
-- activity projector, the generations of workers, the validator of the protocol and the telemetry's
-- aggregation.
pub mod Prelude
pub mod Core
pub mod Daemon
pub mod Scenarios
