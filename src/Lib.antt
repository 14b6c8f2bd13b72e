-- ===== src/Lib.antt =====
-- cpa-codex-turn-state-plugin: what its core logic does, and why that is right.
--
-- The plugin sits in a proxy for Codex. For each pair of a credential and a model it caches a turn
-- state, a Fernet token whose issue time and block count it reads without the key. A state enters the
-- cache as a seed of the configuration, from the state file, from the header of a successful response
-- or from a probe through a pool of proxies; it leaves in the header of a request. Failures of the
-- upstream queue an early refresh.
--
-- Parts, files and correspondence (paths from the root of the repository):
--   Base        shared names, Boolean tests, lists, signed integers, results, maps as association
--               lists. Text holds what the code takes from the package strings, Clock times in
--               nanoseconds since the year 1, Environment what comes from outside (files, variables,
--               random bytes, net/url, SHA-256).
--   Base64, Json  base64url and JSON as the code uses them, from the standard library of Go.
--   Fernet      fernet.go: parseTurnState.
--   Config      the types of plugin.go, probe.go and transport.go; Config.Probe is normalizeProbe and
--               Config.Endpoint is proxyEndpoint.resolve.
--   Policy      plugin.go: credentialFor, normalizeCredential, normalBlockCount, matchesModels.
--   Keys        plugin.go: stateKey, splitStateKey; management.go: accountDigest, entryHandle.
--   State       plugin.go: runtimeState. The fields of the record are those that the mutex protects.
--   History     management.go: appendHistoryLocked.
--   Refresh     refresh.go: nextRefreshLocked, queueRefreshLocked, failureRefreshReason;
--               Refresh.Event is streamFailureReason and Refresh.Stream is observeStreamFailure,
--               Refresh.Worker is refreshDue, Refresh.Loop is refreshLoop.
--   Request     plugin.go: interceptAfter (drop_previous, route, answer), captureCandidate, complete.
--   Probe       probe.go: ensureProbe (begin_probe, run_probe, finish_probe); Probe.Auth is
--               selectedProbeAuth, Probe.Query is the request of fetchProbe, Probe.Answer is
--               fetchProbe from the response on and probeCompleted.
--   Lifecycle   plugin.go: configure, setAccepting, shutdown; Lifecycle.Persisted is loadPersisted
--               and persistCurrent.
--   Persist     plugin.go: persistStates; Persist.Callers is persistCurrent with the ends of complete,
--               ensureProbe and clearAction.
--   System      the sections that hold the mutex as steps of one relation, System.Steps, with the
--               probes in flight as part of the state; what holds of every state it reaches.
--   Management  management.go: Selection, Clear (clearAction), Refresh (refreshAction), Routes
--               (handleManagement), Accounts (accountsByHash) and Status (statusPayload).
--   Transport   transport.go: Wire is a connection, Socks is socksConnect, Connect is tunnelProxy and
--               Chain is the dial of chainTransport.
--   Dispatch    plugin.go: handleMethod, interceptResponse, interceptStreamChunk; Dispatch.Stopped and
--               Dispatch.Quiet are about the calls of a plugin that was quiesced.
--   Envelope    plugin.go: okEnvelope, errorEnvelope.
--   Abi         main.go: cliproxy_plugin_init, cliproxyPluginCall, runtime.hostCall.
--   Tests       a configured plugin on concrete inputs, and the theorems there.
--
-- How parts interact: each handler is a function of the runtime state per section under the mutex. A
-- handler with several sections (interceptAfter, ensureProbe) is several steps, so that sections of
-- other handlers run in between. A probe carries a copy of its configuration and the generation from
-- its first section to its last; configure and shutdown begin a new generation.
--
-- Bounds and fuel. Machine integers of the configuration are unbounded signed integers; the counter
-- of the pool wraps at 2 ^ 64 and is read as a signed number, so that an index may be negative, which
-- is a panic; times and durations are natural numbers. The JSON reader runs on fuel
-- that grows with its input; Json.Pair and Json.Failed show that it is enough for every encoded pair
-- and for every error. The rounds
-- of a probe recurse on the number of offsets that are left, which is the size of the pool at first.
-- A Go map is a list in one of the orders of iteration.
--
-- A connection is the list of the bytes that the peer sends before it closes, with the number of
-- writes that still succeed; a header of CONNECT ends after 64 KiB at the latest, and the loop that
-- reads it recurses on the bytes.
--
-- The state file. A disk is the files by their paths; persistStates is a chain of calls of the operating
-- system, each of which may fail, and its run keeps every disk that it passes. Beside its content a
-- file has the one that a crash of the machine leaves, which Sync makes equal; names are changed at
-- once and in the order of the calls, as on a journalled file system. The operating system,
-- JSON and the memory of C are parameters, with what they answer as arguments.
--
-- Not modelled: the page of the panel and the registration of the plugin, which are fixed texts, the
-- YAML decoder, the decoders of the requests, the HTTP exchange of a probe between its request and its
-- answer, the timers, and the web panel. What these would hand to the operations is an argument.
pub mod Base
pub mod Text
pub mod Clock
pub mod Environment
pub mod Base64
pub mod Fernet
pub mod Config
pub mod Policy
pub mod Json
pub mod Keys
pub mod State
pub mod Refresh
pub mod History
pub mod Request
pub mod Probe
pub mod Lifecycle
pub mod Persist
pub mod Management
pub mod Transport
pub mod Dispatch
pub mod Envelope
pub mod Abi
pub mod System
pub mod Tests
