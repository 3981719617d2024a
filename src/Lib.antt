-- ===== src/Lib.antt =====
-- Verification of the Python services of FraudNet: events of the telco network (voice, SMS, DNS and
-- IPDR, mobile money) come on Kafka topics, features and graph mutations are made from them, brains
-- raise signals, and the decisions service turns a signal or a motif into a decision for an actuator.
--
-- What the files model, with the source's names:
-- - Prelude: shared names, the lists, dictionaries, sets and texts of Python that the sources use.
-- - Domain/Labels: the two ways of matching a domain against a set of parent domains, by the labels
--   (`_is_suspicious` of services/stream-features/src/stream_features/pipeline.py) and by the ending
--   (`_is_allow_listed` of services/url-intel/src/url_intel/blocklist.py).
-- - Schemas: the models of packages/schemas/src/fraudnet/schemas (events.py, signals.py, types.py).
-- - StreamFeatures: services/stream-features/src/stream_features/pipeline.py. State holds
--   `_NumberState`, `_WalletState`, the pruning and the features; Feed the handlers `feed_voice`,
--   `feed_sms`, `feed_data` and `feed_momo`; Run a sequence of events. The features are the records of
--   packages/feature-client/src/fraudnet/features/snapshot.py.
-- - StreamGraph: services/stream-graph/src/stream_graph/pipeline.py (Translate), runner.py (Runner),
--   and the buffered writer of packages/graph-client/src/fraudnet/graph/batch_writer.py (Writer).
-- - OtpGuard: services/brain-otp-guard/src/brain_otp_guard (detector.py, registry.py, runner.py).
-- - UrlIntel: services/url-intel/src/url_intel/blocklist.py.
-- - Decisions: services/decisions/src/decisions: policy.py (Policy), suppression.py (Suppression),
--   dispatcher.py (Dispatcher), runner.py (Runner) and hot_reload.py (HotReload).
-- - ActionTier1: services/action-tier1/src/action_tier1/actuators.py; OtpHold follows a signal of
--   services/decisions into an actuator.
-- - Federation: packages/federation/src/fraudnet/federation/merge.py.
-- - Kafka: the consumer of packages/kafka-client/src/fraudnet/kafka (consumer.py, dlq.py), with the
--   exceptions that leave it: a run stops there.
-- - BrainGraph: services/brain-graph/src/brain_graph. Subgraph holds the nodes and edges of subgraph.py
--   and the indices of motifs.py, Rows the reading of query rows; Motifs the motifs of calls, texts, payments and queries, Chains
--   `detect_mule_chains` with its depth-first search, Devices those of devices and of bursts. The
--   search takes one more than the largest length as fuel, since a path grows by one with each call.
-- - BusinessRegistry: services/business-registry/src/business_registry/registry.py. InMemory is
--   `InMemoryRegistry`, Cache `RedisCache`, Cached `Registry`, with its SQL statements as operations on
--   the tables of services/business-registry/migrations/0001_initial.sql, one after another; the text
--   of a business id stands for its UUID.
-- - AgentFraud: services/brain-agent-fraud/src/brain_agent_fraud. State is the store of state.py,
--   Detectors holds commission farming, split transactions, phantom customers and collusion of
--   detectors.py, with scores in hundredths; the rounded quotient of phantoms is a parameter.
-- - Watchlist: services/aml-watchlist/src/aml_watchlist/matching.py. Similarity holds Jaro and
--   Jaro-Winkler, Soundex the code of that name; a text is the list of its code points and a float the
--   fraction that it stands for.
-- - CustomerOtp: services/api-customer/src/api_customer/otp.py, the adapters in memory, over Redis and
--   over HTTP (Adapters). A verification is one step, with no other between its read and its delete.
-- - Auth: packages/auth-lib/src/fraudnet/auth. Principal holds principal.py and `extract_principal` of
--   token.py, Routes the dependency and the two guards of rbac.py. What they refuse when a route is
--   declared (no role, a handler that is no coroutine) is not modelled, nor is the cache of keys.
-- - Tests: concrete inputs, on which each theorem is applied.
--
-- How the state corresponds: an object is a record, a method a function that takes the record and
-- returns its new state beside its result, an exception a value. Times are natural numbers of
-- milliseconds, and a comparison `t < now - w` of Python's integers is written `t + w < now`. A score
-- is a natural number of a unit that every float of its range is a multiple of, and no module here
-- adds or scales one. Python's `dict` is an association list in insertion order, its `set` a list by
-- its membership test. What the code does not decide is an input: readings of clocks, UUIDs, the
-- delivery of a send, the answer of a query, a parsed policy. The string functions of Python that
-- rest on Unicode tables or regular expressions (`lower`, `upper`, `strip`, `isdigit`, `re`) and the
-- digest of hashlib are parameters. The functions are total by structural recursion; `str(n)` recurses
-- on a fuel of n + 1 digits, which a number below 10 ^ (n + 1) does not use up.
--
-- Not modelled: Kafka, Redis, Memgraph and HTTP clients, the settings and `main` modules, the
-- learned models, and the services that Lib lists no module for. The expiry of a key in Redis is
-- modelled in CustomerOtp, Decisions and BusinessRegistry only: the other stores are the in-memory
-- ones of their files. Metrics and
-- logs have no effect here. The validators of the schemas are not modelled, so that a theorem on an
-- event holds of more events than the schema lets through.
mod Prelude
mod Domain
pub mod Schemas
pub mod StreamFeatures
pub mod Decisions
pub mod StreamGraph
pub mod OtpGuard
pub mod UrlIntel
mod Tests
pub mod Federation
pub mod Kafka
pub mod ActionTier1
pub mod BrainGraph
pub mod BusinessRegistry
pub mod AgentFraud
pub mod Watchlist
pub mod CustomerOtp
pub mod Auth
