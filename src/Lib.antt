-- ===== src/Lib.antt =====
-- statsig-forward-proxy: a proxy between Statsig's SDKs and Statsig's servers. It polls the config
-- specs, their deltas and the id lists of every SDK key that it has seen, keeps the answers, and
-- serves them to the SDKs; it can also keep the members of the id lists in Redis, for look-ups by user.
--
-- Parts and files. Paths are from the root of the repository.
--   Prelude      what the other files share: Boolean tests, lists, hash maps as association lists,
--                texts as lists of code points, stable sorting, splitting.
--   Encoding     src/utils/compress_encoder.rs and compress_encoder/parsed_accept_encoding.rs. The
--                functions keep their names; Preference holds what they compute.
--   Request      Path: src/servers/normalized_path.rs. Context, Encodings, Cache:
--                src/servers/authorized_request_context.rs. A context is the key of all the stores; its
--                `PartialEq` is `context_eq`, which leaves the raw URL out.
--   Store        src/datastore. The data provider sends each response to observers, here the messages;
--                SdkKeys: sdk_key_store.rs (which requests are polled, since when); ConfigSpecs:
--                config_spec_store.rs; Deltas: deltas_store.rs (Codec parses, Cache files, Assemble and
--                Combine build the reply, Observe is the store, Valid its invariant).
--   Polling      src/datastore/data_providers. Backoff: request_backoff.rs; Cadence:
--                background_poll_dispatch.rs; Outcome: `process_result` of background_data_provider.rs,
--                joined to the two stores that hear of it.
--   IdList      src/datastore/idlist_membership. Schema: schema.rs (state hash, keys, dictionary of
--                tokens); Planning: redis_syncer/planning.rs; Parser: worker/parser.rs; Lock:
--                work_lock.rs; Namespaces: namespaces.rs, the manifests of a company; Worker: the
--                worker, below.
--   Tests        concrete inputs.
--
-- The worker, IdList/Worker, is src/datastore/idlist_membership/worker. Redis is the Redis that it
-- talks to; Step: the errors of core.rs and the methods that may fail; Send: requests and pipelines
-- with their failures; Config: `IdListWorkerConfig`; Task: `TaskMetadata`, and the fields that
-- `enqueue_tasks` of redis_syncer.rs writes for it; Apply: delta.rs; Scan and Diff: streamed_diff.rs;
-- Commit and Reload: reload.rs, `apply_delta` and `ensure_current_version_persisted`; Removal:
-- removal.rs; Run: run.rs, which plans the work of a task with Planning and carries it out. The
-- children of these modules hold the theorems.
--
-- How state and effects are modelled. A store is a record or a map that its operations take and give
-- back; a DashMap or a HashMap is an association list that is read through `get`. What another thread
-- does between two locks is a function argument (`interlude` in Request/Cache), what a foreground
-- fetch makes a store hear is a list of notifications (Store/ConfigSpecs), and the calls of several
-- instances on one Redis key are a list of timed operations (IdList/Lock). A response of the server, a
-- result of the backup cache, the time and the random seed are arguments. A method of the worker is a
-- function from the state of Redis to a result and a state, so what is written before an error stays
-- written. A pipeline is a list of commands. In Apply and Removal every request to Redis may fail
-- (Send): a connection or a read is refused, or a pipeline breaks after some of its commands. In the
-- scans, the fan-outs, the dictionary and the commit of a reload a command does not fail; what is
-- proved of runs through those speaks of the failures that the model has. That the background task has
-- noticed the loss of the claim, and what the renewal script answers, is asked of the state. The pages
-- of a scan are those of one iteration over a key that does not change meanwhile.
--
-- Numbers. Counters, offsets and times are natural numbers; where the code saturates, wraps, checks or
-- subtracts, the model writes it out. Sums of offsets in a file stay below 2^64. The scores of the queue
-- are `f64` in the code, exact for the integers that occur; the theorem on them asks for at most 2^40
-- tasks. Durations are nanoseconds in Polling/Backoff and milliseconds in Polling/Cadence.
--
-- Fuel. Only the loop of `decode_envelopes` runs on fuel, one round for each byte and one more, which is
-- enough if prost's decoder never gives back more bytes than it had. Every other loop is structural.
--
-- Outside code is a parameter: prost and the decompressors (the record `Codec`), the reading of a `q`
-- value as a float, SHA-256, the default hasher. Redis' `SET NX EX`, `GET`, `EXPIRE`, `DEL`, `HSET` and
-- `HINCRBY` are as Redis documents them, on keys that expire by the clock given. For the worker, Redis is
-- the interface `Redis` with the laws `IsRedis`: what each command does to the members of a set and to
-- the fields of a hash, and what a scan returns. Tests/Memory has an instance. What the origin sends for
-- a file (`download_file`) and the digest of `partition_for` are parameters too.
--
-- Not modelled: the servers, the HTTP and Redis clients, metrics and logging, which are input and
-- output; of the worker, the requests of download.rs, its loop, and the tasks that renew and release the
-- claim in the background; and, so far, the tick of the producer, the membership look-ups, the
-- discovery of company ids, the id-list file store and the deduplication of log events.
pub mod Prelude
pub mod Encoding
pub mod Request
pub mod Store
pub mod IdList
pub mod Polling
pub mod Tests
