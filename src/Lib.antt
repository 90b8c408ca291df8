-- ===== src/Lib.antt =====
-- The ingestion service of this repository: OTLP requests for spans, logs and metrics come in over
-- gRPC and HTTP, are mapped to rows, published to Kafka topics, consumed in batches and inserted into
-- ClickHouse. This library models the parts that carry its logic, and states what makes them correct.
--
-- How the parts interact. A request is authenticated (internal/auth, over internal/authrepo), by an
-- interceptor for gRPC and by the handler of internal/ingestion/otlphttp for HTTP. The handler of its
-- signal (internal/ingestion/spans, logs, metrics) calls ExportOTLP of internal/ingestion/core, which
-- maps the request and publishes the rows through the producer; then it records usage statistics
-- (internal/ingestion/ingestionstats) and, for spans, enqueues evaluation scores
-- (internal/ingestion/llmscores) with the asynchronous publisher. On the other side the consumer of
-- internal/infra/kafka polls batches and gives them to the insert handler of internal/ingestion/core,
-- which sends what cannot be inserted to the dead-letter queue, and commits them in order.
--
-- Which file models which part.
--   Prelude, Prelude/*     tests on numbers, lists, ordered keys, sorting, byte strings, decimal and
--                          hexadecimal text, integers. A Go string is a list of bytes (GoString).
--   GoMap, GoMap/*         Go's map: an association list with a key once; its order stands for the
--                          order of a range loop. GoFloat, GoText, LruCache, Rpc: what the sources
--                          use of float64, of strings and encoding/json, of golang-lru and of
--                          grpc/status.
--   Infra/Otlp             internal/infra/otlp: FirstNonEmpty is first_non_empty, TruncateUTF8 is
--                          truncate_utf8, CapStringMap is cap_string_map, BytesToHex is bytes_to_hex,
--                          AttrsToMap is attrs_to_map, TypedAttrs is typed_attrs.
--   Infra/Fingerprint      internal/infra/fingerprint: ResolveResource is resolve_resource,
--                          FingerprintHash is fingerprint_hash, SeriesHash is series_hash. The
--                          xxhash digest is the argument sum64.
--   Core                   internal/infra/kafka/producer.go and internal/ingestion/core/producer.go,
--                          dlq.go: publish_batch, publish, publish_all. Core/Token and Core/Insert are
--                          insert_handler.go (dedup_token, insert_handler), Core/Async is
--                          async_publisher.go, as a step function over interleavings.
--   Auth, Auth/*           internal/auth/resolver.go, internal/authrepo/authrepo.go (resolve_tenant_id)
--                          and, of internal/auth, grpc.go (Auth/Grpc: unary_interceptor,
--                          stream_interceptor) and context.go.
--   OtlpHttp               internal/ingestion/otlphttp/handler.go: Export is export_handler, readBody
--                          is read_body, writeError is write_error.
--   Signals                ResourceUsage, and the map loops that the mappers share.
--   Spans, Logs, Metrics   mapper.go of the three signals, genai.go (Spans/GenAi), normalize.go
--                          (Metrics/Normalize) and internal/infra/timebucket: mapRequest is
--                          map_request, map_log_request and map_metric_request.
--   Scores                 internal/ingestion/llmscores/extract.go: extract_from_spans.
--   Stats                  usage.go and recorder.go of internal/ingestion/ingestionstats: usage_rows,
--                          emit_usage, and the recorder as a step function over its events.
--   Export                 export.go and paired_publisher.go of internal/ingestion/core, dedup.go of
--                          internal/ingestion/metricseries, and handler.go of the three signals.
--   Kafka                  internal/infra/kafka/consumer.go (Kafka/Consumer: a step function over
--                          interleavings of the fetch loop, the workers and the committer),
--                          topics.go (Kafka/Topics), client.go (Kafka/Client: new_producer_client,
--                          new_consumer_client) and observability.go (Kafka/Signal: the hooks and
--                          signal_from_topic; Kafka/Lag: fetch_group_lag, diff_lag).
--   Writer, Columns        internal/ingestion/core/writer.go: Insert is insert_rows. Columns/* are the
--                          mapping.go of the six tables: what a row mapper assigns to its slots, and
--                          the types that db/*.sql declares for the columns. Writer/Consumer is the
--                          insert handler over the writer (consumer.go), Writer/Stored the way from
--                          the producer to the table.
--   GoStrings              what the sources use of Go's strings on bytes: cut, split, trim.
--   Config, Config/*       internal/config: Validate is validate, setDefaults is set_defaults,
--                          resolveConfigFilePath is resolve_config_file_path and Load is load, with
--                          the part of path/filepath that they use in Config/Path.
--   App, App/*             internal/app/ingest.go, infra.go, app.go: ingestTopicSpecs is
--                          ingest_topic_specs, buildIngest is build_ingest, newInfra is new_infra,
--                          Close is close_infra, New and Start are run_app, as a trace of what is
--                          opened, ensured and closed; internal/infra/database opens in App/Infra.
--                          App/Routes is addHTTPServerActor of transport.go, App/GrpcMetrics is
--                          grpc_metrics.go: what the interceptors count for a call by itself.
--   Program                cmd/ingest/main.go: run and main, to the exit code.
--   Tests/*                runs on concrete inputs, and the theorems applied to them.
--
-- State is passed explicitly: a function takes the state of the part and gives the state
-- afterwards. An error is a value (Option, a result type or a status). A clock is an argument, in
-- the unit of the code. Numbers are natural numbers, with the wrap-around of uint32 and uint64
-- written out where the code can reach it; int64 values with a sign are the integers of
-- Prelude/Int. Every loop of the code is a recursion on the list, the map or the string that it
-- walks, but for three. The search for the configuration file has the length of the working
-- directory as fuel: the parent of a directory is shorter, or the directory itself. The text of a
-- number has the number plus one, which is more than its digits. The trimming of white space has
-- the length of the text, of which each round takes at least a byte.
--
-- A server of ClickHouse is taken to behave as its documentation says of a table with a deduplication
-- window, like those of db/*.sql: it takes the rows of a batch for one partition together, and drops
-- them if it has taken a part under the same insert_deduplication_token before. The theorems of Writer
-- say which parts it may have taken, not when it forgets a token.
--
-- Parameters stand for what is not in the repository: the broker, the client of ClickHouse, the
-- database, the cache, the file system and viper, the rate limiter, sha256 and xxhash, mime, gzip,
-- proto, protojson, floats, Unicode tables, JSON. Their laws, where a theorem needs any, are
-- fields of a record or hypotheses of the theorem.
--
-- What is not modelled: the HTTP and gRPC servers with their shutdown and the group of actors,
-- which belong to libraries, the tickers, the metrics registry (declarations of collectors), the
-- timing of database queries, and generated code. Log lines and metrics are left out of the
-- functions that emit them, except for the counters of lost, dropped and malformed rows. The
-- singleflight group of the authenticator is modelled for a call that runs its own flight. A
-- failing commit of offsets is not told apart, since the code only logs it. The two publishes of an
-- export of metrics are independent functions: that the errgroup cancels the context of one when the
-- other fails is one of the ways in which a publish may fail. The two counters that a gRPC
-- interceptor sets before the handler are set in one step, and so are the two after it. A panic that
-- ends the process is not modelled either, such as that of rand.Int64N for a flush interval of 0 or
-- of make for a queue of negative size: the traces of App and Program are those of runs without one.
pub mod Prelude
pub mod GoMap
pub mod GoFloat
pub mod GoText
pub mod Infra
pub mod Core
mod Tests
pub mod LruCache
pub mod Rpc
pub mod Auth
pub mod Signals
pub mod Spans
pub mod Logs
pub mod Metrics
pub mod Stats
pub mod Kafka
pub mod Scores
pub mod Export
pub mod OtlpHttp
pub mod Columns
pub mod Writer
pub mod GoStrings
pub mod Config
pub mod App
pub mod Program
