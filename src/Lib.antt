-- ===== src/Lib.antt =====
-- Lumina AI: the logic of its backend (a multi-tenant assistant that answers from documents).
--
-- The program's parts that are modelled, and how they meet: a question of a user first reserves its
-- quotas (Quota), a session decides who asks (Identity), the retrieval fuses what its routes find,
-- gates it, selects the context and cites it (Rag), and what is retrieved was made from documents by
-- the cleaner and the chunker (Etl) under the versions that a rebuild keeps (Knowledge), with the
-- parameters that a knowledge base and its tenant set (Settings). Answers, vectors and rankings come
-- from model providers (Gateway), and a turn of a conversation streams, saves and settles the answer
-- (Conversation). Before all that a request has to pass the rate limit (Api). Quotas, sessions and the
-- rate limit keep their state on a Redis server.
--
--   Prelude           native numbers, tests, lists, integers, texts as lists of code points
--   Redis             the server: `Cache` and `Counters` are records of its commands and their
--                     documented laws; Redis.Memory meets them; `tenant_key` of backend/core/redis.py
--   Quota.Resource, Quota.Period, Quota.Plan, Quota.Service
--                     backend/services/platform/quota.py: `QuotaService` with `check_and_reserve`,
--                     `check_headroom`, `commit`, `release`, `correct`, `status`
--   Quota.Service.Reconcile
--                     backend/services/platform/reconciliation.py: `reconcile_tenant`
--   Quota.Budget      backend/services/conversation/budget.py: `TurnBudget`
--   Quota.Slots       backend/services/platform/fairness.py: `TenantSlotLimiter`; in
--                     Quota.Slots.Interleaving every command of every worker is a step of its own
--   Identity.Tokens   backend/services/identity/tokens.py: `TokenCodec`
--   Identity.Rotation, Identity.Attempts, Identity.Sessions
--                     backend/services/identity/auth.py: the script `_ROTATE_LUA`, the lock on failed
--                     logins, and `AuthService`
--   Identity.Users    backend/repositories/identity.py: `UserRepository`
--   Rag.Chunk, Rag.Fusion, Rag.Select
--                     backend/rag/retrievers/vector.py and backend/rag/pipeline.py
--   Rag.Citation      backend/rag/citation.py
--   Rag.Metrics       backend/rag/metrics.py, without `aggregate`
--   Etl.Tokens        backend/etl/tokens.py
--   Etl.Clean         backend/etl/clean.py, with its texts in Etl.Clean.Normal
--   Etl.Sentences, Etl.Chunk
--                     backend/etl/chunk.py, with the blocks of backend/etl/extract/model.py
--   Gateway           backend/ai/gateway: Gateway.Chat its types, Gateway.Stream `stream_chat`,
--                     Gateway.Embed `embed`, Gateway.Rerank `rerank` with both adapters,
--                     Gateway.Sse and Gateway.Vectors the chat and the embedding adapter of
--                     providers/openai_compatible.py, Gateway.Vendors its table, its requests and
--                     the factories, Gateway.Json the values of `json.loads`
--   Conversation.Turn backend/services/conversation/chat.py: `generate` with `_complete`, `_fail`,
--                     `_persist`, over the stream of the gateway
--   Knowledge.DocumentStatus, Knowledge.ReindexPlan
--                     backend/common/document_status.py, backend/services/knowledge/reindex_plan.py
--   Knowledge.Tables  the rows of a tenant and the queries of backend/repositories/knowledge.py
--   Knowledge.Reingest
--                     `reingest` of backend/services/knowledge/documents.py
--   Knowledge.Reindex backend/services/knowledge/reindex.py: `KbReindexService`; the file has the
--                     embedding and the switch, Knowledge.Reindex.Advance `start`, `advance` and the
--                     rechunking, the other children the theorems
--   Knowledge.Rescue  backend/services/knowledge/rescue.py: both `rescue_tenant`
--   Knowledge.Cleanup `purge_switched` of backend/services/knowledge/cleanup.py
--   Settings          backend/services/knowledge/kb_config.py: Settings.Write and Settings.Validate
--                     are the side of the writer, Settings.Read that of the reader; Settings.Params is
--                     backend/services/rag/params.py and `_chunk_config_from`
--   Api.RateLimit     backend/api/middleware/rate_limit.py
--   Tests             the theorems at concrete inputs
--
-- A service keeps no state of its own: a call takes a record of what it reads (`Site`) and the state
-- it changes (`World`: the server, the notices sent, the tables of users and of the audit), and
-- returns the state also when it raises; an exception is a value (`quota_exceeded`, `raised`).
--
-- Parameters stand for what is not in the repository: the Redis server, PyJWT (`Jwt`), the password
-- hasher, floats (`Floats`: sum, product, reciprocal of a number and a total order), `int(text)`, and
-- the float computation of the slice length in `_hard_split`, the embedding call of the gateway, the
-- categories of Unicode, the language model of the cleaner, and a text as part of a key. The floats of
-- the settings are no parameter: a finite double is a whole number of units of 2^-1074, `float` of an
-- int rounds to 53 bits and overflows as Python's does, and the two zeros are one. Moments of sessions
-- are whole seconds (at a logout also a part of one; the life of a family, for which the source reads
-- the clock again, may be a second longer than there), those of quotas a calendar day and
-- microseconds. An identifier is its text; that of a chunk is its 128-bit number, which has the same order.
-- A generator is the list of what it yields and how it ends; a provider that streams is a list of
-- answers with the times they take, in microseconds. JSON is parsed by a parameter, whose values are a
-- data type; HTTP is what a request comes to.
-- A message that is sent is in the queue: a failure of the broker is not modelled. Scores are totally
-- ordered: there is no NaN.
-- A transaction is one function on the tables; what other processes do happens between two of them.
-- Keys with counters and keys with texts stand in two caches: no key of the program holds both.
-- Loops are structural recursions; `slices` runs on as many steps as the text has characters, which
-- is enough as a slice has at least one, and `decimal_on` on more steps than the number has digits.
-- `embed_batches` runs on as many steps as there are chunks to embed, and each batch has one;
-- `read_param` on two, as one parameter of the built-in specs is bounded by another and that by none.
-- Ratios that the source compares as floats are compared as fractions.
--
-- Not modelled: the memo of the limits in the request cache, logging, the delivery of notices, the
-- clean-up of `TurnBudget.reserve` after another exception than an exceeded quota (it is the same
-- path), the loops over all tenants of the reconciliation, the rescue and the clean-up, the wording of
-- messages, the other Django models and queries, the composer of prompts and the start of a turn, the
-- mock providers, the rest of the API layer, the workers and the frontend.
pub mod Prelude
pub mod Redis
pub mod Settings
pub mod Api
pub mod Quota
pub mod Conversation
pub mod Etl
pub mod Gateway
pub mod Knowledge
pub mod Rag
pub mod Identity
mod Tests
