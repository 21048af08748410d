-- ===== src/Lib.antt =====
-- Agnos Proxy: a gateway that takes OpenAI-style requests of many workspaces, authenticates and
-- governs them, and passes them to the model providers. This library models the chat handler,
-- gateway/core, the governance bus and the translation for Anthropic, and proves what keeps them
-- correct.
--
-- The handler of a chat request, chat_completions of gateway/routes/chat.py, is Chat.Handler: it runs
-- over a state that holds the caches, breakers, ledger and random numbers, and writes the events for
-- the observers (Chat, with its data; Chat.Identity reads the body, the principal and the headers;
-- Chat.Gates has the checks of the model, the rate limits, the budgets, the guardrails and the
-- window; Chat.Serve the engine, the cache and the settlement; Chat.Stream the generator _stream;
-- Chat.Parts the small parts they share). What happens to the events is in Chat.Protocol, Waiting,
-- Running, Trace, Before, Spending and Replay.
--
-- A request passes the parts in this order. Its key or JWT is resolved to a workspace context
-- (Auth, gateway/core/auth.py, with Auth.Principal; Auth.Admin, gateway/core/security.py), its
-- required headers are looked for (Headers, gateway/core/required_headers.py), its model is resolved
-- to targets and deadlines (Registry and Registry.Resolve, gateway/core/registry.py) and held against
-- the catalog (Catalog, gateway/core/model_catalog.py), the rate limits are charged (RateLimit,
-- gateway/core/rate_limit.py; RedisLimit, gateway/core/redis_rate_limit.py), the budgets are checked
-- (Budgets, Budgets.Totals, Enforce and Check, gateway/core/budgets.py), the guardrails are applied
-- (Guardrails, Guardrails.Rules and Evaluate, gateway/core/guardrails/store.py and engine.py), the
-- conversation is cut to the window (Chunker, gateway/core/chunker.py and tokens.py), and the targets
-- are tried (Fallback, Fallback.Execute and Breaker, gateway/core/fallback.py) on the engine of their
-- provider (Engines, gateway/runtime.py) with the credentials of the workspace (Credentials,
-- gateway/core/credentials.py). The engine for Anthropic translates the request and the answer
-- (Anthropic.Request and Anthropic.Response, gateway/engines/anthropic_direct.py). Errors are mapped
-- for the caller (Errors, gateway/core/errors.py), the cost is computed (Pricing,
-- gateway/core/pricing.py), answers are cached (ResponseCache, gateway/core/cache.py) and events go to
-- the observers (Bus, gateway/governance/bus.py); the lines of the log panels are kept in a ring
-- (LogBuffer, gateway/core/log_buffer.py). What an administrator stores is validated first
-- (Validation, gateway/core/admin_validation.py: Alias, Blobs, Tenants, Provider and Records).
--
-- How the models are made. A module's dictionaries are the fields of a record that each operation
-- takes and returns, and the functions keep their names without a leading underscore; a method's
-- object is its last argument. The handler is a chain of steps over its state that ends early with a
-- response (do blocks of Chat). Where a context object is shared between a cache and requests
-- (Auth), there is a heap with addresses. Times are whole numbers of the unit that a file names, and
-- the clock is an argument; money and prices are whole numbers of a small unit. Exceptions are `none`
-- or an error value. Base has the lists, dictionaries (in insertion order), texts and JSON values
-- that the parts share.
--
-- Parameters. The database is an argument that gives rows or fails; Redis, the engines, the
-- cipher, SHA-256, HMAC, base64, JSON, JWT, CEL, regular expressions, the tokenizer, fresh
-- identifiers and the random numbers are parameters, with documented behaviour as named hypotheses
-- where a theorem needs it.
--
-- Bounds. The retry loop of Fallback runs on the number of rounds that are left, `max_retries +
-- 1`, which is the bound of the source's `while`; all other loops run over a list, that of a stream
-- over the chunks that the engine yields. Numbers are unbounded naturals, as Python's are; where the
-- source subtracts below zero the comparison is written as a sum.
--
-- Not modelled: the handlers of embeddings, responses, the playground and the admin pages
-- (gateway/routes but for chat.py), the other engines and the streaming of Anthropic's engine, the
-- exchange rates, parity runs and provider tests, the database schema, the command line,
-- metrics and tracing, and the wording of messages. The handlers and engines are to come; the others
-- are queries for pages, tables and calls of libraries.
pub mod Base
pub mod Anthropic
pub mod LogBuffer
pub mod RateLimit
pub mod RedisLimit
pub mod Validation
pub mod Registry
pub mod Breaker
pub mod Fallback
pub mod Budgets
pub mod Auth
pub mod Credentials
pub mod Headers
pub mod Errors
pub mod Pricing
pub mod Guardrails
pub mod Bus
pub mod Catalog
pub mod Chat
pub mod Chunker
pub mod Engines
pub mod ResponseCache
