-- ===== src/Chat.antt =====
-- gateway/routes/chat.py: POST /v1/chat/completions, whose stages run in the order of its documentation over
-- the components of this library. This file has the request, the events, the state that a request
-- reads and writes, and the way a stage ends. A request body is the record of the fields that the
-- handler looks into; a header has one value and a name in lower case, as ASGI gives it. The
-- stages are in Chat/Identity.antt and Chat/Gates.antt, the calls of the engine in Chat/Serve.antt and Chat/Stream.antt,
-- and the handler in Chat/Handler.antt. Spans, latencies, metrics and the wording of messages are
-- left out.
pub mod Parts
pub mod Identity
pub mod Gates
pub mod Stream
pub mod Serve
pub mod Handler
pub mod Protocol
pub mod Waiting
pub mod Running
pub mod Trace
pub mod Before
pub mod Spending
pub mod Replay
mod Tests
use agnos_proxy_oss.Base.{ℕ, String, Bool, Option, List, [], ◌∷◌, ◌++◌, ⊤, string_eq}
use agnos_proxy_oss.Base.Dict.{Dict, lookup}
use agnos_proxy_oss.Base.Text.{Text}
use agnos_proxy_oss.Base.Json.{ℤ, Json, Fields}
use agnos_proxy_oss.Auth
use agnos_proxy_oss.Headers
use agnos_proxy_oss.Registry
use agnos_proxy_oss.Registry.Resolve as Routes
use agnos_proxy_oss.Registry.{ResolvedTarget}
use agnos_proxy_oss.Catalog
use agnos_proxy_oss.RateLimit
use agnos_proxy_oss.RedisLimit
use agnos_proxy_oss.Budgets
use agnos_proxy_oss.Budgets.Check as BudgetCheck
use agnos_proxy_oss.Guardrails
use agnos_proxy_oss.Chunker
use agnos_proxy_oss.Chunker.{Message}
use agnos_proxy_oss.Engines.{Engine}
use agnos_proxy_oss.Breaker.{CircuitBreaker}
use agnos_proxy_oss.Fallback.{Credential, Outcome}
use agnos_proxy_oss.Pricing.{Prices}
use agnos_proxy_oss.ResponseCache

-- What the handler reads of the body; a list of messages that is missing is `none`.
pub record Body : Type 0 where
  pub model : Option String
  pub user : Option String
  pub use_case : Option String
  pub messages : Option (List Message)
  pub stream : Bool
  pub tools : Bool
  pub rest : Fields

-- `await request.json()`, and whether it is an object.
pub data Parsed : Type 0 where
  malformed not_an_object : Parsed
  parsed : Body → Parsed

pub record Request : Type 0 where
  pub headers : Dict String String
  pub body : Parsed

-- `request.headers.get(name)`
unfoldable pub header : String → Request → Option String
unfolding lookup
header name req = lookup name req.headers

-- The columns of a workspace context as the values that the components take.
pub record Columns : Type 0 where
  pub client_id : Option String
  pub routing : Registry.Workspace
  pub quotas : Dict String RateLimit.Limits
  pub rate_limits : Option RateLimit.WorkspaceLimits
  pub budgets : Option Budgets.Budgets
  pub guardrails : Guardrails.Config
  pub auto_truncate : Bool

-- Who a request is charged to, and under which alias.
pub record Attribution : Type 0 where
  pub client_id : Option String
  pub workspace_id : String
  pub user_id : Option String
  pub use_case : Option String
  pub component : Option String
  pub alias : String

-- The events of gateway/governance/observer.py that the handler emits.
pub data Event : Type 0 where
  request_start : Attribution → ResolvedTarget → Engine → Bool → Bool → Event
  request_success : Attribution → ResolvedTarget → Engine → ℕ → ℕ → ℕ → Bool → Event
  request_error : Attribution → String → Engine → String → ℕ → ℕ → Event
  guardrail_decision : Attribution → String → String → String → String → Event
  fallback : Attribution → String → String → String → Event
  rate_limited : Attribution → RateLimit.Scope → RateLimit.Kind → Option ℕ → Event
  budget_limited : Attribution → Budgets.Scope → ℕ → ℕ → Event
  cache_hit : Attribution → String → ℕ → ℕ → ℕ → Event

-- The headers of a response that the gateway decides on.
pub data Header : Type 0 where
  cache_header guardrail_header : String → Header
  scope_header : RateLimit.Scope → Header
  limit_requests limit_tokens : ℕ → ℕ → ℕ → Header
  retry_after : ℕ → Header
  truncated_header : ℕ → ℕ → ℕ → Header

-- The chunks that an engine streams, and the class of the exception that ends them, if one does. A
-- client that goes away ends them early.
pub record Streamed : Type 0 where
  pub chunks : List Text
  pub failure : Option Text

-- A response: a refusal with its status and the type of its body, an answer, a replayed answer, a
-- stream, or the 500 of an exception that escapes.
pub data Response : Type 0 where
  refused : ℕ → String → List Header → Response
  served : Fields → List Header → Response
  replayed : Json → Response
  streamed : Streamed → Response
  escaped : Response

-- The provider side: the engine that is called, the credentials, the clock and the pauses.
pub record Upstream : Type 1 where
  pub State : Type 0
  pub now : State → ℕ
  pub credential : String → String → State → Option Credential × State
  pub chat : Engine → Body → ResolvedTarget → ℕ → State → Outcome × State
  pub chat_stream : Engine → Body → ResolvedTarget → State → Streamed × State
  pub pause : ℕ → State → State
  pub digits : ℕ → String

-- What the handler uses of third-party libraries.
pub record Library : Type 1 where
  pub auth : Auth.Library
  pub guardrails : Guardrails.Library
  -- The tokens of a text, and Python's `float` of one, in whole seconds and in millionths.
  pub encode : String → ℕ
  pub float_seconds : String → Option ℤ
  pub float_of : String → Option ℤ
  pub choose : Routes.Choose
  -- `json.dumps` and `json.loads`, and the digest of a cache key.
  pub dumps : Fields → String
  pub loads : String → Json
  pub parse_line : Text → Option Json
  pub digest : String → String → Body → String
  pub random : ℕ

-- `settings`, as far as the handler and what it calls read them.
pub record Settings : Type 0 where
  pub registry : Registry.Settings
  pub max_request_timeout_s : ℕ
  pub engine : String
  pub engine_overrides : Fields
  pub using_redis : Bool
  pub cache_in_redis : Bool
  pub max_retries : ℕ

-- All that the handler runs on: the libraries, the settings, the reading of a context's columns, the
-- limiter's server, the providers and the cache's server.
pub record Externals : Type 1 where
  pub lib : Library
  pub settings : Settings
  pub columns : Auth.WorkspaceContext → Columns
  pub server : RedisLimit.Server
  pub upstream : Upstream
  pub redis : ResponseCache.Redis

-- What the clocks show and the database answers during one request; an answer that raises is `none`.
pub record Surroundings : Type 0 where
  pub auth_now : ℕ
  pub auth_tables : Option Auth.Tables
  pub headers_now : ℕ
  pub required_row : Option (Option (List Text))
  pub catalog_now : ℕ
  pub catalog_rows : Option (List Catalog.Row)
  pub client_limits : Option (Option RateLimit.Limits)
  pub wall : ℕ
  pub monotonic : ℕ
  pub reset : ℕ
  pub client_budgets : Option Budgets.Budgets
  pub request_log : Option (List Budgets.RequestLog)
  pub budget_cutoff : ℕ
  pub budget_now : ℕ
  pub budget_after : ℕ
  pub guardrails_now : ℕ
  pub guardrail_tables : Option Guardrails.Tables
  pub cache_now : ℕ
  pub prices : Prices
  pub output_now : ℕ
  pub spend_now : ℕ
  pub put_now : ℕ

-- The process: the dictionaries of its modules, the external states and the events emitted so far.
pub record Gateway (U L C : Type 0) : Type 0 where
  pub auth : Auth.Store
  pub required : Headers.Cache
  pub catalog : Catalog.Cache
  pub limiter : RateLimit.Limiter × L
  pub ledger : Budgets.Ledger × BudgetCheck.Alerted
  pub rules : Guardrails.Cache
  pub engine : Option Engine
  pub breaker : CircuitBreaker
  pub upstream : U
  pub mem : ResponseCache.Mem
  pub redis : C
  pub events : List Event

-- How a stage ends: the handler goes on with a value, or returns a response.
pub data Stage {ℓ} (A : Type ℓ) : Type ℓ where
  go : A → Stage A
  stop : Response → Stage A

abbrev pub Step {ℓ} : Type 0 → Type ℓ → Type ℓ
Step G A = G → Stage A × G

module _ {G : Type 0} where
  abbrev pub and_then {ℓ κ} :
      {A : Type ℓ} {B : Type κ} → (A → G → Stage B × G) → Stage A × G → Stage B × G
  and_then f (go a, g) = f a g
  and_then f (stop r, g) = (stop r, g)

  infixl 5 ◌>>=◌
  abbrev pub ◌>>=◌ {ℓ κ} :
      {A : Type ℓ} {B : Type κ} → (G → Stage A × G) → (A → G → Stage B × G) → G → Stage B × G
  (m >>= f) g = and_then f (m g)

  abbrev pub response : Stage Response × G → Response × G
  response (go r, g) = (r, g)
  response (stop r, g) = (r, g)

abbrev pub Process : Externals → Type 0
Process X = Gateway X.upstream.State X.server.State X.redis.State

module _ {U L C : Type 0} where
  -- `bus().emit(event)`
  abbrev pub emit : Event → Gateway U L C → Gateway U L C
  emit e g = record g { events = g.events ++ (e ∷ []) }
