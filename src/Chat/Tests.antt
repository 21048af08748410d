-- ===== src/Chat/Tests.antt =====
-- The chat handler on a concrete workspace with one model, and an engine that answers at once.
use agnos_proxy_oss.Base.{
  ℕ, suc, ◌≡◌, refl, Bool, true, false, none, some, [], ◌∷◌, arith, ⊤, string_eq,
}
use agnos_proxy_oss.Base.Text.{text}
use agnos_proxy_oss.Base.Json.{str, int, pos, obj, Fields, end, field}
use agnos_proxy_oss.Auth
use agnos_proxy_oss.Registry.{new_target}
use agnos_proxy_oss.Guardrails
use agnos_proxy_oss.Engines.{direct}
use agnos_proxy_oss.Breaker.{new_breaker}
use agnos_proxy_oss.Fallback.{FallbackResult, answered}
use agnos_proxy_oss.Chat.{
  Body, parsed, Request, Columns, Library, Externals, Surroundings, Process, refused, replayed, go,
  stop, Upstream,
}
use agnos_proxy_oss.Chat.Parts.{Routed}
use agnos_proxy_oss.Chat.Gates.{admit, check_spend}
use agnos_proxy_oss.Budgets.Enforce.{caps_of}
use agnos_proxy_oss.Pricing.{compute_cost}
use agnos_proxy_oss.Chat.Serve.{serve, settle, usage}
use agnos_proxy_oss.Chat.Running.{stream_broken}
use agnos_proxy_oss.Chat.Stream.{stream}
use agnos_proxy_oss.Chat.Handler.{chat_completions}
use agnos_proxy_oss.Chat.Protocol.{Ended, waiting}
use agnos_proxy_oss.Chat.Trace.{chat_completions-Ended}
use agnos_proxy_oss.Chat.Spending.{check_spend-settle, serve-stop}

abbrev quiet : Guardrails.Detector
quiet = record { scan = λ t. some []; redact = λ t. some (t, []) }

-- What the engine answers: 1,000,000 tokens each way.
abbrev answer : Fields
answer =
    field "usage"
      (obj (
        field "prompt_tokens" (int (pos 1000000))
          (field "completion_tokens" (int (pos 1000000)) end)))
      end

abbrev library : Library
library = record {
  auth = record { hash_key = λ k. "d"; looks_like_jwt = λ k. false; decode_bearer_jwt = λ k. none };
  guardrails = record {
    regex_pii = quiet;
    secrets = quiet;
    keyword = λ ws. quiet;
    presidio_detector = none;
    build_detector = λ t c. none;
    cel_matches = λ e. true;
    random = λ n. 0;
  };
  encode = λ t. 1;
  float_seconds = λ t. none;
  float_of = λ t. none;
  choose = λ ws. some 0;
  dumps = λ d. "answer";
  loads = λ t. obj answer;
  parse_line = λ t. none;
  digest = λ w a b. "digest";
  random = 0;
}

abbrev guarded : Guardrails.Config
guarded = record {
  pii_detection = false;
  secrets_detection = false;
  keywords = [];
  presidio = false;
  mode = none;
  rules = [];
}

abbrev columns : Auth.WorkspaceContext → Columns
columns ws = record {
  client_id = none;
  routing = record {
    workspace_id = ws.workspace_id;
    chat_models =
        field "a" (obj (field "provider" (str "openai") (field "model_id" (str "gpt-4o") end))) end;
    embedding_models = end;
    default_chat_alias = none;
  };
  quotas = [];
  rate_limits = none;
  budgets =
      some
        (record { client_usd = none; workspace_usd = some 1; user_usd = none; per_model_usd = [] });
  guardrails = guarded;
  auto_truncate = false;
}

-- The providers: the state is the clock.
abbrev prompt_engine : Upstream
prompt_engine = record {
  State = ℕ;
  now = λ t. t;
  credential = λ w p t. (none, t);
  chat = λ e b t n clock. (answered (record { body = answer; status_code = 200 }), suc clock);
  chat_stream =
      λ e b t clock. (record { chunks = []; failure = some (text "timeouterror") }, clock);
  pause = λ n t. t;
  digits = λ n. "n";
}

abbrev externals : Externals
externals = record {
  lib = library;
  settings = record {
    registry = record { default_timeout_s = 60; max_timeout_s = 600 };
    max_request_timeout_s = 600;
    engine = "direct";
    engine_overrides = end;
    using_redis = false;
    cache_in_redis = false;
    max_retries = 1;
  };
  columns = columns;
  server = record {
    State = ⊤;
    incrby = λ k n s. (none, s);
    expire = λ k n s. (none, s);
    digits = λ n. "n";
  };
  upstream = prompt_engine;
  redis = record { State = ⊤; get_value = λ k s. (none, s); set_value = λ k v n s. (none, s) };
}

abbrev tables : Auth.Tables
tables = record {
  api_keys =
      record {
        id = 1;
        sha256 = "d";
        workspace_id = "w";
        disabled = false;
        expires_at = none;
        roles = [];
      }
      ∷ [];
  workspaces = record { workspace_id = "w"; config = end } ∷ [];
}

abbrev day : Surroundings
day = record {
  auth_now = 5;
  auth_tables = some tables;
  headers_now = 5;
  required_row = none;
  catalog_now = 5;
  catalog_rows = some [];
  client_limits = none;
  wall = 5;
  monotonic = 5;
  reset = 5;
  client_budgets = none;
  request_log = some [];
  budget_cutoff = 0;
  budget_now = 5;
  budget_after = 5;
  guardrails_now = 5;
  guardrail_tables = some (record { rules = []; profiles = [] });
  cache_now = 5;
  prices = record { synced = []; overrides = [] };
  output_now = 5;
  spend_now = 5;
  put_now = 5;
}

abbrev idle : Process externals
idle = record {
  auth = record {
    heap = λ a. record {
      workspace_id = "";
      config = end;
      roles = [];
      key_id = none;
      user_id = none;
      component = none;
      auth_method = Auth.api_key;
    };
    next = 0;
    cache = [];
    stale = [];
    seen_components = [];
  };
  required = [];
  catalog = none;
  limiter = (record { rpm = []; tpm = [] }, tt);
  ledger = (record { cache = []; live_delta = [] }, []);
  rules = [];
  engine = none;
  breaker = new_breaker;
  upstream = 0;
  mem = [];
  redis = tt;
  events = [];
}

abbrev asked : Bool → Body
asked stream = record {
  model = some "a";
  user = none;
  use_case = none;
  messages = some [];
  stream = stream;
  tools = false;
  rest = end;
}

abbrev request : Request
request = record {
  headers = ("authorization", "Bearer k") ∷ ("idempotency-key", "once") ∷ [];
  body = parsed (asked false);
}

-- Without a key a request is turned away.
abbrev anonymous : Request
anonymous = record { headers = []; body = parsed (asked false) }

chat_completions-Ended_example :
    let (r, g) = chat_completions externals request day idle in Ended waiting [] r g.events
chat_completions-Ended_example = chat_completions-Ended externals request day idle

abbrev routed : Routed
routed = record {
  body = asked false;
  context = record {
    workspace_id = "w";
    config = end;
    roles = [];
    key_id = none;
    user_id = none;
    component = none;
    auth_method = Auth.api_key;
  };
  who = record {
    client_id = none;
    workspace_id = "w";
    user_id = none;
    use_case = none;
    component = none;
    alias = "a";
  };
  target = new_target "openai" "gpt-4o";
  targets = new_target "openai" "gpt-4o" ∷ [];
  est_tokens = 0;
  redacted = false;
  info = none;
}

abbrev delivered : FallbackResult
delivered = record {
  result = record { body = answer; status_code = 200 };
  target = new_target "openai" "gpt-4o";
  attempt = 1;
  provider_time = 1;
  fallbacks_emitted = [];
  attempts = [];
  effective_timeout_s = 60;
}

-- The process after the answer.
abbrev settled : Process externals
settled = (settle externals request day routed direct delivered false idle).1

check_spend-settle_example :
    (check_spend externals day routed settled).0 ≡ stop (refused 402 "budget_exceeded" [])
unfolding caps_of usage compute_cost
check_spend-settle_example =
    check_spend-settle externals request day day routed routed direct delivered false idle settled 0
      refl refl refl (omega arith) (omega arith)

-- The cost of the answer closes the workspace for a minute, so the next request comes later.
abbrev later : Surroundings
later = record day { cache_now = 200; budget_now = 70000; budget_after = 70000 }

-- What the gates make of the request in the process after the answer.
abbrev admitted : Routed
admitted = elim (admit externals request later settled).0 [ go r ↦ r | stop _ ↦ routed ]

-- A process that holds an answer for the key of the request.
abbrev stocked : Process externals
stocked = record idle { mem = ("idem:w:once", ("answer", 305)) ∷ [] }

serve-stop_example :
    (serve externals request day routed direct none stocked).1.ledger ≡ stocked.ledger
unfolding serve
serve-stop_example =
    serve-stop externals request day routed direct none stocked (replayed (obj answer)) refl

-- The engine of the tests breaks off every stream.
stream_broken_example :
    ((stream externals day routed direct idle).1.events ≡ idle.events)
    × ((stream externals day routed direct idle).1.ledger ≡ idle.ledger)
unfolding stream
stream_broken_example =
    stream_broken externals day routed direct idle
      (record { chunks = []; failure = some (text "timeouterror") }) refl refl
