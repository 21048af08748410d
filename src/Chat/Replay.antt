-- ===== src/Chat/Replay.antt =====
-- An idempotency key replays the answer that was stored under it.
use agnos_proxy_oss.Base.{String, ◌<>◌, string_eq}
use agnos_proxy_oss.ResponseCache
use agnos_proxy_oss.ResponseCache.{Mem}
use agnos_proxy_oss.Chat.{Externals, Stage, go, stop, Response}
use agnos_proxy_oss.Chat.Parts.{Routed}

module _ (X : Externals) where
  -- The key under which an answer is stored for an idempotency key.
  abbrev pub idempotency_key : String → String → String
  idempotency_key workspace_id key = "idem:" <> workspace_id <> ":" <> key

  -- The response of a stage that has stopped.
  abbrev reply : {A : Type 0} → Response → Stage A → Response
  reply answer (go a) = answer
  reply answer (stop r) = r

  abbrev routed_in : Routed → Stage Routed → Routed
  routed_in r (go a) = a
  routed_in r (stop answer) = r
