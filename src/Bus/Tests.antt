-- ===== src/Bus/Tests.antt =====
-- A worker whose queue holds two events.
use agnos_proxy_oss.Base.{ℕ, [], ◌∷◌}
use agnos_proxy_oss.Bus.{new_worker}
use agnos_proxy_oss.Bus.Order.{submitted, turned, run, events, Sound, run-Sound}

run-Sound_example :
    Sound
      (events (submitted 1 ∷ submitted 2 ∷ submitted 3 ∷ turned ∷ []))
      (run (submitted 1 ∷ submitted 2 ∷ submitted 3 ∷ turned ∷ []) (new_worker {Event = ℕ} 2))
run-Sound_example = run-Sound {Event = ℕ} (submitted 1 ∷ submitted 2 ∷ submitted 3 ∷ turned ∷ []) 2
