-- ===== src/LogBuffer/Tests.antt =====
-- Checks of the log buffer at concrete calls.
use agnos_proxy_oss.Base.{◌≡◌, refl, true, false, List, [], ◌∷◌, min, map}
use agnos_proxy_oss.LogBuffer.{
  empty_log, max_lines, snapshot, record_line, turn, subscribe, unsubscribe, fanout,
}
use agnos_proxy_oss.LogBuffer.Tail.{
  Step, recorded, turned, subscribed, unsubscribed, run, lines_from, IsTail, run-snapshot,
}

-- Two subscribers, of which one leaves, and lines with and without the loop.
abbrev calls : List Step
calls =
    subscribed
    ∷ recorded true 100 "first" "INFO" "gateway"
    ∷ subscribed
    ∷ turned
    ∷ recorded false 101 "second" "INFO" "gateway"
    ∷ unsubscribed 1
    ∷ recorded false 102 "third" "ERROR" "gateway"
    ∷ []

run-snapshot_example :
    IsTail (min 2 max_lines) (lines_from 0 calls) (snapshot 2 (run calls empty_log))
run-snapshot_example = run-snapshot calls 1

snapshot_two : map (λ r. r.msg) (snapshot 2 (run calls empty_log)) ≡ "second" ∷ "third" ∷ []
unfolding snapshot record_line subscribe turn unsubscribe fanout
snapshot_two = refl
