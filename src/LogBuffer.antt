-- ===== src/LogBuffer.antt =====
-- gateway/core/log_buffer.py: the ring of the last log lines and the queues of the live subscribers.
-- The module's variables are the fields of `Log`; a queue is known by the number of its subscription.
-- The event loop's part is the list of the lines that were handed over to it, and a turn of the
-- loop fans the first of them out; whether the hand-over succeeds is an argument of `record_line`.
-- The calls come one after another: what threads do between two lines of `record` is left out.
pub mod Tail
mod Tests
use agnos_proxy_oss.Base.{
  ℕ, zero, suc, ◌+◌, ◌-◌, String, ◌<>◌, Bool, true, false, List, [], ◌∷◌, ◌++◌, ltb, leb, eqb, not,
  if◌then◌else◌, length, map, keep,
}

pub record Line : Type 0 where
  pub seq : ℕ
  pub ts : ℕ
  pub level : String
  pub source : String
  pub msg : String

pub record Queue : Type 0 where
  pub number : ℕ
  pub lines : List Line

pub record Log : Type 0 where
  pub seq : ℕ
  pub buf : List Line
  pub subs : List Queue
  pub waiting : List Line
  pub subscribed : ℕ

abbrev pub empty_log : Log
empty_log = record { seq = 0; buf = []; subs = []; waiting = []; subscribed = 0 }

abbrev pub max_lines : ℕ
max_lines = 800

abbrev pub queue_size : ℕ
queue_size = 2000

abbrev pub without_first : List Line → List Line
without_first [] = []
without_first (x ∷ xs) = xs

-- `_buf.append`, of a deque with a bound.
unfoldable pub append : ℕ → List Line → Line → List Line
append bound buf r =
    if ltb (length buf) bound then buf ++ (r ∷ []) else without_first buf ++ (r ∷ [])

-- `q.put_nowait`, where a full queue is passed over.
unfoldable pub put_nowait : Line → Queue → Queue
put_nowait r q =
    if leb queue_size (length q.lines) then q else record q { lines = q.lines ++ (r ∷ []) }

-- `_fanout`
unfoldable pub fanout : Line → Log → Log
unfolding put_nowait
fanout r g = record g { subs = map (put_nowait r) g.subs }

-- `record`: the line, with the next number, goes to the ring and to the loop or the queues.
unfoldable pub record_line : Bool → ℕ → String → String → String → Log → Log
unfolding append fanout
record_line hands_over now msg level source g =
    let r : Line = record {
      seq = suc g.seq;
      ts = now;
      level = level;
      source = source;
      msg = msg;
    } in
    let g' : Log = record g { seq = suc g.seq; buf = append max_lines g.buf r } in
    if hands_over then record g' { waiting = g.waiting ++ (r ∷ []) } else fanout r g'

-- The loop calls `_fanout` for the first line that was handed over.
abbrev pub fan_first : List Line → Log → Log
fan_first [] g = g
fan_first (r ∷ rs) g = fanout r (record g { waiting = rs })

unfoldable pub turn : Log → Log
unfolding fanout
turn g = fan_first g.waiting g

abbrev pub drop : ℕ → List Line → List Line
drop zero xs = xs
drop (suc n) [] = []
drop (suc n) (x ∷ xs) = drop n xs

-- `snapshot`: `[-limit:]` is the whole list when the limit is 0.
unfoldable pub snapshot : ℕ → Log → List Line
snapshot zero g = g.buf
snapshot (suc n) g = drop (length g.buf - suc n) g.buf

unfoldable pub subscribe : Log → Log
subscribe g = record g {
  subs = g.subs ++ (record { number = g.subscribed; lines = [] } ∷ []);
  subscribed = suc g.subscribed;
}

unfoldable pub unsubscribe : ℕ → Log → Log
unsubscribe n g = record g { subs = keep (λ q. not (eqb q.number n)) g.subs }
