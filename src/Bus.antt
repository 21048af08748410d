-- ===== src/Bus.antt =====
-- gateway/governance/bus.py: each observer has a bounded queue and a task that hands it the events.
-- The queue is the list of its events, oldest first, and a turn of the task is a step; asyncio's
-- queue is full when it has a size and holds as many events. `drain`, `start` and `stop` only wait
-- for tasks, and the metric is left out.
pub mod Order
mod Tests
use agnos_proxy_oss.Base.{
  ℕ, zero, suc, ◌+◌, Bool, true, false, Option, none, some, List, [], ◌∷◌, ◌++◌, ◌&&◌, not, leb,
  eqb, if◌then◌else◌, length, map,
}

-- `_ObserverWorker`, with what its observer was handed so far.
pub record Worker (Event : Type 0) : Type 0 where
  pub maxsize : ℕ
  pub queue : List Event
  pub dropped : ℕ
  pub handed : List Event

module _ {Event : Type 0} where
  abbrev pub new_worker : ℕ → Worker Event
  new_worker maxsize = record { maxsize = maxsize; queue = []; dropped = 0; handed = [] }

  abbrev pub is_full : Worker Event → Bool
  is_full w = not (eqb w.maxsize 0) && leb w.maxsize (length w.queue)

  -- The part of `submit` that runs when the queue is full.
  abbrev pub replace_oldest : List Event → Event → Worker Event → Worker Event
  replace_oldest [] e w = w
  replace_oldest (oldest ∷ q) e w = record w { queue = q ++ (e ∷ []); dropped = suc w.dropped }

  -- `submit`
  unfoldable pub submit : Event → Worker Event → Worker Event
  submit e w =
      if is_full w then replace_oldest w.queue e w else record w { queue = w.queue ++ (e ∷ []) }

  -- One round of `_run`, whether or not the observer raises; an empty queue waits.
  abbrev pub take_first : List Event → Worker Event → Worker Event
  take_first [] w = w
  take_first (e ∷ q) w = record w { queue = q; handed = w.handed ++ (e ∷ []) }

  unfoldable pub turn : Worker Event → Worker Event
  turn w = take_first w.queue w

  -- `GovernanceBus.emit`
  unfoldable pub emit : Event → List (Worker Event) → List (Worker Event)
  unfolding submit
  emit e = map (submit e)
