-- ===== src/Relay/Admission.antt =====
-- acquire of internal/relay/proxy.go, one shared access at a time, run by any number of requests
-- whose steps interleave in any order: the load of the counter, its increment, the case that the
-- `select` takes, the deferred decrement, and the release of the slot by the returned function.
pub mod Slots
pub mod Overflow
use modelrelay.Base.{ℕ, ◌+◌, ◌-◌, ◌≤◌, ◌<◌, ◌≡◌, List, [], ◌∷◌, ◌++◌}

-- What the requests share. `sem` is the number of tokens in the channel.
pub record Shared : Type 0 where
  pub sem : ℕ
  pub waiting : ℕ
  pub queue_full_total : ℕ

-- Where a request stands.
pub data Place : Type 0 where
  arriving : Place  -- before the load of `waiting`
  rejecting : Place  -- before QueueFullTotal.Add
  entering : Place  -- before waiting.Add(1)
  selecting : Place  -- at the `select`
  admitted : Place  -- has a token; the deferred decrement is due
  leaving : Place  -- has an error; the deferred decrement is due
  serving : Place  -- acquire has returned the release function
  gone : Place

pub record System : Type 0 where
  pub shared : Shared
  pub requests : List Place

abbrev pub idle : System
idle = record { shared = record { sem = 0; waiting = 0; queue_full_total = 0 }; requests = [] }

module _ (queue_length max_concurrency : ℕ) where
  -- One step of one request.
  pub data Move (m : Shared) : Place → Shared → Place → Type 0 where
    pass : m.waiting < queue_length → Move m arriving m entering
    refuse : queue_length ≤ m.waiting → Move m arriving m rejecting
    count_full : Move m rejecting (record m { queue_full_total = m.queue_full_total + 1 }) gone
    enter : Move m entering (record m { waiting = m.waiting + 1 }) selecting
    take_slot : m.sem < max_concurrency → Move m selecting (record m { sem = m.sem + 1 }) admitted
    timer : Move m selecting m leaving
    ctx_done : Move m selecting m leaving
    return_slot : Move m admitted (record m { waiting = m.waiting - 1 }) serving
    return_error : Move m leaving (record m { waiting = m.waiting - 1 }) gone
    release : Move m serving (record m { sem = m.sem - 1 }) gone

  -- A request arrives, or one of those there moves.
  pub data Step (s : System) : System → Type 0 where
    arrive : Step s (record s { requests = arriving ∷ s.requests })
    move :
        (before after : List Place) {p p' : Place} {m : Shared}
        → s.requests ≡ before ++ (p ∷ after)
        → Move s.shared p m p'
        → Step s (record { shared = m; requests = before ++ (p' ∷ after) })

  pub data Reach (s : System) : System → Type 0 where
    here : Reach s s
    later : {t u : System} → Reach s t → Step t u → Reach s u
