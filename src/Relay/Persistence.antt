-- ===== src/Relay/Persistence.antt =====
-- What the relay writes in the background: summaryWriter of internal/relay/requests.go, and the
-- retention loop with SetStore, SetRetention and Close of server.go. The goroutines' steps are events,
-- in any order; an event that is not enabled changes nothing.
pub mod Delivery
pub mod Pruning
use modelrelay.Base.{
  ℕ, ◌+◌, Bool, true, false, not, ◌&&◌, List, [], ◌∷◌, ◌++◌, Option, none, some, ltb, length,
  if◌then◌else◌,
}
use modelrelay.Config.Relay.{ℤ, is_positive}
use modelrelay.Store.Certs.{Store, RequestSummary}
use modelrelay.Store.Logs.{add_request_summary, prune_audit, prune_request_summaries}

-- The goroutine of `start`: in its loop, draining after `stop`, or done.
pub data Worker : Type 0 where
  running draining ended : Worker

-- `queue` is the channel `ch`; `stopped` says that `stop` is closed, `ended` that `done` is.
pub record SummaryWriter : Type 0 where
  pub queue : List RequestSummary
  pub stopped : Bool
  pub worker : Worker
  pub store : Store

abbrev pub queue_size : ℕ
queue_size = 256

-- newSummaryWriter and start.
abbrev pub start : Store → SummaryWriter
start st = record { queue = []; stopped = false; worker = running; store = st }

-- A full channel drops the summary.
unfoldable pub submit : RequestSummary → SummaryWriter → SummaryWriter
submit r w = if ltb (length w.queue) queue_size then record w { queue = w.queue ++ (r ∷ []) } else w

pub data Event : Type 0 where
  submitted : RequestSummary → Event  -- a request ends
  stopping : Event  -- shutdown closes `stop`
  took : ℕ → Bool → Event  -- the worker takes a summary, at this time; whether its insertion succeeds
  saw_stop : Event  -- its `select` takes `stop`
  found_empty : Event  -- its inner `select` takes `default`

abbrev pub is_ended : Worker → Bool
is_ended ended = true
is_ended _ = false

-- The error of an insertion is ignored, and its summary is lost.
abbrev pub inserted : ℕ → Bool → RequestSummary → Store → Store
inserted now true r st = add_request_summary now r st
inserted now false r st = st

abbrev pub take_from : ℕ → Bool → Worker → List RequestSummary → SummaryWriter → SummaryWriter
take_from now written ended rs w = w
take_from now written _ [] w = w
take_from now written _ (r ∷ rs) w = record w { queue = rs; store = inserted now written r w.store }

abbrev pub after_stop : Worker → Bool → Worker
after_stop running true = draining
after_stop k _ = k

abbrev pub after_empty : Worker → List RequestSummary → Worker
after_empty draining [] = ended
after_empty k _ = k

unfoldable pub write_step : Event → SummaryWriter → SummaryWriter
unfolding submit add_request_summary
write_step (submitted r) w = submit r w
write_step stopping w = record w { stopped = true }
write_step (took now written) w = take_from now written w.worker w.queue w
write_step saw_stop w = record w { worker = after_stop w.worker w.stopped }
write_step found_empty w = record w { worker = after_empty w.worker w.queue }

unfoldable pub write_run : List Event → SummaryWriter → SummaryWriter
unfolding write_step
write_run [] w = w
write_run (e ∷ es) w = write_run es (write_step e w)

-- The parts of Server for the retention loop; `looping` says that `retentionStop` is there, `closed`
-- that it is closed.
pub record Keeper : Type 0 where
  pub store : Option Store
  pub keep_prompt : Bool
  pub retention_days : ℤ
  pub looping : Bool
  pub closed : Bool

abbrev pub has_store : Option Store → Bool
has_store none = false
has_store (some st) = true

-- The goroutine's first prune is an event of its own.
unfoldable pub start_retention : Keeper → Keeper
start_retention k =
    if has_store k.store && is_positive k.retention_days && not k.looping
    then record k { looping = true }
    else k

-- The writer that SetStore makes for a store is the one of `start`.
unfoldable pub set_store : Option Store → Keeper → Keeper
unfolding start_retention
set_store none k = record k { store = none }
set_store (some st) k = start_retention (record k { store = some st })

unfoldable pub set_retention : Bool → ℤ → Keeper → Keeper
unfolding start_retention
set_retention keep days k = start_retention (record k { keep_prompt = keep; retention_days = days })

module _ (stamp : ℕ → List ℕ) (add_date : ℕ → ℤ → ℕ) where
  -- The closure `prune`: when each deletion reads the clock, and whether its statement succeeds.
  -- `add_date now days` lies that many days before now.
  unfoldable pub prune : ℕ × Bool → ℕ × Bool → ℤ → Store → Store
  unfolding prune_audit prune_request_summaries
  prune (now, true) (later, true) days st =
      prune_request_summaries stamp days (add_date later days)
        (prune_audit stamp days (add_date now days) st)
  prune (now, true) (later, false) days st = prune_audit stamp days (add_date now days) st
  prune (now, false) second days st = st

  abbrev pub prune_stored : ℕ × Bool → ℕ × Bool → ℤ → Option Store → Option Store
  prune_stored first second days none = none
  prune_stored first second days (some st) = some (prune first second days st)

  -- A prune of the loop, at its start or at a tick.
  unfoldable pub retention_tick : ℕ × Bool → ℕ × Bool → Keeper → Keeper
  unfolding prune
  retention_tick first second k =
      if k.looping && not k.closed
      then record k { store = prune_stored first second k.retention_days k.store }
      else k

-- The first half of Close.
unfoldable pub close_retention : Keeper → Keeper
close_retention k = if k.looping then record k { closed = true } else k
