-- ===== src/Relay/Persistence/Delivery.antt =====
-- What the background writer makes of the summaries that are submitted (internal/relay/requests.go).
use modelrelay.Base.{
  All, ℕ, ◌≤◌, ◌≡◌, refl, sym, ap, ◌∙◌, inl, inr, Bool, true, false, not, List, [], ◌∷◌, ◌++◌, map,
  append_assoc, append-nil, arith, ltb, length, length-append, if◌then◌else◌, Bool-cases,
}
use modelrelay.Store.Certs.{Store, RequestSummary}
use mathlib.Core.List.{map-append}
use modelrelay.Store.Logs.{add_request_summary}
use modelrelay.Relay.Persistence.{
  Worker, running, draining, ended, SummaryWriter, queue_size, start, submit, Event, submitted,
  stopping, took, saw_stop, found_empty, is_ended, take_from, after_stop, after_empty, write_step,
  write_run,
}

-- The insertion sets the time of a summary.
abbrev pub without_time : RequestSummary → RequestSummary
without_time r = record r { time = 0 }

abbrev pub untimed : List RequestSummary → List RequestSummary
untimed = map without_time

-- The summaries that find room in the channel while the worker lives, in their order.
abbrev accepted_one : Event → SummaryWriter → List RequestSummary
accepted_one (submitted r) w =
    if ltb (length w.queue) queue_size then (if not (is_ended w.worker) then r ∷ [] else []) else []
accepted_one _ w = []

unfoldable pub accepted : List Event → SummaryWriter → List RequestSummary
accepted [] w = []
accepted (e ∷ es) w = accepted_one e w ++ accepted es (write_step e w)

-- What the store has, and what the worker will still write.
abbrev pub left : Worker → List RequestSummary → List RequestSummary
left ended q = []
left _ q = untimed q

abbrev contents : SummaryWriter → List RequestSummary
contents w = untimed w.store.summaries ++ left w.worker w.queue

append_left :
    (rows rest : List RequestSummary) (r : RequestSummary) (now : ℕ)
    → untimed (rows ++ ((record r { time = now }) ∷ [])) ++ rest
      ≡ untimed rows ++ (without_time r ∷ rest)
append_left rows rest r now = simp (map-append, append_assoc)

take_from-contents :
    (now : ℕ) (k : Worker) (q : List RequestSummary) (w : SummaryWriter)
    → w.worker ≡ k
    → w.queue ≡ q
    → contents (take_from now true k q w) ≡ contents w
unfolding add_request_summary
take_from-contents now ended q w e f = refl
take_from-contents now running [] w e f = refl
take_from-contents now draining [] w e f = refl
take_from-contents now running (r ∷ rs) w e f =
    rw (e, f) (append_left w.store.summaries (untimed rs) r now)
take_from-contents now draining (r ∷ rs) w e f =
    rw (e, f) (append_left w.store.summaries (untimed rs) r now)

after_stop-left :
    (k : Worker) (b : Bool) (q : List RequestSummary) → left (after_stop k b) q ≡ left k q
after_stop-left running true q = refl
after_stop-left running false q = refl
after_stop-left draining b q = refl
after_stop-left ended b q = refl

after_empty-left : (k : Worker) (q : List RequestSummary) → left (after_empty k q) q ≡ left k q
after_empty-left running q = refl
after_empty-left draining [] = refl
after_empty-left draining (r ∷ rs) = refl
after_empty-left ended q = refl

-- A summary that is queued is left while the worker lives.
queued-left :
    (k : Worker) (q : List RequestSummary) (r : RequestSummary)
    → left k (q ++ (r ∷ [])) ≡ left k q ++ untimed (if not (is_ended k) then r ∷ [] else [])
queued-left running q r = map-append without_time q (r ∷ [])
queued-left draining q r = map-append without_time q (r ∷ [])
queued-left ended q r = refl

-- An insertion of the event, if any, succeeds.
abbrev pub IsInserted : Event → Type 0
IsInserted (took now written) = written ≡ true
IsInserted _ = Unit

write_step-contents :
    (e : Event) (w : SummaryWriter)
    → IsInserted e
    → contents (write_step e w) ≡ contents w ++ untimed (accepted_one e w)
unfolding write_step submit
write_step-contents (submitted r) w h = elim (Bool-cases (ltb (length w.queue) queue_size)) [
  | inl room ↦
      rw (room, queued-left w.worker w.queue r)
        (sym (
          append_assoc (untimed w.store.summaries) (left w.worker w.queue)
            (untimed (if not (is_ended w.worker) then r ∷ [] else []))))
  | inr no_room ↦ rw no_room (sym (append-nil (contents w)))
]
write_step-contents stopping w h = sym (append-nil _)
write_step-contents (took now false) w h = cc
write_step-contents (took now true) w h =
    take_from-contents now w.worker w.queue w refl refl ∙ sym (append-nil _)
write_step-contents saw_stop w h =
    ap (λ rest. untimed w.store.summaries ++ rest) (after_stop-left w.worker w.stopped w.queue)
    ∙ sym (append-nil _)
write_step-contents found_empty w h =
    ap (λ rest. untimed w.store.summaries ++ rest) (after_empty-left w.worker w.queue)
    ∙ sym (append-nil _)

write_run-contents :
    (es : List Event) (w : SummaryWriter)
    → All IsInserted es
    → contents (write_run es w) ≡ contents w ++ untimed (accepted es w)
unfolding write_run accepted
write_run-contents [] w h = sym (append-nil _)
write_run-contents (e ∷ es) w h =
    write_run-contents es (write_step e w) h.1
    ∙ ap (λ c. c ++ untimed (accepted es (write_step e w))) (write_step-contents e w h.0)
    ∙ simp (map-append, append_assoc)

take_from-queue :
    (now : ℕ) (b : Bool) (k : Worker) (q : List RequestSummary) (w : SummaryWriter)
    → length q ≤ queue_size
    → w.queue ≡ q
    → length (take_from now b k q w).queue ≤ queue_size
take_from-queue now b ended q w h f = rw f h
take_from-queue now b running [] w h f = rw f h
take_from-queue now b draining [] w h f = rw f h
take_from-queue now b running (r ∷ rs) w h f = omega (arith, h)
take_from-queue now b draining (r ∷ rs) w h f = omega (arith, h)

write_step-queue :
    (e : Event) (w : SummaryWriter)
    → length w.queue ≤ queue_size
    → length (write_step e w).queue ≤ queue_size
unfolding write_step submit
write_step-queue (submitted r) w h = ground (arith, length-append w.queue (r ∷ []))
write_step-queue stopping w h = h
write_step-queue (took now b) w h = take_from-queue now b w.worker w.queue w h refl
write_step-queue saw_stop w h = h
write_step-queue found_empty w h = h

write_run-queue :
    (es : List Event) (w : SummaryWriter)
    → length w.queue ≤ queue_size
    → length (write_run es w).queue ≤ queue_size
unfolding write_run
write_run-queue [] w h = h
write_run-queue (e ∷ es) w h = write_run-queue es (write_step e w) (write_step-queue e w h)

-- Whatever the requests, the worker and the shutdown do in whatever order, if every insertion of the
-- worker succeeds, the summaries that found room in the channel before the worker ended are those that
-- were added to the table and, unless the worker has ended, those in the channel, in the order of their
-- submission and but for the time that the insertion sets; the channel never holds more than 256.
pub write_run-accepted :
    (es : List Event) (st : Store)
    → All IsInserted es
    → let w = write_run es (start st) in
      (untimed w.store.summaries ++ left w.worker w.queue
        ≡ untimed st.summaries ++ untimed (accepted es (start st)))
      × (length w.queue ≤ queue_size)
write_run-accepted es st h = (
  write_run-contents es (start st) h
      ∙ ap (λ c. c ++ untimed (accepted es (start st))) (append-nil _),
  write_run-queue es (start st) (omega arith),
)

-- The worker takes what is queued, and finds the channel empty.
abbrev pub drains : ℕ → List RequestSummary → List Event
drains now [] = found_empty ∷ []
drains now (r ∷ rs) = took now true ∷ drains now rs

drained :
    (now : ℕ) (q : List RequestSummary) (w : SummaryWriter)
    → w.worker ≡ draining
    → w.queue ≡ q
    → ((write_run (drains now q) w).worker ≡ ended) × ((write_run (drains now q) w).queue ≡ [])
unfolding write_run write_step
drained now [] w e f = (rw (e, f), f)
drained now (r ∷ rs) w e f =
    let w' : SummaryWriter = record w { queue = rs; store = add_request_summary now r w.store } in
    let one_taken : take_from now true w.worker w.queue w ≡ w' =
      ap (λ k. take_from now true k w.queue w) e ∙ ap (λ q. take_from now true draining q w) f in
    rw (one_taken, write_run) (drained now rs w' e refl)

accepted-drains :
    (now : ℕ) (q : List RequestSummary) (w : SummaryWriter) → accepted (drains now q) w ≡ []
unfolding accepted
accepted-drains now [] w = refl
accepted-drains now (r ∷ rs) w = accepted-drains now rs (write_step (took now true) w)

drains-IsInserted : (now : ℕ) (q : List RequestSummary) → All IsInserted (drains now q)
drains-IsInserted now [] = (tt, tt)
drains-IsInserted now (r ∷ rs) = (refl, drains-IsInserted now rs)

-- The steps of a shutdown: `stop` is closed, the worker sees it and drains the channel.
abbrev pub shutdown : ℕ → SummaryWriter → List Event
shutdown now w = stopping ∷ saw_stop ∷ drains now w.queue

seen : (k : Worker) → is_ended k ≡ false → after_stop k true ≡ draining
seen running h = refl
seen draining h = refl
seen ended h = cc

drained_contents :
    (w : SummaryWriter) (rows : List RequestSummary)
    → w.worker ≡ ended
    → contents w ≡ rows
    → untimed w.store.summaries ≡ rows
drained_contents w rows e h =
    sym (append-nil (untimed w.store.summaries))
    ∙ sym (ap (λ k. untimed w.store.summaries ++ left k w.queue) e)
    ∙ h

left_alive : (k : Worker) (q : List RequestSummary) → is_ended k ≡ false → left k q ≡ untimed q
left_alive running q h = refl
left_alive draining q h = refl
left_alive ended q h = cc

shutdown-contents :
    (now : ℕ) (w : SummaryWriter)
    → is_ended w.worker ≡ false
    → contents (write_run (shutdown now w) w) ≡ untimed w.store.summaries ++ untimed w.queue
unfolding accepted
shutdown-contents now w h =
    write_run-contents (shutdown now w) w (tt, (tt, drains-IsInserted now w.queue))
    ∙ ap (λ rs. contents w ++ untimed rs) (accepted-drains now w.queue _)
    ∙ append-nil (contents w)
    ∙ ap (λ rest. untimed w.store.summaries ++ rest) (left_alive w.worker w.queue h)

-- A shutdown ends while no further summary is submitted and every insertion succeeds: if the worker
-- has not ended, then after
-- `stop` is closed and the worker has taken it and drained the channel, the worker has ended, the
-- channel is empty, and the table has in addition all that was queued, in order.
pub write_run-shutdown :
    (now : ℕ) (w : SummaryWriter)
    → is_ended w.worker ≡ false
    → let w' = write_run (shutdown now w) w in
      (w'.worker ≡ ended)
      × (w'.queue ≡ [])
      × (untimed w'.store.summaries ≡ untimed w.store.summaries ++ untimed w.queue)
unfolding write_run write_step
write_run-shutdown now w h =
    let w1 : SummaryWriter = record w { stopped = true; worker = after_stop w.worker true } in
    let (over, empty) = drained now w.queue w1 (seen w.worker h) refl in
    (
      over,
      empty,
      drained_contents (write_run (shutdown now w) w) _ over (shutdown-contents now w h),
    )
