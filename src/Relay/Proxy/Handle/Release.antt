-- ===== src/Relay/Proxy/Handle/Release.antt =====
-- Every exit of handleProxy (internal/relay/proxy.go) gives back what the request took.
use modelrelay.Base.{
  ℕ, ◌+◌, ◌*◌, ◌≤◌, ◌<◌, ◌≡◌, refl, ap, ◌∙◌, inl, inr, Bool, true, String, List, [], ◌∷◌, ◌++◌,
  Option, none, some, arith, ltb, length, lookup, delete, byte_list_eq, Bool-cases, if-cases,
  Result, ok, err,
}
use modelrelay.Protocol.Codes.{no_available_node}
use modelrelay.Relay.Node.{reserve}
use modelrelay.Relay.Registry.{at}
use modelrelay.Relay.Scheduler.Waiting.{IsTimed, poll_interval, wait_for_node-returns, WaitError}
use modelrelay.Relay.Forward.{Answer, ctx_done, Forward, forward, start}
use modelrelay.Relay.Pending.{new_pending_request, add, remove}
use modelrelay.Relay.Requests.{push}
use modelrelay.Relay.Proxy.{
  Server, ProxyConfig, AcquireError, full, timed_out, ended, RouteInfo, Inputs, Outcome, Externals,
  after, release_slot, release_node, remove_pending, refuse,
}
use modelrelay.Relay.Proxy.Handle.Settled.{
  IsReleased, Acquired, denied, granted, delete-insert, forward-ctx_done, released, counted,
  length-map, denied_too, acquire-Acquired,
}
use modelrelay.Relay.Proxy.Handle.{
  key_of, poll_of, capability_of, on_route, request_message, all_sent, transmit, proceed, exchange,
  on_node, on_selected, polls_of, admitted, route, request_record, record_request, handle_proxy,
  forwarded, lost,
}

-- The request's end is reached, and what it took since `s` is given back.
abbrev Ends : Server → Option Outcome → Type 0
Ends s r = (o : Outcome) × (r ≡ some o) × IsReleased s o.server

-- A request that is understood is counted and recorded once, as what it ended with.
abbrev pub IsLogged : Inputs → Result String RouteInfo → Server → Outcome → Type 0
IsLogged i (err message) s o = (o.server.total ≡ s.total) × (o.server.records ≡ s.records)
IsLogged i (ok info) s o =
    (o.server.total ≡ s.total + 1)
    × (o.server.records ≡ push (request_record i info.model o) s.records)

-- What the end of a request has given back.
abbrev pub IsSettled : Server → Server → Type 0
IsSettled s s' =
    (s'.sem ≡ s.sem)
    × (s'.waiting ≡ s.waiting)
    × (s'.pending ≡ s.pending)
    × ((q : ℕ) → s'.registry.heap q ≡ s.registry.heap q)

module _ (x : Externals) (cfg : ProxyConfig) (i : Inputs) (es : List Answer)
    (context_ends : i.answers ≡ es ++ (ctx_done ∷ [])) where
  transmit-Ends :
      (stream : Bool) (node : String) (s : Server) → Ends s (transmit x cfg i stream node s)
  unfolding transmit refuse lost forwarded request_message
  transmit-Ends stream node s = elim (Bool-cases i.request_sent) [
    | inr down ↦ rw (transmit, down) (_, refl, counted s s.success (s.failed + 1) s.canceled)
    | inl up ↦ elim (Bool-cases (all_sent x cfg i)) [
      | inr cut ↦
          rw (transmit, up, cut)
            (lost x cfg i stream node s, refl, counted s s.success (s.failed + 1) s.canceled)
      | inl whole ↦
          rw (transmit, up, whole, ends)
            (forwarded x cfg i stream node s answered, refl, counted s _ _ _)
    ]
  ]
    where
      answered : Forward
      answered =
          (forward x.error_body (start (ltb 0 cfg.ttft_timeout_ms) (ltb 0 cfg.idle_timeout_ms))
            i.answers).0

      ends :
          (forward x.error_body
            (start (ltb 0 cfg.ttft_timeout_ms) (ltb 0 cfg.idle_timeout_ms))
            i.answers).1
          ≡ true
      ends = rw context_ends (forward-ctx_done x.error_body _ es)

  pending_added : String → Server → Server
  pending_added node s = record s {
    pending = add (key_of x cfg i) (new_pending_request (x.bytes i.req_id) node) s.pending;
  }

  exchange-Ends :
      (stream : Bool) (node : String) (s : Server)
      → lookup (key_of x cfg i) s.pending ≡ none
      → Ends s (exchange x cfg i stream node s)
  unfolding exchange remove_pending pending_added add remove after
  exchange-Ends stream node s new =
      let (o, done, r) = transmit-Ends stream node (pending_added node s) in
      (
        remove_pending (key_of x cfg i) o,
        rw done refl,
        record {
          sem = r.sem;
          waiting = r.waiting;
          pending = ap (delete (key_of x cfg i)) r.pending ∙ delete-insert _ _ s.pending new;
          nodes = r.nodes;
          heap = r.heap;
          total = r.total;
          records = r.records;
        },
      )

  on_node-Ends :
      (stream : Bool) (p : ℕ) (s : Server)
      → lookup (key_of x cfg i) s.pending ≡ none
      → Ends s (on_node x cfg i stream p s)
  unfolding on_node refuse release_node after at
  on_node-Ends stream p s new =
      if-cases (Ends s) (reserve (s.registry.heap p)).1
        (λ free.
          let n = (reserve (s.registry.heap p)).0 in
          let (o, done, r) =
            exchange-Ends stream n.id (record s { registry = at p (λ _. n) s.registry }) new in
          (
            release_node p o,
            rw done refl,
            record {
              sem = r.sem;
              waiting = r.waiting;
              pending = r.pending;
              nodes = r.nodes;
              heap = λ q. released (s.registry) p q o.server.registry free r.heap;
              total = r.total;
              records = r.records;
            },
          ))
        (λ _. (
          refuse x.error_body 503 no_available_node "node capacity changed"
              (reserve (s.registry.heap p)).0.id s,
          refl,
          counted s s.success (s.failed + 1) s.canceled,
        ))

  on_selected-Ends :
      (stream : Bool) (s : Server) (y : Result WaitError ℕ)
      → lookup (key_of x cfg i) s.pending ≡ none
      → Ends s (on_selected x cfg i stream s (some y))
  unfolding refuse
  on_selected-Ends stream s (ok p) new = on_node-Ends stream p s new
  on_selected-Ends stream s (err e) new = (_, refl, counted s s.success (s.failed + 1) s.canceled)

  proceed-Ends :
      (begin k : ℕ) (info : RouteInfo) (s : Server) (r : Server × Result AcquireError (Unit {0}))
      → IsTimed i.deadline begin (polls_of x cfg i info)
      → i.deadline ≤ begin + poll_interval * k
      → k < length (polls_of x cfg i info)
      → lookup (key_of x cfg i) s.pending ≡ none
      → Acquired s r
      → Ends s (proceed x cfg i info r)
  unfolding proceed after refuse
  proceed-Ends begin k info s _ timed late enough new (denied full s' r) =
      (_, refl, denied_too s s' r)
  proceed-Ends begin k info s _ timed late enough new (denied timed_out s' r) =
      (_, refl, denied_too s s' r)
  proceed-Ends begin k info s _ timed late enough new (denied ended s' r) =
      (_, refl, denied_too s s' r)
  proceed-Ends begin k info s _ timed late enough new (granted w same) =
      let (y, chosen) =
        wait_for_node-returns i.deadline begin k (polls_of x cfg i info) timed late enough in
      let s' = record s { sem = s.sem + 1; waiting = w } in
      let (o, done, r) = on_selected-Ends info.stream s' y new in
      (
        release_slot o,
        rw (chosen, done) refl,
        record {
          sem = omega (arith, r.sem);
          waiting = r.waiting ∙ same;
          pending = r.pending;
          nodes = r.nodes;
          heap = r.heap;
          total = r.total;
          records = r.records;
        },
      )

  admitted-Ends :
      (begin k : ℕ) (info : RouteInfo) (s : Server)
      → IsTimed i.deadline begin (polls_of x cfg i info)
      → i.deadline ≤ begin + poll_interval * k
      → k < length (polls_of x cfg i info)
      → lookup (key_of x cfg i) s.pending ≡ none
      → Ends s (admitted x cfg i info s)
  unfolding admitted
  admitted-Ends begin k info s timed late enough new =
      proceed-Ends begin k info s _ timed late enough new (acquire-Acquired cfg i.wake s)

  on_route-ends :
      (begin k : ℕ) (s : Server) (y : Result String RouteInfo)
      → ((info : RouteInfo) → IsTimed i.deadline begin (polls_of x cfg i info))
      → i.deadline ≤ begin + poll_interval * k
      → k < length i.looks
      → lookup (key_of x cfg i) s.pending ≡ none
      → (o : Outcome) × (on_route x cfg i s y ≡ some o) × IsSettled s o.server × IsLogged i y s o
  unfolding on_route record_request request_record after
  on_route-ends begin k s (err message) timed late enough new =
      (_, refl, (refl, refl, refl, λ q. refl), (refl, refl))
  on_route-ends begin k s (ok info) timed late enough new =
      let s₁ = record s { total = s.total + 1 } in
      let (o, done, r) =
        admitted-Ends begin k info s₁ (timed info) late
          (omega (
            arith,
            length-map (poll_of x.float64 info.model (capability_of i.method i.path info.stream))
                i.looks,
          ))
          new in
      (
        record_request i info.model o,
        rw done refl,
        (r.sem, r.waiting, r.pending, r.heap),
        (r.total, ap (push (request_record i info.model o)) r.records),
      )

  -- Whatever happens to a request, handleProxy returns, provided that the rounds of WaitForNode go
  -- past its deadline by the clock, that the context ends at some time, and that no other request
  -- has its id. Then it has given back its slot, its place in the queue, its place on the node and
  -- its entry of the pending requests. A request that is understood is counted once and recorded
  -- once, with the status, the error and the node that it ended with; one that is not leaves the
  -- count and the records.
  pub handle_proxy-ends :
      (begin k : ℕ) (s : Server)
      → ((info : RouteInfo) → IsTimed i.deadline begin (polls_of x cfg i info))
      → i.deadline ≤ begin + poll_interval * k
      → k < length i.looks
      → lookup (key_of x cfg i) s.pending ≡ none
      → (o : Outcome) × (handle_proxy x cfg i s ≡ some o)
        × IsSettled s o.server
        × IsLogged i (route x cfg i) s o
  unfolding handle_proxy
  handle_proxy-ends begin k s timed late enough new =
      on_route-ends begin k s (route x cfg i) timed late enough new
