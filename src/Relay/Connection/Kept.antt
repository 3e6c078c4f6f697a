-- ===== src/Relay/Connection/Kept.antt =====
-- Runs of the server and the node that an id leads to in them (internal/relay/wss.go).
use modelrelay.Base.{
  ℕ, ◌+◌, ◌≡◌, refl, sym, ap, subst, ◌∙◌, ◌≢◌, inl, inr, Bool, true, false, String, List, [], ◌∷◌,
  Option, some, arith, lookup, string_eq, lookup-delete_ne, eqb_false, Bool-cases, Option-cases,
  if◌then◌else◌,
}
use modelrelay.Relay.Node.{Node, snapshot}
use modelrelay.Relay.Registry.{at, try_register, get, remove}
use modelrelay.Relay.Registry.Identity.{accepted, refused, try_register-Tried, is_pointer}
use modelrelay.Relay.Connection.{
  RelayState, conns_put, conns_del, set_node_state, teardown, allocate, accept, drain_node,
  kick_node, is_drainable, Event, connects, disconnects, beats, ticks, limits, drains, kicks, step,
}
use modelrelay.Relay.Connection.Ownership.{Inv, forget_offline, teardown-other, teardown-own}
use modelrelay.Relay.Connection.History.{IsNew, allocate-Inv, put-Inv, accept-taken, accept-free}
use modelrelay.Relay.Connection.Steps.{IsAllowed, step-Inv}

unfoldable pub run : RelayState → List Event → RelayState
run s [] = s
run s (e ∷ es) = run (step s e) es

-- Every connection of the run has a new node.
abbrev pub AreAllowed : RelayState → List Event → Type 0
AreAllowed s [] = Unit
AreAllowed s (e ∷ es) = IsAllowed s e × AreAllowed (step s e) es

-- The state of NewServer, whatever the heap holds.
unfoldable pub new_server : (ℕ → Node) → RelayState
new_server heap = record {
  registry = record { heap = heap; nodes = [] };
  conns = [];
  nodes_online = 0;
  nodes_offline = 0;
}

pub new_server-Inv : (heap : ℕ → Node) → Inv (new_server heap)
unfolding new_server get lookup
new_server-Inv heap = record { keyed = λ id p e. cc; alive = λ id p e. cc; agree = λ id. refl }

run-Inv : (s : RelayState) (es : List Event) → AreAllowed s es → Inv s → Inv (run s es)
unfolding run
run-Inv s [] h v = v
run-Inv s (e ∷ es) h v = run-Inv (step s e) es h.1 (step-Inv s e h.0 v)

-- After any sequence of connections, disconnections, heartbeats, monitor ticks, drains and kicks, none
-- of which comes between the locked calls of another, that starts from an empty server and gives each
-- connection a new node: every id leads to a node
-- of that id that is not offline, and the connection kept for the id is that node's.
run-Inv_new :
    (heap : ℕ → Node) (es : List Event)
    → AreAllowed (new_server heap) es
    → Inv (run (new_server heap) es)
run-Inv_new heap es h = run-Inv (new_server heap) es h (new_server-Inv heap)

-- What ends the ownership of an id.
abbrev pub EndsIt : String → ℕ → Event → Type 0
EndsIt id p (disconnects q) = q ≡ p
EndsIt id p (kicks other) = other ≡ id
EndsIt id p _ = ⊥

eqb_ne : (a b : String) → a ≢ b → string_eq.eqb a b ≡ false
eqb_ne a b = eqb_false a b

pub is_pointer-true : (p : ℕ) (o : Option ℕ) → is_pointer p o ≡ true → o ≡ some p
is_pointer-true p o h = ground arith

forget_offline-keeps :
    (id other : String) (p q : ℕ) (s : RelayState)
    → other ≢ id
    → get (forget_offline other q s).registry id ≡ get s.registry id
unfolding forget_offline get remove at
forget_offline-keeps id other p q s ne = lookup-delete_ne other id s.registry.nodes ne

teardown-keeps :
    (id : String) (p q : ℕ) (s : RelayState)
    → Inv s
    → q ≢ p
    → get s.registry id ≡ some p
    → get (teardown q s).registry id ≡ some p
teardown-keeps id p q s v ne own =
    elim (Bool-cases (is_pointer q (get s.registry (s.registry.heap q).id))) [
      | inr other ↦ rw (teardown-other q s other) own
      | inl mine ↦
          let e = is_pointer-true q _ mine in
          rw (teardown-own q s v e) (
            forget_offline-keeps id (s.registry.heap q).id p q s (λ same.
              ne (some-injective (sym (subst (λ i. get s.registry i ≡ some q) same e) ∙ own)))
            ∙ own)
    ]
  where
    some-injective : {a b : ℕ} → some a ≡ some b → a ≡ b
    some-injective h = ground arith

pub drain-keeps :
    (id : String) (sent : Bool) (s : RelayState)
    → (drain_node id sent s).0.registry.nodes ≡ s.registry.nodes
unfolding drain_node set_node_state at
drain-keeps id sent s = elim (Option-cases (get s.registry id)) [
  | inl unknown ↦ rw (drain_node, unknown)
  | inr (p, found) ↦ elim (Bool-cases (is_drainable (snapshot (s.registry.heap p)).state)) [
    | inl takes ↦ rw (drain_node, found, takes)
    | inr busy ↦ rw (drain_node, found, busy)
  ]
]

kick-keeps :
    (id other : String) (p : ℕ) (s : RelayState)
    → other ≢ id
    → get s.registry id ≡ some p
    → get (kick_node other s).0.registry id ≡ some p
unfolding kick_node get remove set_node_state conns_del at
kick-keeps id other p s ne own = elim (Option-cases (get s.registry other)) [
  | inl unknown ↦ rw (kick_node, unknown) own
  | inr (q, found) ↦ elim (Option-cases (lookup other s.conns)) [
    | inl away ↦ rw (kick_node, found, away) (lookup-delete_ne other id s.registry.nodes ne ∙ own)
    | inr (c, open_still) ↦
        rw (kick_node, found, open_still) (lookup-delete_ne other id s.registry.nodes ne ∙ own)
  ]
]

pub allocate-get :
    (q : ℕ) (n : Node) (s : RelayState) (id : String)
    → get (allocate q n s).registry id ≡ get s.registry id
unfolding allocate at get
allocate-get q n s id = refl

-- Another connection under the id is refused while the node is registered and not offline.
accept-keeps :
    (id : String) (p q : ℕ) (n : Node) (acked : Bool) (s : RelayState)
    → Inv s
    → IsNew s q n
    → get s.registry id ≡ some p
    → get (accept q n acked s).0.registry id ≡ some p
unfolding conns_put try_register
accept-keeps id p q n acked s v new own = elim (try_register-Tried q t.registry) [
  | refused old done same held up ↦
      rw (accept-taken q n acked s _ (ap (λ b. ((try_register q t.registry).0, b)) done), same) kept
  | accepted done heap mine others free ↦
      let apart : (t.registry.heap q).id ≢ id = λ e.
        (allocate-Inv q n s new v).alive id p kept
          (free p (subst (λ i. get t.registry i ≡ some p) (sym e) kept)) in
      rw (accept-free q n acked s _ (ap (λ b. ((try_register q t.registry).0, b)) done))
        (finished acked (put-Inv q n s new v _ heap mine others) (others id apart ∙ kept))
]
  where
    t : RelayState
    t = allocate q n s

    kept : get t.registry id ≡ some p
    kept = allocate-get q n s id ∙ own

    finished :
        {u : RelayState} (b : Bool)
        → Inv u
        → get u.registry id ≡ some p
        → get
            (if b then record u { nodes_online = u.nodes_online + 1 } else teardown q u).registry
            id
          ≡ some p
    finished {u} true w h = h
    finished {u} false w h =
        teardown-keeps id p q u w
          (λ e. new.0 id (subst (λ i. get s.registry id ≡ some i) (sym e) own)) h

-- In a consistent state the node that holds an id keeps it through every event that is neither the
-- end of its own connection nor a kick of the id: in particular a second connection with a new node
-- under the id does not replace it.
step-keeps :
    (id : String) (p : ℕ) (s : RelayState) (e : Event)
    → IsAllowed s e
    → Inv s
    → ¬ EndsIt id p e
    → get s.registry id ≡ some p
    → get (step s e).registry id ≡ some p
unfolding step at get
step-keeps id p s (connects q n acked) new v _ own = accept-keeps id p q n acked s v new own
step-keeps id p s (disconnects q) _ v stays own = teardown-keeps id p q s v stays own
step-keeps id p s (beats q now seq local_ok) _ v _ own = own
step-keeps id p s (ticks q timeout now) _ v _ own = own
step-keeps id p s (limits q n) _ v _ own = own
step-keeps id p s (drains other sent) _ v _ own = ap (lookup id) (drain-keeps other sent s) ∙ own
step-keeps id p s (kicks other) _ v stays own = kick-keeps id other p s stays own
