-- ===== src/Relay/Connection/History.antt =====
-- Any history of connections, heartbeats, drains and kicks (internal/relay/wss.go).
use mathlib.Core.Bool.{false≢true}
use modelrelay.Base.{
  ℕ, ◌+◌, ◌≡◌, refl, sym, ap, subst, ◌∙◌, ◌≢◌, ◌⊎◌, inl, inr, Bool, true, false, String, Option,
  some, arith, ==_refl, string_eq, lookup-insert, Bool-cases, Option-cases, if◌then◌else◌, Result,
  err,
}
use modelrelay.Relay.Node.{draining, offline, Node, set_state, snapshot}
use modelrelay.Relay.Registry.{Registry, at, try_register, get}
use modelrelay.Relay.Registry.Identity.{accepted, refused, try_register-Tried, is_pointer}
use modelrelay.Relay.Connection.{
  RelayState, conns_put, teardown, allocate, accept, drain_node, kick_node, set_node_state,
  conns_del, is_drainable, send_to_node, not_drainable, ControlError,
}
use modelrelay.Relay.Connection.Ownership.{
  Inv, at-Inv, at_fresh-Inv, forget_offline, forget_offline-Inv, teardown-other, teardown-own,
}

-- Only `nodes_online` and `nodes_offline` differ.
abbrev Same : RelayState → RelayState → Type 0
Same s t = (s.registry ≡ t.registry) × (s.conns ≡ t.conns)

Same-Inv : (s t : RelayState) → Same s t → Inv t → Inv s
unfolding get
Same-Inv s t e v = record {
  keyed = rw e.0 v.keyed;
  alive = rw e.0 v.alive;
  agree = rw (e.0, e.1) v.agree;
}

pub teardown-Inv : (p : ℕ) (s : RelayState) → Inv s → Inv (teardown p s)
teardown-Inv p s v = elim (Bool-cases (is_pointer p (get s.registry (s.registry.heap p).id))) [
  | inr other ↦ rw (teardown-other p s other) v
  | inl own ↦
      let e : get s.registry (s.registry.heap p).id ≡ some p = pointer own in
      rw (teardown-own p s v e) (
        Same-Inv _ (forget_offline (s.registry.heap p).id p s) (refl, refl)
          (forget_offline-Inv (s.registry.heap p).id p s v e))
]
  where
    pointer : {o : Option ℕ} → is_pointer p o ≡ true → o ≡ some p
    pointer {o} h = ground arith

-- The registration of a node that no id leads to yet.
module _ (p : ℕ) (s : RelayState) (r : Registry) (v : Inv s) (heap : r.heap ≡ s.registry.heap)
    (own : get r (s.registry.heap p).id ≡ some p)
    (others : (id : String) → (s.registry.heap p).id ≢ id → get r id ≡ get s.registry id)
    (up : (s.registry.heap p).state ≢ offline) where
  own-or-other :
      (id : String)
      → ((string_eq.eqb (s.registry.heap p).id id ≡ true)
          × ((s.registry.heap p).id ≡ id)
          × (get r id ≡ some p))
        ⊎ ((string_eq.eqb (s.registry.heap p).id id ≡ false) × (get r id ≡ get s.registry id))
  own-or-other id = elim (Bool-cases (string_eq.eqb (s.registry.heap p).id id)) [
    | inl same ↦
        let e = (string_eq.eqb_iff (s.registry.heap p).id id).0 same in
        inl (same, e, subst (λ i. get r i ≡ some p) e own)
    | inr other ↦
        inr (other, others id (λ e. false≢true (sym other ∙ (string_eq.eqb_iff _ id).1 e)))
  ]

  registered-Inv : Inv (conns_put (s.registry.heap p).id p (record s { registry = r }))
  unfolding conns_put
  registered-Inv = record {
    keyed = λ id q e. elim (own-or-other id) [
      | inl (same, k, g) ↦ ground (arith, ap (λ h. h q) heap)
      | inr (other, g) ↦ ground (arith, ap (λ h. h q) heap, v.keyed id q)
    ];
    alive = λ id q e. elim (own-or-other id) [
      | inl (same, k, g) ↦ ground (arith, ap (λ h. h q) heap, up)
      | inr (other, g) ↦ ground (arith, ap (λ h. h q) heap, v.alive id q)
    ];
    agree = λ id. elim (own-or-other id) [
      | inl (same, k, g) ↦ ground (arith, lookup-insert (s.registry.heap p).id id p s.conns)
      | inr (other, g) ↦
          ground (arith, lookup-insert (s.registry.heap p).id id p s.conns, v.agree id)
    ];
  }

-- A new node has an address that no id leads to, and is not offline (handleConnect sets it online).
abbrev pub IsNew : RelayState → ℕ → Node → Type 0
IsNew s p n = ((id : String) → get s.registry id ≢ some p) × (n.state ≢ offline)

pub allocate-Inv : (p : ℕ) (n : Node) (s : RelayState) → IsNew s p n → Inv s → Inv (allocate p n s)
unfolding allocate
allocate-Inv p n s new v = at_fresh-Inv p (λ _. n) s new.0 v

pub allocate-at : (p : ℕ) (n : Node) (s : RelayState) → (allocate p n s).registry.heap p ≡ n
unfolding allocate at
allocate-at p n s = rw (==_refl p)

pub accept-taken :
    (p : ℕ) (n : Node) (acked : Bool) (s : RelayState) (r : Registry)
    → try_register p (allocate p n s).registry ≡ (r, false)
    → (accept p n acked s).0 ≡ record (allocate p n s) { registry = r }
unfolding accept
accept-taken p n acked s r e = rw e

pub accept-free :
    (p : ℕ) (n : Node) (acked : Bool) (s : RelayState) (r : Registry)
    → try_register p (allocate p n s).registry ≡ (r, true)
    → let s₂ = conns_put n.id p (record (allocate p n s) { registry = r }) in
      (accept p n acked s).0
      ≡ (if acked then record s₂ { nodes_online = s₂.nodes_online + 1 } else teardown p s₂)
unfolding accept
accept-free p n true s r e = rw e
accept-free p n false s r e = rw e

module _ (p : ℕ) (n : Node) (s : RelayState) (new : IsNew s p n) (v : Inv s) where
  pub put-Inv :
      (r : Registry)
      → r.heap ≡ (allocate p n s).registry.heap
      → get r ((allocate p n s).registry.heap p).id ≡ some p
      → ((id : String)
          → ((allocate p n s).registry.heap p).id ≢ id
          → get r id ≡ get (allocate p n s).registry id)
      → Inv (conns_put n.id p (record (allocate p n s) { registry = r }))
  put-Inv r heap own others =
      subst (λ i. Inv (conns_put i p (record (allocate p n s) { registry = r })))
        (ap (λ m. m.id) (allocate-at p n s))
        (registered-Inv p (allocate p n s) r (allocate-Inv p n s new v) heap own others
          (subst (λ m. m.state ≢ offline) (sym (allocate-at p n s)) new.1))

  pub accept-Inv : (acked : Bool) → Inv (accept p n acked s).0
  accept-Inv acked = elim (try_register-Tried p (allocate p n s).registry) [
    | accepted done heap own others free ↦
        rw
          (accept-free p n acked s _
            (ap (λ b. ((try_register p (allocate p n s).registry).0, b)) done))
          (finished acked (put-Inv _ heap own others))
    | refused old done same held up ↦
        rw
          (
            accept-taken p n acked s _
                (ap (λ b. ((try_register p (allocate p n s).registry).0, b)) done),
            same,
          )
          (allocate-Inv p n s new v)
  ]
    where
      finished :
          {t : RelayState} (b : Bool)
          → Inv t
          → Inv (if b then record t { nodes_online = t.nodes_online + 1 } else teardown p t)
      finished {t} true w = Same-Inv _ t (refl, refl) w
      finished {t} false w = teardown-Inv p t w

pub drain-Inv : (id : String) (sent : Bool) (s : RelayState) → Inv s → Inv (drain_node id sent s).0
unfolding drain_node set_node_state set_state
drain-Inv id sent s v = elim (Option-cases (get s.registry id)) [
  | inl unknown ↦ rw (drain_node, unknown) v
  | inr (p, found) ↦
      rw (drain_node, found) (drained p (is_drainable (snapshot (s.registry.heap p)).state))
]
  where
    Answer : Type 0
    Answer = RelayState × Result ControlError Unit

    outcome : ℕ → Bool → Answer
    outcome p b =
        if b
        then (record s { registry = at p (set_state draining) s.registry }, send_to_node s id sent)
        else (s, err not_drainable)

    drained : (p : ℕ) (b : Bool) → Inv (outcome p b).0
    drained p true = at-Inv p (set_state draining) s (λ n. refl) (λ n h. λ e. cc) v
    drained p false = v

pub kick-Inv : (id : String) (s : RelayState) → Inv s → Inv (kick_node id s).0
unfolding kick_node set_node_state conns_del forget_offline
kick-Inv id s v = elim (Option-cases (get s.registry id)) [
  | inl unknown ↦ rw (kick_node, unknown) v
  | inr (p, found) ↦ rw (kick_node, found, v.agree id ∙ found) (forget_offline-Inv id p s v found)
]
