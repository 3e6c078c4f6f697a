-- ===== src/Relay/Connection/Ownership.antt =====
-- Who owns a node id while connections come and go (internal/relay/wss.go, registry.go, server.go).
use modelrelay.Base.{
  ℕ, ◌+◌, ◌≡◌, ◌≢◌, false, String, none, some, arith, lookup, delete, string_eq, lookup-delete,
  if◌then◌else◌,
}
use modelrelay.Relay.Node.{offline, Node, set_state}
use modelrelay.Relay.Registry.{at, get, remove, remove_if_same}
use modelrelay.Relay.Registry.Identity.{IsKeyed, is_pointer}
use modelrelay.Relay.Connection.{RelayState, teardown}

-- Every id leads to a node of that id that is not offline, and its connection is that node's.
pub record Inv (s : RelayState) : Type 0 where
  pub keyed : IsKeyed s.registry
  pub alive :
      (id : String) (p : ℕ) → get s.registry id ≡ some p → (s.registry.heap p).state ≢ offline
  pub agree : (id : String) → lookup id s.conns ≡ get s.registry id

-- A change of one node's fields that keeps its id and does not set it offline.
pub at-Inv :
    (p : ℕ) (f : Node → Node) (s : RelayState)
    → ((n : Node) → (f n).id ≡ n.id)
    → ((n : Node) → n.state ≢ offline → (f n).state ≢ offline)
    → Inv s
    → Inv (record s { registry = at p f s.registry })
unfolding at get
at-Inv p f s same_id stays v = record {
  keyed = λ id q e. ground (arith, v.keyed id q, same_id (s.registry.heap q));
  alive = λ id q e. ground (arith, v.alive id q, stays (s.registry.heap q));
  agree = v.agree;
}

-- A change of a node to which no id leads.
pub at_fresh-Inv :
    (p : ℕ) (f : Node → Node) (s : RelayState)
    → ((id : String) → get s.registry id ≢ some p)
    → Inv s
    → Inv (record s { registry = at p f s.registry })
unfolding at get
at_fresh-Inv p f s fresh v = record {
  keyed = λ id q e. ground (arith, v.keyed id q, fresh id);
  alive = λ id q e. ground (arith, v.alive id q, fresh id);
  agree = v.agree;
}

-- Removing an id and its connection.
forget : String → RelayState → RelayState
forget id s = record s { registry = remove id s.registry; conns = delete id s.conns }

forget-get :
    (id other : String) (s : RelayState)
    → get (forget id s).registry other
      ≡ (if string_eq.eqb id other then none else get s.registry other)
unfolding forget remove get
forget-get id other s = lookup-delete id other s.registry.nodes

forget-Inv : (id : String) (s : RelayState) → Inv s → Inv (forget id s)
unfolding forget remove get
forget-Inv id s v = record {
  keyed = λ other q e. ground (arith, lookup-delete id other s.registry.nodes, v.keyed other q);
  alive = λ other q e. ground (arith, lookup-delete id other s.registry.nodes, v.alive other q);
  agree = λ other. ground (
    arith,
    lookup-delete id other s.registry.nodes,
    lookup-delete id other s.conns,
    v.agree other,
  );
}

-- After its own id is forgotten, no id leads to a node.
forget-fresh :
    (id : String) (p : ℕ) (s : RelayState)
    → Inv s
    → get s.registry id ≡ some p
    → (other : String) → get (forget id s).registry other ≢ some p
forget-fresh id p s v e other h =
    ground (arith, forget-get id other s, v.keyed id p, v.keyed other p, string_eq.eqb_iff id other)

unfoldable pub forget_offline : String → ℕ → RelayState → RelayState
forget_offline id p s = record s {
  registry = at p (set_state offline) (remove id s.registry);
  conns = delete id s.conns;
}

pub forget_offline-Inv :
    (id : String) (p : ℕ) (s : RelayState)
    → Inv s
    → get s.registry id ≡ some p
    → Inv (forget_offline id p s)
unfolding forget_offline
forget_offline-Inv id p s v e =
    unfold forget in
    at_fresh-Inv p (set_state offline) (forget id s) (forget-fresh id p s v e) (forget-Inv id s v)

-- Teardown: by the node's identity.
pub teardown-other :
    (p : ℕ) (s : RelayState)
    → is_pointer p (get s.registry (s.registry.heap p).id) ≡ false
    → teardown p s ≡ s
unfolding teardown remove_if_same get
teardown-other p s h = ground arith

pub teardown-own :
    (p : ℕ) (s : RelayState)
    → Inv s
    → get s.registry (s.registry.heap p).id ≡ some p
    → teardown p s
      ≡ record (forget_offline (s.registry.heap p).id p s) { nodes_offline = s.nodes_offline + 1 }
unfolding teardown remove_if_same get forget_offline
teardown-own p s v e = ground (arith, v.agree (s.registry.heap p).id)
