-- ===== src/Relay/Connection/Owners.antt =====
-- The connections of internal/relay/wss.go against what they promise: a table of owners.
use mathlib.Core.Path.{fun_ext}
use mathlib.Core.Bool.{false≢true}
use modelrelay.Base.{
  ℕ, ◌+◌, ◌≡◌, refl, sym, ap, subst, ◌∙◌, ◌≢◌, inl, inr, Bool, true, false, ◌&&◌, String, List, [],
  ◌∷◌, Option, none, some, arith, ==_refl, lookup, string_eq, lookup-delete, Bool-cases,
  Option-cases, if◌then◌else◌,
}
use modelrelay.Relay.Node.{offline, Node}
use modelrelay.Relay.Registry.{Registry, at, try_register, get, remove}
use modelrelay.Relay.Registry.Identity.{accepted, refused, try_register-Tried, is_pointer}
use modelrelay.Relay.Connection.{
  RelayState, conns_put, conns_del, set_node_state, teardown, allocate, accept, kick_node, Event,
  connects, disconnects, beats, ticks, limits, drains, kicks, step,
}
use modelrelay.Relay.Connection.Ownership.{Inv, forget_offline, teardown-other, teardown-own}
use modelrelay.Relay.Connection.History.{
  IsNew, allocate-at, allocate-Inv, put-Inv, accept-taken, accept-free,
}
use modelrelay.Relay.Connection.Steps.{IsAllowed, step-Inv}
use modelrelay.Relay.Connection.Kept.{
  run, AreAllowed, new_server, is_pointer-true, drain-keeps, allocate-get, new_server-Inv,
}

-- Who serves an id. Nothing else of the server shows to the rest of the program.
abbrev pub Owners : Type 0
Owners = String → Option ℕ

abbrev pub is_free : Option ℕ → Bool
is_free none = true
is_free (some p) = false

-- The promise: an id goes to the first connection that asks for it and is acknowledged, and is free
-- again when that connection ends or the id is kicked.
abbrev pub owners_step : Owners → Event → Owners
owners_step owner (connects p n acked) =
    λ id. if string_eq.eqb n.id id && (acked && is_free (owner n.id)) then some p else owner id
owners_step owner (disconnects p) = λ id. if is_pointer p (owner id) then none else owner id
owners_step owner (kicks other) = λ id. if string_eq.eqb other id then none else owner id
owners_step owner _ = owner

unfoldable pub owners_run : Owners → List Event → Owners
owners_run owner [] = owner
owners_run owner (e ∷ es) = owners_run (owners_step owner e) es

abbrev pub owners : RelayState → Owners
owners s = get s.registry

forgotten :
    (q : ℕ) (s : RelayState) (id : String)
    → Inv s
    → get s.registry (s.registry.heap q).id ≡ some q
    → owners (forget_offline (s.registry.heap q).id q s) id
      ≡ (if is_pointer q (owners s id) then none else owners s id)
unfolding forget_offline get remove at
forgotten q s id v own = elim (Bool-cases (string_eq.eqb (s.registry.heap q).id id)) [
  | inl same ↦
      let e = (string_eq.eqb_iff (s.registry.heap q).id id).0 same in
      let here : lookup id s.registry.nodes ≡ some q =
        subst (λ i. lookup i s.registry.nodes ≡ some q) e own in
      rw (lookup-delete (s.registry.heap q).id id s.registry.nodes, same, here, ==_refl q)
  | inr apart ↦
      rw (lookup-delete (s.registry.heap q).id id s.registry.nodes, apart)
        (ground (arith, v.keyed id q, string_eq.eqb_iff (s.registry.heap q).id id))
]

foreign :
    (q : ℕ) (s : RelayState) (id : String)
    → Inv s
    → is_pointer q (get s.registry (s.registry.heap q).id) ≡ false
    → is_pointer q (get s.registry id) ≡ false
foreign q s id v other = elim (Bool-cases (is_pointer q (get s.registry id))) [
  | inr apart ↦ apart
  | inl mine ↦
      let e = v.keyed id q (is_pointer-true q _ mine) in
      absurd
        (false≢true (sym (subst (λ i. is_pointer q (get s.registry i) ≡ false) e other) ∙ mine))
]

teardown-owners :
    (q : ℕ) (s : RelayState) (id : String)
    → Inv s
    → owners (teardown q s) id ≡ (if is_pointer q (owners s id) then none else owners s id)
teardown-owners q s id v =
    elim (Bool-cases (is_pointer q (get s.registry (s.registry.heap q).id))) [
      | inl mine ↦
          let own = is_pointer-true q _ mine in rw (teardown-own q s v own) (forgotten q s id v own)
      | inr other ↦ rw (teardown-other q s other, foreign q s id v other)
    ]

kick-owners :
    (other id : String) (s : RelayState)
    → owners (kick_node other s).0 id ≡ (if string_eq.eqb other id then none else owners s id)
unfolding kick_node get remove set_node_state conns_del at
kick-owners other id s = elim (Option-cases (get s.registry other)) [
  | inl unknown ↦ rw (kick_node, unknown) (no_entry unknown)
  | inr (p, found) ↦ elim (Option-cases (lookup other s.conns)) [
    | inl away ↦ rw (kick_node, found, away) (lookup-delete other id s.registry.nodes)
    | inr (c, open_still) ↦
        rw (kick_node, found, open_still) (lookup-delete other id s.registry.nodes)
  ]
]
  where
    no_entry :
        get s.registry other ≡ none
        → owners s id ≡ (if string_eq.eqb other id then none else owners s id)
    no_entry unknown = elim (Bool-cases (string_eq.eqb other id)) [
      | inl same ↦ rw same (
          subst (λ i. lookup i s.registry.nodes ≡ none) ((string_eq.eqb_iff other id).0 same)
            unknown)
      | inr apart ↦ rw apart
    ]

-- The registration of a node, and its teardown if the acknowledgement fails.
module _ (q : ℕ) (n : Node) (s : RelayState) (v : Inv s) (new : IsNew s q n) where
  node_id : ((allocate q n s).registry.heap q).id ≡ n.id
  node_id = ap (λ m. m.id) (allocate-at q n s)

  -- What the registration leaves, when the id was free.
  registered-owners :
      (r : Registry) (id : String)
      → owners s n.id ≡ none
      → get r n.id ≡ some q
      → (n.id ≢ id → get r id ≡ owners s id)
      → get r id ≡ (if string_eq.eqb n.id id then some q else owners s id)
  registered-owners r id free own others = elim (Bool-cases (string_eq.eqb n.id id)) [
    | inl same ↦ rw same (subst (λ i. get r i ≡ some q) ((string_eq.eqb_iff n.id id).0 same) own)
    | inr apart ↦ rw apart (others (λ e. false≢true (sym apart ∙ (string_eq.eqb_iff n.id id).1 e)))
  ]

  finished :
      (u : RelayState) (acked : Bool) (id : String)
      → Inv u
      → owners s n.id ≡ none
      → owners u id ≡ (if string_eq.eqb n.id id then some q else owners s id)
      → owners (if acked then record u { nodes_online = u.nodes_online + 1 } else teardown q u) id
        ≡ owners_step (owners s) (connects q n acked) id
  finished u true id w free e = rw free (ground (arith, e))
  finished u false id w free e = elim (Bool-cases (string_eq.eqb n.id id)) [
    | inl same ↦
        let here : owners s id ≡ none =
          subst (λ i. owners s i ≡ none) ((string_eq.eqb_iff n.id id).0 same) free in
        rw (teardown-owners q u id w, e, same, ==_refl q, here)
    | inr apart ↦ rw (teardown-owners q u id w, e, apart, not_owned id)
  ]
    where
      not_owned : (id : String) → is_pointer q (owners s id) ≡ false
      not_owned id = elim (Bool-cases (is_pointer q (owners s id))) [
        | inl mine ↦ absurd (new.0 id (is_pointer-true q _ mine))
        | inr other ↦ other
      ]

  accept-owners :
      (acked : Bool) (id : String)
      → owners (accept q n acked s).0 id ≡ owners_step (owners s) (connects q n acked) id
  unfolding conns_put
  accept-owners acked id = elim (try_register-Tried q (allocate q n s).registry) [
    | refused old done same held up ↦
        let taken : owners s n.id ≡ some old =
          sym (allocate-get q n s n.id)
          ∙ subst (λ i. get (allocate q n s).registry i ≡ some old) node_id held in
        rw (accept-taken q n acked s r (ap (λ b. (r, b)) done), same) (rw taken (unchanged acked))
    | accepted done heap mine others free ↦
        let none_yet = unowned free in
        rw (accept-free q n acked s r (ap (λ b. (r, b)) done)) (
          finished (conns_put n.id q (record (allocate q n s) { registry = r })) acked id
            (put-Inv q n s new v r heap mine others) none_yet
            (registered-owners r id none_yet (subst (λ i. get r i ≡ some q) node_id mine) (λ ne.
              subst (λ i. i ≢ id → get r id ≡ get (allocate q n s).registry id) node_id (others id)
                ne
              ∙ allocate-get q n s id)))
  ]
    where
      r : Registry
      r = (try_register q (allocate q n s).registry).0

      unchanged :
          (acked : Bool)
          → owners (allocate q n s) id
            ≡ (if string_eq.eqb n.id id && (acked && false) then some q else owners s id)
      unchanged true = ground (arith, allocate-get q n s id)
      unchanged false = ground (arith, allocate-get q n s id)

      unowned :
          ((old : ℕ)
            → get (allocate q n s).registry ((allocate q n s).registry.heap q).id ≡ some old
            → ((allocate q n s).registry.heap old).state ≡ offline)
          → owners s n.id ≡ none
      unowned free =
          elim (Option-cases
            (get (allocate q n s).registry ((allocate q n s).registry.heap q).id)) [
              | inl none_yet ↦
                  sym (allocate-get q n s n.id)
                  ∙ subst (λ i. get (allocate q n s).registry i ≡ none) node_id none_yet
              | inr (old, held) ↦
                  absurd ((allocate-Inv q n s new v).alive _ old held (free old held))
            ]

-- One event of the server is one step of the table of owners.
step-owners :
    (s : RelayState) (e : Event) (id : String)
    → IsAllowed s e
    → Inv s
    → owners (step s e) id ≡ owners_step (owners s) e id
unfolding step at get
step-owners s (connects q n acked) id new v = accept-owners q n s v new acked id
step-owners s (disconnects q) id _ v = teardown-owners q s id v
step-owners s (beats q now seq local_ok) id _ v = refl
step-owners s (ticks q timeout now) id _ v = refl
step-owners s (limits q n) id _ v = refl
step-owners s (drains other sent) id _ v = ap (lookup id) (drain-keeps other sent s)
step-owners s (kicks other) id _ v = kick-owners other id s

run-owners :
    (s : RelayState) (es : List Event)
    → AreAllowed s es
    → Inv s
    → owners (run s es) ≡ owners_run (owners s) es
unfolding run owners_run
run-owners s [] allowed v = refl
run-owners s (e ∷ es) allowed v =
    run-owners (step s e) es allowed.1 (step-Inv s e allowed.0 v)
    ∙ ap (λ t. owners_run t es) (fun_ext (λ id. step-owners s e id allowed.0 v))

-- The registry, the connections and the states of the nodes implement the table of owners: after
-- any sequence of events from an empty server, in which each connection has a new node, every id
-- has the owner that the table gives it after the same events.
pub run-owners_new :
    (heap : ℕ → Node) (es : List Event)
    → AreAllowed (new_server heap) es
    → owners (run (new_server heap) es) ≡ owners_run (λ id. none) es
unfolding new_server get lookup
run-owners_new heap es allowed = run-owners (new_server heap) es allowed (new_server-Inv heap)
