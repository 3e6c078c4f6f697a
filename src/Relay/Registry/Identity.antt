-- ===== src/Relay/Registry/Identity.antt =====
-- Who is registered under an id (internal/relay/registry.go).
use modelrelay.Base.{
  ℕ, ◌≡◌, refl, ◌≢◌, inl, inr, Bool, true, false, ◌&&◌, String, Option, none, some, arith, ◌==◌,
  string_eq, lookup-insert, lookup-insert_self, lookup-insert_ne, lookup-delete, Option-cases,
  Bool-cases, if◌then◌else◌,
}
use modelrelay.Relay.Node.{NodeState, offline, snapshot}
use modelrelay.Relay.Registry.{Registry, register, try_register, get, remove_if_same, is_offline}

-- What `TryRegister` does, in both outcomes.
pub data Tried (p : ℕ) (r r' : Registry) (done : Bool) : Type 0 where
  accepted :
      done ≡ true
      → r'.heap ≡ r.heap
      → get r' (r.heap p).id ≡ some p
      → ((id : String) → (r.heap p).id ≢ id → get r' id ≡ get r id)
      → ((old : ℕ) → get r (r.heap p).id ≡ some old → (r.heap old).state ≡ offline)
      → Tried p r r' done
  refused :
      (old : ℕ)
      → done ≡ false
      → r' ≡ r
      → get r (r.heap p).id ≡ some old
      → (r.heap old).state ≢ offline
      → Tried p r r' done

abbrev pub is_pointer : ℕ → Option ℕ → Bool
is_pointer p none = false
is_pointer p (some q) = q == p

is_offline-true : (s : NodeState) → is_offline s ≡ true → s ≡ offline
is_offline-true s h = ground arith

is_offline-false : (s : NodeState) → is_offline s ≡ false → s ≢ offline
is_offline-false s h e = ground arith

register-Tried :
    (p : ℕ) (r : Registry)
    → ((old : ℕ) → get r (r.heap p).id ≡ some old → (r.heap old).state ≡ offline)
    → Tried p r (register p r) true
unfolding register get
register-Tried p r free =
    accepted refl refl (lookup-insert_self (r.heap p).id p r.nodes)
      (λ id other. lookup-insert_ne (r.heap p).id id p r.nodes other) free

try_register-none :
    (p : ℕ) (r : Registry) → get r (r.heap p).id ≡ none → try_register p r ≡ (register p r, true)
unfolding try_register get
try_register-none p r e = ground (arith, e)

try_register-some :
    (p : ℕ) (r : Registry) (old : ℕ)
    → get r (r.heap p).id ≡ some old
    → try_register p r
      ≡ (if is_offline (r.heap old).state then (register p r, true) else (r, false))
unfolding try_register get snapshot
try_register-some p r old e = ground (arith, e)

-- A registration replaces at most a node that is offline, and touches no other id; a refused one
-- changes nothing and means that a node that is not offline holds the id.
pub try_register-Tried :
    (p : ℕ) (r : Registry) → Tried p r (try_register p r).0 (try_register p r).1
try_register-Tried p r = elim (Option-cases (get r (r.heap p).id)) [
  | inl e ↦ rw (try_register-none p r e) (register-Tried p r (λ old h. cc))
  | inr (old, e) ↦ elim (Bool-cases (is_offline (r.heap old).state)) [
    | inl gone ↦
        rw (try_register-some p r old e, gone)
          (register-Tried p r (λ q h. rw (same old q e h) (is_offline-true _ gone)))
    | inr there ↦
        rw (try_register-some p r old e, there) (refused old refl refl e (is_offline-false _ there))
  ]
]
  where
    same : (old q : ℕ) → get r (r.heap p).id ≡ some old → get r (r.heap p).id ≡ some q → q ≡ old
    same old q e h = ground arith

-- Every id leads to a node of that id.
abbrev pub IsKeyed : Registry → Type 0
IsKeyed r = (id : String) (p : ℕ) → get r id ≡ some p → (r.heap p).id ≡ id

register-IsKeyed : (p : ℕ) (r : Registry) → IsKeyed r → IsKeyed (register p r)
unfolding register get
register-IsKeyed p r k id q e =
    ground
      (arith, string_eq.eqb_iff (r.heap p).id id, lookup-insert (r.heap p).id id p r.nodes, k id q)

pub try_register-IsKeyed : (p : ℕ) (r : Registry) → IsKeyed r → IsKeyed (try_register p r).0
unfolding try_register get
try_register-IsKeyed p r k id q e = ground (arith, register-IsKeyed p r k id q, k id q)

-- Removal is by identity: only the id that still leads to the expected node loses its entry.
remove_if_same_lem :
    (id other : String) (p : ℕ) (r : Registry)
    → (get (remove_if_same id p r).0 other
        ≡ (if string_eq.eqb id other && is_pointer p (get r id) then none else get r other))
      × ((remove_if_same id p r).1 ≡ is_pointer p (get r id))
      × ((remove_if_same id p r).0.heap ≡ r.heap)
unfolding remove_if_same get
remove_if_same_lem id other p r = ground (arith, lookup-delete id other r.nodes)
