-- ===== src/Agent/Connector/Priority.antt =====
-- Which relay the agent is connected to (internal/agent/connector.go).
use modelrelay.Base.{
  true, false, ℕ, ◌≡◌, refl, inl, inr, String, List, [], ◌∷◌, Option, none, some, arith, All,
  All-map, Bool-cases, Result, ok, err,
}
use modelrelay.Config.Relay.{ℤ, pos, negsuc}
use modelrelay.Config.Agent.{RelayAddr}
use modelrelay.Agent.Connector.{
  int_le, insert_relay, sorted_relays, Ack, unread, malformed, not_text, not_ack, accepted, refused,
  Attempt, LinkState, Received, read_ack, greet, connect_once, Round, after_attempt, try_relays,
}

-- Every step of the attempt succeeds, and the relay accepts the hello.
abbrev pub IsReachable : Attempt → Type 0
IsReachable t =
    (t.tls_error ≡ none) × (t.dial_error ≡ none) × (t.hello_error ≡ none) × (t.ack ≡ accepted)

module _ {ℓ} (P : RelayAddr → Type ℓ) where
  All-insert_relay :
      (r : RelayAddr) (rs : List RelayAddr) → P r → All P rs → All P (insert_relay r rs)
  unfolding insert_relay
  All-insert_relay r [] p h = (p, tt)
  All-insert_relay r (s ∷ rs) p h = elim (Bool-cases (int_le r.priority s.priority)) [
    | inl first ↦ rw first (p, h)
    | inr later ↦ rw later (h.0, All-insert_relay r rs p h.1)
  ]

  insert_relay-All :
      (r : RelayAddr) (rs : List RelayAddr) → All P (insert_relay r rs) → P r × All P rs
  unfolding insert_relay
  insert_relay-All r [] h = (h.0, tt)
  insert_relay-All r (s ∷ rs) h = elim (Bool-cases (int_le r.priority s.priority)) [
    | inl first ↦ let k = h in rw (insert_relay, first) at k
    | inr later ↦
        let k = h in
        let both : P s × All P (insert_relay r rs) = rw (insert_relay, later) at k in
        let (p, rest) = insert_relay-All r rs both.1 in (p, (both.0, rest))
  ]

  sorted_relays-All : (rs : List RelayAddr) → All P (sorted_relays rs) → All P rs
  unfolding sorted_relays
  sorted_relays-All [] h = tt
  sorted_relays-All (r ∷ rs) h =
      let (p, rest) = insert_relay-All r (sorted_relays rs) h in (p, sorted_relays-All rs rest)

int_le_total : (m n : ℤ) → int_le m n ≡ false → int_le n m ≡ true
int_le_total (pos a) (pos b) h = ground arith
int_le_total (pos a) (negsuc b) h = refl
int_le_total (negsuc a) (pos b) h = cc
int_le_total (negsuc a) (negsuc b) h = ground arith

int_le_trans : (m n k : ℤ) → int_le m n ≡ true → int_le n k ≡ true → int_le m k ≡ true
int_le_trans (pos a) (pos b) (pos c) h j = ground arith
int_le_trans (pos a) (pos b) (negsuc c) h j = j
int_le_trans (pos a) (negsuc b) k h j = cc
int_le_trans (negsuc a) n (pos c) h j = refl
int_le_trans (negsuc a) (pos b) (negsuc c) h j = cc
int_le_trans (negsuc a) (negsuc b) (negsuc c) h j = ground arith

int_le_refl : (m : ℤ) → int_le m m ≡ true
int_le_refl (pos a) = ground arith
int_le_refl (negsuc a) = ground arith

abbrev IsSorted : List RelayAddr → Type 0
IsSorted [] = Unit
IsSorted (r ∷ rs) = All (λ q. int_le r.priority q.priority ≡ true) rs × IsSorted rs

insert_relay-IsSorted :
    (r : RelayAddr) (rs : List RelayAddr) → IsSorted rs → IsSorted (insert_relay r rs)
unfolding insert_relay
insert_relay-IsSorted r [] h = (tt, tt)
insert_relay-IsSorted r (s ∷ rs) h = elim (Bool-cases (int_le r.priority s.priority)) [
  | inl first ↦ rw first (
    (first, All-map _ _ rs (λ q k. int_le_trans r.priority s.priority q.priority first k) h.0),
    h,
  )
  | inr later ↦ rw later (
    All-insert_relay (λ q. int_le s.priority q.priority ≡ true) r rs
        (int_le_total r.priority s.priority later) h.0,
    insert_relay-IsSorted r rs h.1,
  )
]

sorted_relays-IsSorted : (rs : List RelayAddr) → IsSorted (sorted_relays rs)
unfolding sorted_relays
sorted_relays-IsSorted [] = tt
sorted_relays-IsSorted (r ∷ rs) = insert_relay-IsSorted r _ (sorted_relays-IsSorted rs)

-- Whether a round connects, and to which relay.
pub data Chosen (w : Round) (relays : List RelayAddr) : Option RelayAddr → Type 0 where
  connected :
      (r : RelayAddr)
      → IsReachable (w.attempt r)
      → All (λ q. IsReachable (w.attempt q) → int_le r.priority q.priority ≡ true) relays
      → Chosen w relays (some r)
  unconnected : All (λ q. IsReachable (w.attempt q) → ⊥) relays → Chosen w relays none

module _ (sha256 : List ℕ → List ℕ) (max_body_bytes max_concurrency : ℕ) where
  -- The two ends of an attempt.
  data Tried (t : Attempt) : Result String (Unit {0}) → Type 0 where
    reached : IsReachable t → Tried t (ok tt)
    missed : (e : String) → (IsReachable t → ⊥) → Tried t (err e)

  connect_once-Tried :
      (t : Attempt) (ms : List Received) (s : LinkState)
      → Tried t (connect_once sha256 max_body_bytes max_concurrency t ms s).1
  unfolding connect_once greet read_ack
  connect_once-Tried t ms s = split t.tls_error t.dial_error t.hello_error t.ack
    where
      split :
          (tls dial hello : Option String) (a : Ack)
          → let u : Attempt = record {
            tls_error = tls;
            dial_error = dial;
            hello_error = hello;
            ack = a;
          } in
            Tried u (connect_once sha256 max_body_bytes max_concurrency u ms s).1
      split (some e) dial hello a = missed e (λ h. cc)
      split none (some e) hello a = missed e (λ h. cc)
      split none none (some e) a = missed e (λ h. cc)
      split none none none (unread e) = missed e (λ h. cc)
      split none none none (malformed e) = missed e (λ h. cc)
      split none none none not_text = missed _ (λ h. cc)
      split none none none (not_ack e) = missed _ (λ h. cc)
      split none none none accepted = reached (refl, refl, refl, refl)
      split none none none (refused e) = missed _ (λ h. cc)

  try_relays-Chosen :
      (w : Round) (rs : List RelayAddr) (s : LinkState)
      → IsSorted rs
      → Chosen w rs (try_relays sha256 max_body_bytes max_concurrency w rs s).1
  unfolding try_relays
  try_relays-Chosen w [] s h = unconnected tt
  try_relays-Chosen w (r ∷ rs) s h =
      let (s', y) =
        connect_once sha256 max_body_bytes max_concurrency (w.attempt r) (w.received r) s in
      next y (try_relays sha256 max_body_bytes max_concurrency w rs s') s'
        (connect_once-Tried (w.attempt r) (w.received r) s) (try_relays-Chosen w rs s' h.1)
    where
      next :
          (y : Result String (Unit {0})) (rest : LinkState × Option RelayAddr) (s' : LinkState)
          → Tried (w.attempt r) y
          → Chosen w rs rest.1
          → Chosen w (r ∷ rs) (after_attempt sha256 max_body_bytes max_concurrency r s' rest y).1
      next _ rest s' (reached open_way) later =
          connected r open_way (λ _. int_le_refl r.priority, All-map _ _ rs (λ q k _. k) h.0)
      next _ (t, _) s' (missed e closed) (connected q open_way least) =
          connected q open_way (λ y. absurd (closed y), least)
      next _ (t, _) s' (missed e closed) (unconnected none_reached) =
          unconnected (closed, none_reached)

  -- Chosen of the sorted list is chosen of the list.
  as_given :
      (w : Round) (rs : List RelayAddr) (o : Option RelayAddr)
      → Chosen w (sorted_relays rs) o
      → Chosen w rs o
  as_given w rs _ (connected r open_way least) = connected r open_way (sorted_relays-All _ rs least)
  as_given w rs _ (unconnected none_reached) = unconnected (sorted_relays-All _ rs none_reached)

  -- In every round the agent is connected to a relay if any of those configured lets it in, and then
  -- to one of the least priority number among those that do; if it is not connected, none does.
  pub try_relays-sorted_relays :
      (w : Round) (rs : List RelayAddr) (s : LinkState)
      → Chosen w rs (try_relays sha256 max_body_bytes max_concurrency w (sorted_relays rs) s).1
  try_relays-sorted_relays w rs s =
      as_given w rs _ (try_relays-Chosen w (sorted_relays rs) s (sorted_relays-IsSorted rs))
