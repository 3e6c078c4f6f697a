-- ===== src/Relay/Proxy/Handle/Settled.antt =====
-- What a request of handleProxy (internal/relay/proxy.go) takes and gives back, piece by piece.
use mathlib.Core.Bool.{false≢true}
use modelrelay.Base.{
  ℕ, suc, ◌+◌, ◌-◌, ◌≡◌, refl, sym, ap, ◌∙◌, inl, inr, true, String, List, [], ◌∷◌, map, ◌++◌, none,
  arith, ltb, leb, ◌==◌, length, lookup, insert, delete, eqb_refl, byte_list_eq, Bool-cases, ==_iff,
  lt→ltb, if-cases, none-some, Result, ok, err,
}
use modelrelay.Relay.Node.{Node, reserve, release}
use modelrelay.Relay.Registry.{Registry, at}
use modelrelay.Relay.Forward.{Answer, ctx_done, Forward, forward, round}
use modelrelay.Relay.Pending.{PendingRequest, PendingRegistry}
use modelrelay.Relay.Proxy.{
  Server, ProxyConfig, Wake, slot, timer, AcquireError, full, timed_out, ended, acquire,
}

-- What a request may have taken is as it was before: the slot, the place in the queue, the place of
-- every node, and the pending requests.
pub record IsReleased (s s' : Server) : Type 0 where
  pub sem : s'.sem ≡ s.sem
  pub waiting : s'.waiting ≡ s.waiting
  pub pending : s'.pending ≡ s.pending
  pub nodes : s'.registry.nodes ≡ s.registry.nodes
  pub heap : (q : ℕ) → s'.registry.heap q ≡ s.registry.heap q
  pub total : s'.total ≡ s.total
  pub records : s'.records ≡ s.records

pub delete-insert :
    (k : List ℕ) (p : PendingRequest) (m : PendingRegistry)
    → lookup k m ≡ none
    → delete k (insert k p m) ≡ m
unfolding insert delete lookup
delete-insert k p [] free = rw (eqb_refl k) refl
delete-insert k p ((j, q) ∷ m) free = elim (Bool-cases (byte_list_eq.eqb j k)) [
  | inl same ↦ absurd (none-some (sym (rw same at free)))
  | inr apart ↦ rw (apart, delete, apart) (ap (◌∷◌ (j, q)) (delete-insert k p m (rw apart at free)))
]

pub forward-ctx_done :
    (error_body : String → String → List ℕ) (f : Forward) (es : List Answer)
    → (forward error_body f (es ++ (ctx_done ∷ []))).1 ≡ true
unfolding forward round
forward-ctx_done error_body f [] = refl
forward-ctx_done error_body f (e ∷ es) =
    let later = forward-ctx_done error_body (round error_body f e).0 es in
    elim (Bool-cases (round error_body f e).1) [
      | inl over ↦ rw (forward, over) refl
      | inr on ↦ rw (forward, on) later
    ]

IsReleased-full :
    (s : Server) → IsReleased s (record s { queue_full_total = s.queue_full_total + 1 })
IsReleased-full s = record {
  sem = refl;
  waiting = refl;
  pending = refl;
  nodes = refl;
  heap = λ q. refl;
  total = refl;
  records = refl;
}

active-suc : (n : Node) → release (record n { active = n.active + 1 }) ≡ n
unfolding release
active-suc n =
    rw (lt→ltb 0 (n.active + 1) (omega arith)) (ap (λ a. record n { active = a }) (omega arith))

-- A place that was reserved and is released again.
pub release-reserve : (n : Node) → (reserve n).1 ≡ true → release (reserve n).0 ≡ n
unfolding reserve
release-reserve n = elim (Bool-cases (leb n.max_concurrency n.active)) [
  | inl busy ↦ rw busy (λ h. absurd (false≢true h))
  | inr free ↦ rw free (λ h. active-suc n)
]

-- The node at the address is as it was, and so are the others.
pub released :
    (r : Registry) (p q : ℕ) (r' : Registry)
    → (reserve (r.heap p)).1 ≡ true
    → ((q : ℕ) → r'.heap q ≡ (at p (λ _. (reserve (r.heap p)).0) r).heap q)
    → (at p release r').heap q ≡ r.heap q
unfolding at
released r p q r' free same = elim (Bool-cases (q == p)) [
  | inl here ↦
      let found : r'.heap q ≡ (reserve (r.heap p)).0 = let e = same q in rw here at e in
      rw here
        (ap release found ∙ release-reserve (r.heap p) free ∙ ap r.heap (sym ((==_iff q p).0 here)))
  | inr there ↦ let found : r'.heap q ≡ r.heap q = let e = same q in rw there at e in rw there found
]

-- The counters of the results are no resource.
pub counted :
    (s : Server) (success failed canceled : ℕ)
    → IsReleased s (record s { success = success; failed = failed; canceled = canceled })
counted s success failed canceled = record {
  sem = refl;
  waiting = refl;
  pending = refl;
  nodes = refl;
  heap = λ q. refl;
  total = refl;
  records = refl;
}

pub denied_too :
    (s s' : Server) → IsReleased s s' → IsReleased s (record s' { failed = s'.failed + 1 })
denied_too s s' r = record {
  sem = r.sem;
  waiting = r.waiting;
  pending = r.pending;
  nodes = r.nodes;
  heap = r.heap;
  total = r.total;
  records = r.records;
}

pub length-map {ℓ κ} :
    {A : Type ℓ} {B : Type κ} (f : A → B) (xs : List A) → length (map f xs) ≡ length xs
length-map f [] = refl
length-map f (a ∷ xs) = ap suc (length-map f xs)

-- What acquire leaves.
pub data Acquired (s : Server) : Server × Result AcquireError (Unit {0}) → Type 0 where
  denied : (e : AcquireError) (s' : Server) → IsReleased s s' → Acquired s (s', err e)
  granted : (w : ℕ) → w ≡ s.waiting → Acquired s (record s { sem = s.sem + 1; waiting = w }, ok tt)

pub queued : (s : Server) → IsReleased s (record s { waiting = s.waiting + 1 - 1 })
queued s = record {
  sem = refl;
  waiting = omega arith;
  pending = refl;
  nodes = refl;
  heap = λ q. refl;
  total = refl;
  records = refl;
}

pub acquire-Acquired :
    (cfg : ProxyConfig) (wake : Wake) (s : Server) → Acquired s (acquire cfg wake s)
unfolding acquire
acquire-Acquired cfg slot s =
    if-cases (Acquired s) (leb cfg.queue_length s.waiting) (λ _. denied full _ (IsReleased-full s))
      (λ _. elim (Bool-cases (ltb s.sem cfg.max_concurrent)) [
        | inl free ↦ rw free (granted (s.waiting + 1 - 1) (omega arith))
        | inr busy ↦ rw busy (denied timed_out _ (queued s))
      ])
acquire-Acquired cfg timer s =
    if-cases (Acquired s) (leb cfg.queue_length s.waiting) (λ _. denied full _ (IsReleased-full s))
      (λ _. denied timed_out _ (queued s))
acquire-Acquired cfg Wake.ctx_done s =
    if-cases (Acquired s) (leb cfg.queue_length s.waiting) (λ _. denied full _ (IsReleased-full s))
      (λ _. denied ended _ (queued s))
