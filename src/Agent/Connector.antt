-- ===== src/Agent/Connector.antt =====
-- internal/agent/connector.go: the connection to a relay, from the choice of the relay to its end. TLS,
-- the WebSocket, encoding/json and the random jitter are outside: what they give is an input. The
-- connector is not stopped here, and of two relays of the same priority the one named first comes
-- first, where sort.Slice leaves the order open.
pub mod Priority
pub mod Backoff
use Prim.Native.String.{◌++◌ as str_append}
use modelrelay.Base.{
  ℕ, zero, suc, ◌+◌, ◌*◌, ◌%◌, ◌^◌, Bool, true, false, String, List, [], ◌∷◌, Option, none, some,
  ltb, leb, any, length, take, get_or, if◌then◌else◌, Result, ok, err, ◌>>=◌, ◌>>◌,
}
use modelrelay.Config.Relay.{ℤ, pos, negsuc}
use modelrelay.Config.Agent.{RelayAddr}
use modelrelay.Agent.Requests.{
  Request, AgentState, handle_request, cancel_request, cancel_all, enter_drain, dispatch_frame,
  active_count,
}

-- The order of Go's int.
abbrev pub int_le : ℤ → ℤ → Bool
int_le (pos a) (pos b) = leb a b
int_le (pos a) (negsuc b) = false
int_le (negsuc a) (pos b) = true
int_le (negsuc a) (negsuc b) = leb b a

unfoldable pub insert_relay : RelayAddr → List RelayAddr → List RelayAddr
insert_relay r [] = r ∷ []
insert_relay r (s ∷ rs) = if int_le r.priority s.priority then r ∷ s ∷ rs else s ∷ insert_relay r rs

unfoldable pub sorted_relays : List RelayAddr → List RelayAddr
unfolding insert_relay
sorted_relays [] = []
sorted_relays (r ∷ rs) = insert_relay r (sorted_relays rs)

-- What the relay answers to the hello.
pub data Ack : Type 0 where
  unread malformed : String → Ack
  not_text : Ack
  not_ack : String → Ack
  accepted : Ack
  refused : String → Ack

-- One attempt; `none` means that the step succeeds.
pub record Attempt : Type 0 where
  pub tls_error : Option String
  pub dial_error : Option String
  pub hello_error : Option String
  pub ack : Ack

-- A message that arrives; a request comes with the address that it takes.
pub data Received : Type 0 where
  heartbeat_ack models_update probe bye unreadable bad_control : Received
  request : ℕ → Request → Received
  cancel : List ℕ → Received
  drain : Received
  error : List ℕ → Received
  binary : List ℕ → Received

pub record LinkState : Type 0 where
  pub agent : AgentState
  pub heartbeat_ok : Bool
  pub reconnects : ℕ
  pub probes : ℕ

abbrev pub step : Option String → Result String (Unit {0})
step none = ok tt
step (some e) = err e

unfoldable pub read_ack : Ack → Result String (Unit {0})
read_ack (unread e) = err e
read_ack not_text = err "expected hello_ack"
read_ack (not_ack e) = err (str_append "expected hello_ack, got " e)
read_ack (malformed e) = err e
read_ack accepted = ok tt
read_ack (refused reason) = err (str_append "relay rejected: " reason)

-- The steps after the dial.
unfoldable pub greet : Attempt → Result String (Unit {0})
unfolding read_ack
greet t = do step t.hello_error; read_ack t.ack

-- One round: what each relay would answer, what it sends, and the jitter in milliseconds.
pub record Round : Type 0 where
  pub attempt : RelayAddr → Attempt
  pub received : RelayAddr → List Received
  pub jitter : ℕ

abbrev pub backoff : List ℕ
backoff = 1000 ∷ 2000 ∷ 4000 ∷ 8000 ∷ 16000 ∷ 30000 ∷ []

module _ (sha256 : List ℕ → List ℕ) (max_body_bytes max_concurrency : ℕ) where
  -- What the agent writes to the relay, and its wait for the end of a drain, are left out. The result
  -- tells whether the read loop goes on.
  unfoldable pub dispatch_control : Received → LinkState → LinkState × Bool
  dispatch_control heartbeat_ack s = (record s { heartbeat_ok = true }, true)
  dispatch_control (request p req) s = (
    record s { agent = (handle_request sha256 max_body_bytes max_concurrency p req s.agent).0 },
    true,
  )
  dispatch_control (cancel id) s = (record s { agent = cancel_request sha256 id s.agent }, true)
  dispatch_control drain s = (record s { agent = enter_drain s.agent }, true)
  dispatch_control (error []) s = (s, true)
  dispatch_control (error (b ∷ bs)) s =
      (record s { agent = cancel_request sha256 (b ∷ bs) s.agent }, true)
  dispatch_control models_update s = (s, true)
  dispatch_control probe s = (record s { probes = s.probes + 1 }, true)
  dispatch_control unreadable s = (s, true)
  dispatch_control bad_control s = (s, true)
  dispatch_control bye s = (s, false)
  dispatch_control (binary message) s = (record s { agent = dispatch_frame message s.agent }, true)

  -- The read loop on all that arrives before the connection ends.
  unfoldable pub read_loop : List Received → LinkState → LinkState
  unfolding dispatch_control
  read_loop [] s = s
  read_loop (m ∷ ms) s =
      let (s', goes_on) = dispatch_control m s in
      let rest = read_loop ms s' in if goes_on then rest else s'

  abbrev settle :
      List Received → LinkState → Result String (Unit {0}) → LinkState × Result String (Unit {0})
  settle ms s (err e) = (s, err e)
  settle ms s (ok _) =
      let s' = read_loop ms s in (record s' { agent = cancel_all sha256 s'.agent }, ok tt)

  -- connectOnce: it returns without an error when the connection has ended.
  unfoldable pub connect_once :
      Attempt → List Received → LinkState → LinkState × Result String (Unit {0})
  unfolding read_loop greet
  connect_once t ms s = elim (step t.tls_error >> step t.dial_error) [
    | err e ↦ (s, err e)
    | ok _ ↦ settle ms (record s { reconnects = s.reconnects + 1 }) (greet t)
  ]

  abbrev pub after_attempt :
      RelayAddr
      → LinkState
      → LinkState × Option RelayAddr
      → Result String (Unit {0})
      → LinkState × Option RelayAddr
  after_attempt r s rest (err e) = rest
  after_attempt r s rest (ok _) = (s, some r)

  -- The loop over the relays, and the one that it was connected to.
  unfoldable pub try_relays : Round → List RelayAddr → LinkState → LinkState × Option RelayAddr
  unfolding connect_once
  try_relays w [] s = (s, none)
  try_relays w (r ∷ rs) s =
      let (s', y) = connect_once (w.attempt r) (w.received r) s in
      let rest = try_relays w rs s' in after_attempt r s' rest y

  -- Run, with the relays that it was connected to and the waits between the rounds.
  unfoldable pub run :
      List RelayAddr → ℕ → List Round → LinkState → LinkState × List (Option RelayAddr) × List ℕ
  unfolding try_relays sorted_relays
  run relays attempt [] s = (s, [], [])
  run relays attempt (w ∷ ws) s =
      let (s', connected) = try_relays w (sorted_relays relays) s in
      let d = get_or backoff attempt 0 + w.jitter in
      let next = if ltb attempt 5 then attempt + 1 else attempt in
      let (s₂, served, waits) = run relays next ws s' in (s₂, connected ∷ served, d ∷ waits)

-- A tick of watchPrimary: does a relay before the current one answer?
unfoldable pub watch_tick : ℕ → (RelayAddr → Bool) → List RelayAddr → Bool
unfolding sorted_relays
watch_tick current reachable relays = any reachable (take current (sorted_relays relays))

pub record Heartbeat : Type 0 where
  pub ts : ℕ
  pub seq : ℕ
  pub active_reqs : ℕ
  pub local_model_ok : Bool
  pub last_probe_ok : Bool

-- A tick of heartbeatLoop; `seq` is the number of the last heartbeat, and a uint64.
unfoldable pub heartbeat_tick : ℕ → ℕ → Bool → Bool → LinkState → Heartbeat
heartbeat_tick now seq healthy probe_ok s = record {
  ts = now;
  seq = (seq + 1) % 2 ^ 64;
  active_reqs = active_count s.agent;
  local_model_ok = healthy;
  last_probe_ok = probe_ok;
}
