-- ===== src/Relay/Requests.antt =====
-- The request records of internal/relay/requests.go, and RecentRequests of server.go.
pub mod Recent
use modelrelay.Base.{ℕ, ◌+◌, ◌-◌, String, List, [], ◌∷◌, ◌++◌, ltb, length, drop, if◌then◌else◌}

pub record RequestRecord : Type 0 where
  pub request_id : String
  pub path : String
  pub model : String
  pub node : String
  pub status : ℕ
  pub ttft_ms : ℕ
  pub duration_ms : ℕ
  pub error_code : String
  pub time : ℕ

pub record RingBuffer : Type 0 where
  pub items : List RequestRecord
  pub max : ℕ

-- A negative size counts as 0.
unfoldable pub new_ring_buffer : ℕ → RingBuffer
new_ring_buffer max = record { items = []; max = if ltb 0 max then max else 500 }

unfoldable pub push : RequestRecord → RingBuffer → RingBuffer
push item r =
    let items = r.items ++ (item ∷ []) in
    if ltb r.max (length items)
    then record r { items = drop (length items - r.max) items }
    else record r { items = items }

unfoldable pub list : RingBuffer → List RequestRecord
list r = r.items

abbrev pub reverse_onto : List RequestRecord → List RequestRecord → List RequestRecord
reverse_onto [] out = out
reverse_onto (x ∷ xs) out = reverse_onto xs (x ∷ out)

-- The swap loop reverses the copy.
unfoldable pub recent_requests : RingBuffer → List RequestRecord
unfolding list
recent_requests r = reverse_onto (list r) []
