-- ===== src/Tests.antt =====
-- The theorems at concrete inputs, and the data for them.
pub mod Protocol
pub mod Relay
pub mod Proxy
pub mod Flow
pub mod Links
pub mod Agent
pub mod Admin
pub mod Origin
pub mod Certificates
pub mod Admission
pub mod Background
pub mod Certmgr
use modelrelay.Base.{
  ◌≡◌, ◌<◌, All, ltb, ◌&&◌, arith, ℕ, zero, suc, ◌+◌, Bool, true, false, String, List, [], ◌∷◌,
  Option, none, some, length, take, ◌++◌,
}
use modelrelay.Protocol.Frame.{Frame, frame_request_body, frame_response_body}
use modelrelay.Relay.Node.{Node, ModelCap, NodeState, online}

abbrev pub some_id : List ℕ
some_id = 1 ∷ 2 ∷ 3 ∷ 4 ∷ 5 ∷ 6 ∷ 7 ∷ 8 ∷ 9 ∷ 10 ∷ 11 ∷ 12 ∷ 13 ∷ 14 ∷ 15 ∷ 16 ∷ []

abbrev pub some_body : List ℕ
some_body = 104 ∷ 105 ∷ 33 ∷ []

abbrev pub some_frame : Frame
some_frame = record {
  typ = frame_request_body;
  first = true;
  last = true;
  compressed = false;
  request_id = some_id;
  seq = 7;
  encoding = 0;
  payload = some_body;
}

-- A hash in name only: 32 bytes that do not depend on the text.
abbrev pub zeros : ℕ → List ℕ
zeros zero = []
zeros (suc n) = 0 ∷ zeros n

abbrev pub flat_hash : List ℕ → List ℕ
flat_hash text = zeros 32

abbrev pub some_model : ModelCap
some_model = record {
  id = "m";
  capabilities = "chat_completions" ∷ [];
  capabilities_complete = true;
  probe_time = 0;
}

abbrev pub some_node : Node
some_node = record {
  id = "a";
  agent_version = "1";
  os = "linux";
  arch = "amd64";
  state = online;
  max_concurrency = 2;
  models = ("m", some_model) ∷ [];
  active = 1;
  heartbeat = 0;
  heartbeat_seq = 0;
  connected_at = 0;
  cert_hash = "";
  cert_serial = "s";
  last_error = "";
}

abbrev pub are_bytes : List ℕ → Bool
are_bytes [] = true
are_bytes (b ∷ bs) = ltb b 256 && are_bytes bs

pub are_bytes-All : (bs : List ℕ) → are_bytes bs ≡ true → All (λ b. b < 256) bs
are_bytes-All [] h = tt
are_bytes-All (b ∷ bs) h = (ground arith, are_bytes-All bs (ground arith))
