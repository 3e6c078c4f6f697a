-- ===== src/Tests/Proxy.antt =====
-- The theorems on request bodies and responses at concrete inputs.
use modelrelay.Base.{
  lookup, insert, nat_eq, byte_list_eq, false, ℕ, ◌+◌, ◌≡◌, refl, true, String, List, [], ◌∷◌, ◌++◌,
  map, arith, ok, some, if◌then◌else◌,
}
use modelrelay.Relay.Chunks.{request_frames, frames_from, chunk_frame}
use modelrelay.Agent.Body.{body_frame_of, assemble_body, body_frame}
use modelrelay.Transfer.Request.{Turn, arrives, takes, carried, along, IsAt, assemble_body-along}
use modelrelay.Agent.Requests.{
  ActiveRequest, AgentState, dispatch_frame, route_body_frame, touch, receive,
}
use modelrelay.Protocol.Frame.{
  encode, decode_frame, read_full, header, check_header, read_payload, frame_of,
}
use modelrelay.Protocol.Frame.Word.{put_uint32, uint32}
use modelrelay.Relay.Forward.{Answer, headers, frame, done, error, forward, start}
use modelrelay.Relay.Forward.Delivery.{taken, concat, sending, forward-in_order, forward-done_first}
use modelrelay.Relay.Forward.Counters.{total, forward-total}
use modelrelay.Tests.{some_id, some_body, some_frame}

abbrev a_request : ActiveRequest
a_request = record {
  req_id = some_id;
  id16 = some_id;
  body_len = 3;
  body_ch = [];
  canceled = false;
}

abbrev an_agent : AgentState
an_agent = record {
  running = (0, a_request) ∷ [];
  active = (some_id, 0) ∷ [];
  draining = false;
  local_sem = 1;
  stats = record {
    requests_total = 1;
    requests_failed = 0;
    local_busy_total = 0;
    canceled_total = 0;
  };
}

abbrev two_turns : List Turn
two_turns = takes ∷ arrives ∷ takes ∷ []

request_known : IsAt 0 some_id an_agent a_request
unfolding lookup
request_known = (refl, refl)

all_arrived : (along 0 two_turns (request_frames some_id some_body) an_agent).1.0 ≡ []
unfolding along request_frames frames_from
all_arrived = refl

all_taken :
    IsAt 0 some_id (along 0 two_turns (request_frames some_id some_body) an_agent).1.1 a_request
unfolding along carried receive dispatch_frame route_body_frame body_frame_of touch lookup insert
    request_frames frames_from chunk_frame encode decode_frame read_full header put_uint32
    check_header uint32 read_payload frame_of
all_taken = (refl, refl)

assemble_body-along_example :
    assemble_body 3 [] (along 0 two_turns (request_frames some_id some_body) an_agent).0
    ≡ some (ok some_body)
assemble_body-along_example =
    assemble_body-along 0 some_id some_body two_turns an_agent a_request a_request refl
      request_known refl refl all_arrived all_taken refl refl

received : assemble_body 3 [] (body_frame some_frame ∷ []) ≡ some (ok some_body)
unfolding assemble_body
received = refl

abbrev no_text : String → String → List ℕ
no_text code message = []

forward-in_order_example :
    forward no_text (start true true) (
      headers 200 []
      ∷ (map (λ p. frame (taken p)) (some_body ∷ []) ++ (done (map taken (some_id ∷ [])) ∷ [])))
    ≡ (
      record (sending no_text true true 200 [] (concat (some_body ∷ []) ++ concat (some_id ∷ []))) {
        success = 1;
      },
      true,
    )
forward-in_order_example =
    forward-in_order no_text true true 200 [] (some_body ∷ []) (some_id ∷ []) (omega arith)
      (omega arith)

forward-done_first_example :
    let s = (forward no_text (start true true) (done (map taken []) ∷ headers 500 [] ∷ [])).0 in
    (s.client.status ≡ some 200) × (s.client.body ≡ []) × (s.rec_status ≡ 200)
forward-done_first_example = forward-done_first no_text true true 500 [] []

abbrev failing : List Answer
failing = headers 200 [] ∷ error "internal" "stopped" (taken some_body ∷ []) ∷ []

forward-total_example : total (forward no_text (start true true) failing).0 ≡ (
    if (forward no_text (start true true) failing).1
    then total (start true true) + 1
    else total (start true true))
forward-total_example = forward-total no_text (start true true) failing (tt, ((refl, tt), tt))
