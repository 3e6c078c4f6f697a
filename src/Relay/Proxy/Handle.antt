-- ===== src/Relay/Proxy/Handle.antt =====
-- handleProxy of internal/relay/proxy.go, from the inside out: each function takes what its defer
-- statement gives back. `none` means that the request still waits.
pub mod Settled
pub mod Release
use Prim.Native.String.{◌++◌ as str_append}
use text.Mathlib.Text.{◌==◌ as str_eq}
use modelrelay.Base.{
  ℕ, ◌+◌, Bool, true, false, not, ◌&&◌, ◌||◌, String, List, [], ◌∷◌, map, Option, none, some, ltb,
  ◌==◌, length, if◌then◌else◌, Result, ok, err,
}
use modelrelay.Protocol.Codes.{http_status, invalid_request, no_available_node}
use modelrelay.Protocol.RequestId.{request_id_bytes}
use modelrelay.Relay.Node.{reserve}
use modelrelay.Relay.Registry.{at}
use modelrelay.Relay.Scheduler.{Float64, select_node, capability_for_path}
use modelrelay.Relay.Scheduler.Waiting.{Poll, WaitError, wait_for_node}
use modelrelay.Relay.Chunks.{request_frames}
use modelrelay.Relay.Forward.{Forward, write_relay_error, forward, start}
use modelrelay.Relay.Pending.{new_pending_request, add}
use modelrelay.Relay.Requests.{RequestRecord, push}
use modelrelay.Relay.Proxy.{
  Server, ProxyConfig, AcquireError, acquire, classify_selector_err, error_text, Look,
  whitelist_headers, RouteInfo, parse_route_info, RequestMessage, Inputs, Outcome, Externals,
  send_frames, new_client, after, release_slot, release_node, remove_pending, refuse,
  refuse_acquire,
}

unfoldable pub request_message : Inputs → Bool → RequestMessage
unfolding whitelist_headers
request_message i stream = record {
  request_id = i.req_id;
  method = i.method;
  path = i.path;
  query = i.query;
  headers = whitelist_headers i.header;
  body_len = length i.body;
  stream = stream;
}

-- A streamed chat is a capability of its own.
unfoldable pub capability_of : String → String → Bool → String
unfolding capability_for_path
capability_of method path stream =
    let capability = capability_for_path method path in
    if stream && str_eq capability "chat_completions" then "chat_stream" else capability

unfoldable pub poll_of : Float64 → String → String → Look → Poll
unfolding select_node
poll_of fl model capability l = record {
  outcome = select_node fl l.registry model capability;
  now = l.now;
  done = l.done;
}

unfoldable pub request_record : Inputs → String → Outcome → RequestRecord
request_record i model o = record {
  request_id = i.req_id;
  path = i.path;
  model = model;
  node = o.node;
  status = o.status;
  ttft_ms = i.ttft_ms;
  duration_ms = i.duration_ms;
  error_code = o.error_code;
  time = i.time;
}

unfoldable pub record_request : Inputs → String → Outcome → Outcome
unfolding request_record
record_request i model o = record o {
  server = record o.server { records = push (request_record i model o) o.server.records };
}

module _ (x : Externals) (cfg : ProxyConfig) where
  abbrev pub key_of : Inputs → List ℕ
  key_of i = request_id_bytes x.sha256 (x.bytes i.req_id)

  -- What forwardResponse leaves.
  unfoldable pub forwarded : Inputs → Bool → String → Server → Forward → Outcome
  forwarded i stream node s f = record {
    server = record s {
      success = s.success + f.success;
      failed = s.failed + f.failed;
      canceled = s.canceled + f.canceled;
    };
    client = f.client;
    status = f.rec_status;
    error_code = f.rec_error;
    node = node;
    message = some (request_message i stream);
    frames = request_frames (key_of i) i.body;
  }

  unfoldable pub lost : Inputs → Bool → String → Server → Outcome
  unfolding refuse
  lost i stream node s =
      record (refuse x.error_body 503 no_available_node
        (str_append "node connection lost: " i.send_error) node s) {
          message = some (request_message i stream);
          frames = (send_frames (request_frames (key_of i) i.body) i.frames_sent).0;
        }

  -- The one frame of an empty body may fail.
  unfoldable pub all_sent : Inputs → Bool
  unfolding send_frames
  all_sent i =
      (length i.body == 0) || (send_frames (request_frames (key_of i) i.body) i.frames_sent).1

  -- Steps 4 and 5.
  unfoldable pub transmit : Inputs → Bool → String → Server → Option Outcome
  unfolding all_sent forwarded lost refuse
  transmit i stream node s =
      if not i.request_sent
      then some (
          refuse x.error_body 503 no_available_node
            (str_append "node connection lost: " i.send_error) node s)
      else if not (all_sent i)
      then some (lost i stream node s)
      else (let (f, returned) =
            forward x.error_body (start (ltb 0 cfg.ttft_timeout_ms) (ltb 0 cfg.idle_timeout_ms))
              i.answers in
          if returned then some (forwarded i stream node s f) else none)

  -- Step 3.
  unfoldable pub exchange : Inputs → Bool → String → Server → Option Outcome
  unfolding transmit after remove_pending
  exchange i stream node s = after (remove_pending (key_of i)) (
      transmit i stream node (record s {
        pending = add (key_of i) (new_pending_request (x.bytes i.req_id) node) s.pending;
      }))

  unfoldable pub on_node : Inputs → Bool → ℕ → Server → Option Outcome
  unfolding exchange refuse after release_node
  on_node i stream p s =
      let (n, reserved) = reserve (s.registry.heap p) in
      if reserved
      then after (release_node p)
          (exchange i stream n.id (record s { registry = at p (λ _. n) s.registry }))
      else some (refuse x.error_body 503 no_available_node "node capacity changed" n.id s)

  abbrev pub on_selected : Inputs → Bool → Server → Option (Result WaitError ℕ) → Option Outcome
  on_selected i stream s none = none
  on_selected i stream s (some (err e)) =
      let code = classify_selector_err i.ctx_deadline e in
      some (refuse x.error_body (http_status code) code (error_text i.ctx_deadline e) "" s)
  on_selected i stream s (some (ok p)) = on_node i stream p s

  abbrev pub polls_of : Inputs → RouteInfo → List Poll
  polls_of i info =
      map (poll_of x.float64 info.model (capability_of i.method i.path info.stream)) i.looks

  unfoldable pub proceed :
      Inputs → RouteInfo → Server × Result AcquireError (Unit {0}) → Option Outcome
  unfolding on_node refuse after
  proceed i info (s, err e) = some (refuse_acquire x.error_body e s)
  proceed i info (s, ok _) =
      after release_slot (on_selected i info.stream s (wait_for_node i.deadline (polls_of i info)))

  -- Steps 1 and 2.
  unfoldable pub admitted : Inputs → RouteInfo → Server → Option Outcome
  unfolding proceed
  admitted i info s = proceed i info (acquire cfg i.wake s)

  abbrev pub route : Inputs → Result String RouteInfo
  route i = parse_route_info x.form_model x.json_info i.path i.body (i.header "Content-Type")

  unfoldable pub on_route : Inputs → Server → Result String RouteInfo → Option Outcome
  unfolding admitted after record_request
  on_route i s (err message) = some (record {
    server = s;
    client = write_relay_error x.error_body invalid_request message new_client;
    status = 0;
    error_code = "";
    node = "";
    message = none;
    frames = [];
  })
  on_route i s (ok info) =
      after (record_request i info.model) (admitted i info (record s { total = s.total + 1 }))

  unfoldable pub handle_proxy : Inputs → Server → Option Outcome
  unfolding on_route
  handle_proxy i s = on_route i s (route i)
