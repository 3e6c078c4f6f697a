-- ===== src/Relay/Proxy.antt =====
-- handleProxy of internal/relay/proxy.go with acquire, classifySelectorErr, whitelistHeaders and
-- parseRouteInfo: one request from its arrival to its end. What happens outside is an input: how
-- the waits end, which writes to the node succeed, and what forwardResponse gets. The measured times
-- are inputs too. What other requests do meanwhile shows in those inputs only.
pub mod Handle
use Prim.Native.String.{◌++◌ as str_append}
use text.Mathlib.Text.{◌==◌ as str_eq, starts_with}
use modelrelay.Base.{
  ℕ, ◌+◌, ◌-◌, Bool, true, false, not, ◌&&◌, String, List, [], ◌∷◌, Option, none, some, ltb, leb,
  ◌==◌, length, select, map, if◌then◌else◌, Result, ok, err,
}
use modelrelay.Protocol.Codes.{
  http_status, invalid_request, canceled, queue_full, queue_timeout, no_available_node,
}
use modelrelay.Protocol.Frame.{Frame}
use modelrelay.Protocol.RequestId.{request_id_bytes}
use modelrelay.Relay.Node.{Node, reserve, release}
use modelrelay.Relay.Registry.{Registry, at}
use modelrelay.Relay.Scheduler.{
  SelectError, model_not_found, capability_not_supported, no_node_online, all_nodes_busy, Float64,
}
use modelrelay.Relay.Scheduler.Waiting.{Poll, WaitError, select_failed, context_done, wait_for_node}
use modelrelay.Relay.Chunks.{request_frames}
use modelrelay.Relay.Forward.{Client, Answer, Forward, write_relay_error, forward, start}
use modelrelay.Relay.Pending.{PendingRegistry, new_pending_request, add, remove}
use modelrelay.Relay.Requests.{RequestRecord, RingBuffer, push}

-- `sem` is the number of tokens in the channel.
pub record Server : Type 0 where
  pub registry : Registry
  pub pending : PendingRegistry
  pub sem : ℕ
  pub waiting : ℕ
  pub total : ℕ
  pub success : ℕ
  pub failed : ℕ
  pub canceled : ℕ
  pub queue_full_total : ℕ
  pub records : RingBuffer

pub record ProxyConfig : Type 0 where
  pub queue_length : ℕ
  pub max_concurrent : ℕ
  pub ttft_timeout_ms : ℕ
  pub idle_timeout_ms : ℕ

-- The case that acquire's `select` takes; `slot` waits for the timer while no slot is free.
pub data Wake : Type 0 where
  slot timer ctx_done : Wake

pub data AcquireError : Type 0 where
  full timed_out ended : AcquireError

module _ (cfg : ProxyConfig) where
  abbrev wait_for_slot : Wake → Server → Server × Result AcquireError (Unit {0})
  wait_for_slot slot s =
      if ltb s.sem cfg.max_concurrent
      then (record s { sem = s.sem + 1 }, ok tt)
      else (s, err timed_out)
  wait_for_slot timer s = (s, err timed_out)
  wait_for_slot ctx_done s = (s, err ended)

  unfoldable pub acquire : Wake → Server → Server × Result AcquireError (Unit {0})
  acquire wake s =
      if leb cfg.queue_length s.waiting
      then (record s { queue_full_total = s.queue_full_total + 1 }, err full)
      else (let (s', r) = wait_for_slot wake (record s { waiting = s.waiting + 1 }) in
          (record s' { waiting = s'.waiting - 1 }, r))

-- `deadline`: the context ended by its deadline.
unfoldable pub classify_selector_err : Bool → WaitError → String
classify_selector_err deadline (select_failed model_not_found) =
    modelrelay.Protocol.Codes.model_not_found
classify_selector_err deadline (select_failed capability_not_supported) =
    modelrelay.Protocol.Codes.capability_not_supported
classify_selector_err deadline (select_failed no_node_online) = no_available_node
classify_selector_err deadline (select_failed all_nodes_busy) = no_available_node
classify_selector_err deadline context_done = if deadline then queue_timeout else no_available_node

-- The texts of the errors; a context's are those of Go's package context.
unfoldable pub error_text : Bool → WaitError → String
error_text deadline (select_failed model_not_found) = "model_not_found"
error_text deadline (select_failed capability_not_supported) = "capability_not_supported"
error_text deadline (select_failed no_node_online) = "no_available_node: no node online"
error_text deadline (select_failed all_nodes_busy) = "no_available_node: all nodes busy or draining"
error_text deadline context_done =
    if deadline then "context deadline exceeded" else "context canceled"

-- `header` is r.Header.Get.
unfoldable pub whitelist_headers : (String → String) → List (String × String)
whitelist_headers header =
    select (λ e. not (str_eq e.1 ""))
      (map (λ k. (k, header k))
        ("Content-Type" ∷ "Accept" ∷ "OpenAI-Beta" ∷ "Idempotency-Key" ∷ "Content-Disposition"
          ∷ "X-Request-Id" ∷ []))

pub record RouteInfo : Type 0 where
  pub model : String
  pub stream : Bool

unfoldable pub parse_route_info :
    (List ℕ → Result String String)
    → (List ℕ → Result String RouteInfo)
    → String
    → List ℕ
    → String
    → Result String RouteInfo
parse_route_info form_model json_info path body content_type =
    if str_eq path "/v1/models"
    then ok (record { model = ""; stream = false })
    else if length body == 0
    then err "empty request body"
    else if starts_with content_type "multipart/form-data"
    then elim (form_model body) [
      | err e ↦ err (str_append "parse multipart: " e)
      | ok model ↦ ok (record { model = model; stream = false })
    ]
    else elim (json_info body) [
      | err e ↦ err (str_append "invalid JSON body: " e)
      | ok info ↦ ok info
    ]

-- protocol.Request as it is sent; the body's encoding is always "raw".
pub record RequestMessage : Type 0 where
  pub request_id : String
  pub method : String
  pub path : String
  pub query : String
  pub headers : List (String × String)
  pub body_len : ℕ
  pub stream : Bool

-- A round of WaitForNode: the registry that Select sees, the clock, and whether the context is done.
pub record Look : Type 0 where
  pub registry : Registry
  pub now : ℕ
  pub done : Bool

-- One request, and what it meets outside; `send_error` is the text of a failed write.
pub record Inputs : Type 0 where
  pub req_id : String
  pub method : String
  pub path : String
  pub query : String
  pub header : String → String
  pub body : List ℕ
  pub time : ℕ
  pub ttft_ms : ℕ
  pub duration_ms : ℕ
  pub wake : Wake
  pub deadline : ℕ
  pub looks : List Look
  pub ctx_deadline : Bool
  pub request_sent : Bool
  pub send_error : String
  pub frames_sent : List Bool
  pub answers : List Answer

-- What a request leaves: the server, the client's response, the fields of its record, and what was
-- sent to the node.
pub record Outcome : Type 0 where
  pub server : Server
  pub client : Client
  pub status : ℕ
  pub error_code : String
  pub node : String
  pub message : Option RequestMessage
  pub frames : List Frame

-- The frames that were sent, and whether all were; a write without an outcome succeeds.
unfoldable pub send_frames : List Frame → List Bool → List Frame × Bool
send_frames [] oks = ([], true)
send_frames (f ∷ fs) [] = (f ∷ fs, true)
send_frames (f ∷ fs) (false ∷ oks) = ([], false)
send_frames (f ∷ fs) (true ∷ oks) = let (sent, all) = send_frames fs oks in (f ∷ sent, all)

abbrev pub new_client : Client
new_client = record { status = none; headers = []; body = [] }

unfoldable pub after : (Outcome → Outcome) → Option Outcome → Option Outcome
after f none = none
after f (some o) = some (f o)

abbrev pub release_slot : Outcome → Outcome
release_slot o = record o { server = record o.server { sem = o.server.sem - 1 } }

unfoldable pub release_node : ℕ → Outcome → Outcome
release_node p o = record o {
  server = record o.server { registry = at p release o.server.registry };
}

unfoldable pub remove_pending : List ℕ → Outcome → Outcome
remove_pending key o = record o {
  server = record o.server { pending = remove key o.server.pending };
}

-- The code outside: `error_body` is openAIErrorBody (encoding/json), `bytes` are the bytes of a text,
-- `form_model` parses a multipart form and `json_info` a JSON object.
pub record Externals : Type 1 where
  pub error_body : String → String → List ℕ
  pub sha256 : List ℕ → List ℕ
  pub bytes : String → List ℕ
  pub form_model : List ℕ → Result String String
  pub json_info : List ℕ → Result String RouteInfo
  pub float64 : Float64

module _ (error_body : String → String → List ℕ) where
  -- An error that is counted, with the record's status and node.
  unfoldable pub refuse : ℕ → String → String → String → Server → Outcome
  refuse status code message node s = record {
    server = record s { failed = s.failed + 1 };
    client = write_relay_error error_body code message new_client;
    status = status;
    error_code = code;
    node = node;
    message = none;
    frames = [];
  }

  abbrev pub refuse_acquire : AcquireError → Server → Outcome
  refuse_acquire full s = refuse 429 queue_full "relay queue is full" "" s
  refuse_acquire timed_out s = refuse 503 queue_timeout "timed out waiting in relay queue" "" s
  refuse_acquire ended s = refuse 499 canceled "request canceled" "" s
