-- ===== src/Tests/Flow.antt =====
-- The theorems on owners, pending requests, requests and responses as a whole, at concrete inputs.
use mathlib.Core.Bool.{false≢true}
use modelrelay.Base.{
  ℕ, ◌≡◌, refl, true, false, String, List, [], ◌∷◌, ◌++◌, none, some, arith, lookup, string_eq,
  byte_list_eq, ok, err,
}
use modelrelay.Relay.Connection.{connects, kicks}
use modelrelay.Relay.Connection.Kept.{run, new_server}
use modelrelay.Relay.Connection.Owners.{owners, owners_run, run-owners_new}
use modelrelay.Relay.Pending.{PendingRequest, Dispatch, done, text, binary, read_loop}
use modelrelay.Relay.Pending.Isolation.{IsForeign, read_loop-IsForeign}
use modelrelay.Relay.Forward.{Answer, headers, frame, ctx_done, forward, start}
use modelrelay.Relay.Forward.Delivery.{taken}
use modelrelay.Relay.Requests.{new_ring_buffer}
use modelrelay.Relay.Proxy.{Server, ProxyConfig, slot, Externals, Inputs, Outcome}
use modelrelay.Relay.Proxy.Handle.{key_of, route, handle_proxy}
use modelrelay.Relay.Proxy.Handle.Release.{IsSettled, IsLogged, handle_proxy-ends}
use modelrelay.Agent.Response.{running, Served, serve_request, filter_response_headers}
use modelrelay.Agent.Response.Order.{reads, concat_to}
use modelrelay.Transfer.Response.{answers, forward-serve_request}
use modelrelay.Tests.{some_id, some_body, some_frame, flat_hash, some_node}
use modelrelay.Tests.Relay.{hundredths, one_node, the_heap, first-IsNew}

run-owners_new_example :
    owners (run (new_server the_heap) (connects 0 some_node true ∷ kicks "a" ∷ []))
    ≡ owners_run (λ id. none) (connects 0 some_node true ∷ kicks "a" ∷ [])
run-owners_new_example =
    run-owners_new the_heap (connects 0 some_node true ∷ kicks "a" ∷ []) (first-IsNew, (tt, tt))

abbrev a_pending : PendingRequest
a_pending = record {
  request_id = some_id;
  node_id = "a";
  frames = [];
  headers = none;
  done = false;
  error = none;
}

abbrev a_dispatch : Dispatch
a_dispatch = record { registry = one_node; pending = (some_id, a_pending) ∷ []; cancels = [] }

a_pending-found : lookup some_id a_dispatch.pending ≡ some a_pending
unfolding lookup
a_pending-found = refl

-- An agent `b` sends frames and a done for the request of `a`.
read_loop-IsForeign_example :
    IsForeign "b" some_id a_pending
      (read_loop flat_hash 0 "b"
        (binary some_frame ∷ text 0 (done some_id) ∷ [])
        a_dispatch).pending
read_loop-IsForeign_example =
    read_loop-IsForeign "b" some_id a_pending flat_hash 0
      (binary some_frame ∷ text 0 (done some_id) ∷ []) a_dispatch
      (a_pending-found, λ e. false≢true ((string_eq.eqb_iff "a" "b").1 e))

abbrev outside : Externals
outside = record {
  error_body = λ code message. [];
  sha256 = flat_hash;
  bytes = λ s. some_body;
  form_model = λ body. err "no form";
  json_info = λ body. ok (record { model = "m"; stream = false });
  float64 = hundredths;
}

abbrev pub proxy_config : ProxyConfig
proxy_config = record {
  queue_length = 4;
  max_concurrent = 2;
  ttft_timeout_ms = 100;
  idle_timeout_ms = 100;
}

abbrev some_answers : List Answer
some_answers = headers 200 [] ∷ frame (taken some_body) ∷ Answer.done [] ∷ []

abbrev some_inputs : Inputs
some_inputs = record {
  req_id = "r";
  method = "POST";
  path = "/v1/chat/completions";
  query = "";
  header = λ k. "";
  body = some_body;
  time = 0;
  ttft_ms = 0;
  duration_ms = 0;
  wake = slot;
  deadline = 0;
  looks = record { registry = one_node; now = 0; done = false } ∷ [];
  ctx_deadline = false;
  request_sent = true;
  send_error = "";
  frames_sent = [];
  answers = some_answers ++ (ctx_done ∷ []);
}

abbrev pub idle_server : Server
idle_server = record {
  registry = one_node;
  pending = [];
  sem = 0;
  waiting = 0;
  total = 0;
  success = 0;
  failed = 0;
  canceled = 0;
  queue_full_total = 0;
  records = new_ring_buffer 2;
}

nothing_pending : lookup (key_of outside proxy_config some_inputs) idle_server.pending ≡ none
unfolding lookup
nothing_pending = refl

handle_proxy-ends_example :
    (o : Outcome) × (handle_proxy outside proxy_config some_inputs idle_server ≡ some o)
    × IsSettled idle_server o.server
    × IsLogged some_inputs (route outside proxy_config some_inputs) idle_server o
handle_proxy-ends_example =
    handle_proxy-ends outside proxy_config some_inputs some_answers refl 0 0 idle_server
      (λ info. (omega arith, tt)) (omega arith) (omega arith) nothing_pending

abbrev no_error : String → String → List ℕ
no_error code message = []

forward-serve_request_example :
    (r : Served) × (serve_request some_id running
        (ok some_body)
        none
        (ok (record {
          status = 200;
          header = λ k. "";
          reads = reads (some_body ∷ [] ∷ []) some_body;
        }))
        []
      ≡ some r)
    × (let (f, returned) = forward no_error (start true true) (answers 1 [] r.sent) in
        (returned ≡ true)
        × (f.client ≡ record {
          status = some 200;
          headers = filter_response_headers (λ k. "");
          body = concat_to (some_body ∷ [] ∷ []) some_body;
        })
        × (f.success ≡ 1))
    × (r.requests_ok ≡ 1)
forward-serve_request_example =
    forward-serve_request no_error true true some_id running some_body 200 (λ k. "")
      (some_body ∷ [] ∷ []) some_body 1 (omega arith) (omega arith) refl
      (omega arith, (omega arith, tt)) (omega arith) (omega arith)
