-- ===== src/Tests/Links.antt =====
-- The theorems on the two ends of a connection and on the HTTP service at concrete inputs.
use modelrelay.Base.{
  ◌≡◌, refl, true, false, String, List, [], ◌∷◌, none, some, lookup, string_eq, if◌then◌else◌,
}
use modelrelay.Relay.Connection.{accept, allocate}
use modelrelay.Relay.Connection.Kept.{new_server}
use modelrelay.Relay.Registry.{at, try_register}
use modelrelay.Relay.Handshake.{
  Certificate, Hello, Connect, textual, hello, Setting, handle_connect, checked, register_node,
  agent_origin,
}
use modelrelay.Relay.Handshake.Admission.{IsAdmitted, handle_connect-IsAdmitted}
use modelrelay.Config.Relay.{pos}
use modelrelay.Config.Agent.{RelayAddr}
use modelrelay.Agent.Connector.{
  int_le, Attempt, accepted, Round, LinkState, try_relays, sorted_relays, run,
}
use modelrelay.Agent.Connector.Priority.{Chosen, try_relays-sorted_relays}
use modelrelay.Agent.Connector.Backoff.{waits_from, run-waits}
use modelrelay.Protocol.Path.{is_allowed_path}
use modelrelay.Relay.Upstream.{
  UpstreamConfig, HttpRequest, proxied, check_auth, normalized, read_body, pass_on, route, handle,
}
use modelrelay.Relay.Upstream.Access.{Access, handle-Access}
use modelrelay.Tests.{flat_hash, some_body}
use modelrelay.Tests.Relay.{one_node, the_heap}
use modelrelay.Tests.Agent.{idle_agent}

abbrev some_hello : Hello
some_hello = record {
  protocol = 1;
  node_id = "a";
  agent_version = "1";
  os = "linux";
  arch = "amd64";
  models = [];
  max_concurrency = 0;
}

abbrev some_cert : Certificate
some_cert = record {
  common_name = "a";
  uris = "spiffe://modelrelay/agent/a" ∷ [];
  serial = "7";
  subject = "";
  issuer = "";
  not_before = 0;
  not_after = 9;
  fingerprint = "";
}

abbrev some_connect : Connect
some_connect = record {
  origin = agent_origin;
  upgraded = true;
  first_message = textual 100 (hello some_hello);
  peer = some some_cert;
}

abbrev some_setting : Setting
some_setting = record {
  timeout = 60;
  now = 0;
  address = 0;
  readable = true;
  writable = true;
  acked = true;
}

abbrev same_text : String → String
same_text s = s

read_at_last :
    (handle_connect same_text same_text some_setting some_connect
      (new_server the_heap)
      none).reading
    ≡ true
unfolding handle_connect checked register_node new_server accept allocate try_register lookup at
read_at_last = refl

handle_connect-IsAdmitted_example :
    IsAdmitted same_text same_text some_setting some_connect none
      (handle_connect same_text same_text some_setting some_connect (new_server the_heap) none)
handle_connect-IsAdmitted_example =
    handle_connect-IsAdmitted same_text same_text some_setting some_connect (new_server the_heap)
      none read_at_last

abbrev some_relays : List RelayAddr
some_relays =
    record { url = "wss://b"; priority = pos 2 } ∷ record { url = "wss://a"; priority = pos 1 } ∷ []

abbrev good_attempt : Attempt
good_attempt = record { tls_error = none; dial_error = none; hello_error = none; ack = accepted }

-- Only the second choice answers.
abbrev some_round : Round
some_round = record {
  attempt = λ r.
      if int_le r.priority (pos 1)
      then record good_attempt { dial_error = some "refused" }
      else good_attempt;
  received = λ r. [];
  jitter = 500;
}

abbrev idle_link : LinkState
idle_link = record { agent = idle_agent; heartbeat_ok = false; reconnects = 0; probes = 0 }

try_relays-sorted_relays_example :
    Chosen some_round some_relays
      (try_relays flat_hash 100 2 some_round (sorted_relays some_relays) idle_link).1
try_relays-sorted_relays_example =
    try_relays-sorted_relays flat_hash 100 2 some_round some_relays idle_link

run-waits_example :
    (run flat_hash 100 2 some_relays 0 (some_round ∷ some_round ∷ []) idle_link).2
    ≡ waits_from 0 (some_round ∷ some_round ∷ [])
run-waits_example = run-waits flat_hash 100 2 some_relays (some_round ∷ some_round ∷ []) idle_link

abbrev upstream_config : UpstreamConfig
upstream_config = record {
  internal_auth_enabled = true;
  internal_auth_token = "t";
  max_body_bytes = 100;
}

abbrev http_request : HttpRequest
http_request = record {
  authorization = "Bearer t";
  method = "POST";
  path = "/v1/completions/";
  query = "";
  body = some_body;
  read_error = none;
}

handle-Access_example :
    Access upstream_config one_node http_request (handle upstream_config one_node http_request)
handle-Access_example = handle-Access upstream_config one_node http_request

-- The slash at the end is dropped.
handled :
    handle upstream_config one_node http_request ≡ proxied "POST" "/v1/completions" "" some_body
unfolding handle check_auth route normalized pass_on read_body is_allowed_path
handled = refl
