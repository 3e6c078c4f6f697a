-- ===== src/Relay/Forward.antt =====
-- forwardResponse of internal/relay/proxy.go: what the client gets while the agent answers. Its
-- `select` takes what is ready in any order, so it runs on a list of events; each step tells
-- whether the function returned. Flushing and the metric of the first token are left out.
pub mod Delivery
pub mod Counters
use text.Mathlib.Text.{◌==◌ as str_eq}
use modelrelay.Base.{
  ℕ, ◌+◌, Bool, true, false, not, ◌&&◌, ◌||◌, String, List, [], ◌∷◌, ◌++◌, Option, none, some,
  select, any, ◌==◌, leb, if◌then◌else◌,
}
use modelrelay.Protocol.Codes.{http_status, canceled, ttft_timeout, idle_timeout}

-- The http.ResponseWriter: the first final status stays, and a body without a status is a 200.
pub record Client : Type 0 where
  pub status : Option ℕ
  pub headers : List (String × String)
  pub body : List ℕ

abbrev pub status_or : Option ℕ → ℕ → ℕ
status_or none code = code
status_or (some sent) code = sent

-- An informational status is sent on its own, and the answer still has none.
abbrev pub is_informational : ℕ → Bool
is_informational code = leb 100 code && leb code 199 && not (code == 101)

-- net/http panics for a status below 100 or above 999, which is not modelled.
unfoldable pub write_header : ℕ → Client → Client
write_header code c = record c {
  status = if is_informational code then c.status else some (status_or c.status code);
}

unfoldable pub write : List ℕ → Client → Client
unfolding write_header
write payload c = record (write_header 200 c) { body = c.body ++ payload }

-- What forwardResponse keeps: its local variables, the record of the request, the counters and the
-- reasons of the cancel messages that it sent to the node.
pub record Forward : Type 0 where
  pub client : Client
  pub wrote_header : Bool
  pub ttft_armed : Bool
  pub idle_armed : Bool
  pub rec_status : ℕ
  pub rec_error : String
  pub success : ℕ
  pub failed : ℕ
  pub canceled : ℕ
  pub cancels : List String

-- A frame's payload, and whether the client took it.
abbrev pub Chunk : Type 0
Chunk = List ℕ × Bool

-- What the `select` takes; `done` and `error` come with the frames that are queued by then.
pub data Answer : Type 0 where
  ctx_done ttft_fired idle_fired : Answer
  headers : ℕ → List (String × String) → Answer
  frame : Chunk → Answer
  done : List Chunk → Answer
  error : String → String → List Chunk → Answer

abbrev pub is_passed_on : String × String → Bool
is_passed_on (k, v) =
    not (str_eq v "")
    && any (λ name. str_eq k name)
        ("Content-Type" ∷ "Content-Disposition" ∷ "Cache-Control" ∷ "ETag" ∷ "X-Request-Id" ∷ [])

unfoldable pub apply_headers : ℕ → List (String × String) → Client → Client
unfolding write_header
apply_headers code hs c =
    write_header code (record c { headers = c.headers ++ select is_passed_on hs })

-- The drain loops: `false` when the client does not take a frame.
unfoldable pub drain : List Chunk → Client → Client × Bool
unfolding write
drain [] c = (c, true)
drain ((payload, taken) ∷ chunks) c = if taken then drain chunks (write payload c) else (c, false)

-- The client closed its request (499): no such status is written, a timeout (408) is.
abbrev pub written_status : String → ℕ
written_status code = if http_status code == 499 then 408 else http_status code

-- `error_body` is openAIErrorBody.
module _ (error_body : String → String → List ℕ) where
  unfoldable pub write_relay_error : String → String → Client → Client
  unfolding write write_header
  write_relay_error code message c =
      let c' = record c { headers = c.headers ++ (("Content-Type", "application/json") ∷ []) } in
      write (error_body code message) (write_header (written_status code) c')

  -- An error ends the request; the client is told if no header was written yet.
  unfoldable pub give_up : ℕ → String → String → Forward → Forward
  unfolding write_relay_error
  give_up status code message s = record s {
    rec_status = status;
    rec_error = code;
    client = if s.wrote_header then s.client else write_relay_error code message s.client;
  }

  unfoldable pub count_failed : Forward → Forward
  count_failed s = record s { failed = s.failed + 1 }

  unfoldable pub cancel_node : String → Forward → Forward
  cancel_node reason s = record s { cancels = s.cancels ++ (reason ∷ []) }

  unfoldable pub on_ctx_done : Forward → Forward
  unfolding give_up cancel_node
  on_ctx_done s =
      let s' = cancel_node "client_closed" (record s { canceled = s.canceled + 1 }) in
      if s.wrote_header then s' else give_up 499 canceled "request canceled" s'

  unfoldable pub on_frame : Chunk → Forward → Forward × Bool
  unfolding write write_header
  on_frame (payload, taken) s =
      let c =
        if s.wrote_header
        then s.client
        else write_header 200 (record s.client {
          headers = s.client.headers ++ (("Content-Type", "application/json") ∷ []);
        }) in
      if taken
      then (record s { client = write payload c; wrote_header = true; ttft_armed = false }, false)
      else (record s { client = c; wrote_header = true }, true)

  unfoldable pub on_done : List Chunk → Forward → Forward
  unfolding drain write_header
  on_done chunks s =
      let (c, complete) = drain chunks s.client in
      if complete
      then record s {
        client = write_header 200 c;
        success = s.success + 1;
        rec_status = if s.rec_status == 0 then 200 else s.rec_status;
      }
      else record s { client = c }

  unfoldable pub on_error : String → String → List Chunk → Forward → Forward
  unfolding drain give_up count_failed
  on_error code message chunks s =
      let (c, complete) = drain chunks s.client in
      if complete
      then give_up (http_status code) code message (count_failed (record s { client = c }))
      else record s { client = c }

  -- One round of the loop, and whether it returned. A timer that is off never fires.
  unfoldable pub round : Forward → Answer → Forward × Bool
  unfolding on_ctx_done on_frame on_done on_error give_up count_failed cancel_node apply_headers
  round s ctx_done = (on_ctx_done s, true)
  round s (headers code hs) = (
    record s {
      rec_status = code;
      client = apply_headers code hs s.client;
      wrote_header = true;
      ttft_armed = false;
    },
    false,
  )
  round s ttft_fired =
      if s.ttft_armed
      then (
        give_up 504 ttft_timeout "first token timeout"
            (cancel_node "ttft_timeout" (count_failed s)),
        true,
      )
      else (s, false)
  round s idle_fired =
      if s.idle_armed
      then (
        give_up 504 idle_timeout "stream idle timeout"
            (cancel_node "idle_timeout" (count_failed s)),
        true,
      )
      else (s, false)
  round s (frame chunk) = on_frame chunk s
  round s (done chunks) = (on_done chunks s, true)
  round s (error code message chunks) = (on_error code message chunks s, true)

  -- The loop, until it returns or waits.
  unfoldable pub forward : Forward → List Answer → Forward × Bool
  unfolding round
  forward s [] = (s, false)
  forward s (e ∷ es) =
      let (s', returned) = round s e in
      let rest = forward s' es in if returned then (s', true) else rest

-- The state at the start; a timeout of 0 is none.
unfoldable pub start : Bool → Bool → Forward
start ttft idle = record {
  client = record { status = none; headers = []; body = [] };
  wrote_header = false;
  ttft_armed = ttft;
  idle_armed = idle;
  rec_status = 0;
  rec_error = "";
  success = 0;
  failed = 0;
  canceled = 0;
  cancels = [];
}
