-- ===== src/Agent/Response.antt =====
-- serveRequest of internal/agent/agent.go: from the assembled body to the last message to the relay.
-- What the local server answers and which writes succeed are inputs.
pub mod Order
use text.Mathlib.Text.{◌==◌ as str_eq}
use modelrelay.Base.{
  ℕ, ◌+◌, ◌%◌, ◌^◌, Bool, true, false, not, ◌&&◌, String, List, [], ◌∷◌, Option, none, some, map,
  ltb, length, select, if◌then◌else◌, Result, ok, err,
}
use modelrelay.Protocol.Codes.{
  invalid_request, canceled, upstream_timeout, upstream_connection_failed,
}
use modelrelay.Protocol.Frame.{Frame, FrameError, new_frame, encode, frame_response_body}
use modelrelay.Agent.Body.{BodyError, context_error, timeout, exceeds_declared, length_mismatch}

-- The messages of a request to the relay; the times of Done are left out.
pub data Message : Type 0 where
  response_headers : ℕ → List (String × String) → Message
  body : Frame → Message
  done : ℕ → List (String × String) → Message
  error : String → String → Message

-- What ctx.Err() is: nil, Canceled or DeadlineExceeded.
pub data Context : Type 0 where
  running is_canceled timed_out : Context

-- One resp.Body.Read: the bytes, and the error.
pub data ReadEnd : Type 0 where
  more eof : ReadEnd
  failed : String → ReadEnd

pub record Read : Type 0 where
  pub bytes : List ℕ
  pub end : ReadEnd

pub record Response : Type 0 where
  pub status : ℕ
  pub header : String → String
  pub reads : List Read

-- The messages that were written, and what the exit counted.
pub record Served : Type 0 where
  pub sent : List Message
  pub requests_ok : ℕ
  pub requests_failed : ℕ

-- The writes to the relay, in order; one without an outcome succeeds.
abbrev pub next_write : List Bool → Bool
next_write [] = true
next_write (written ∷ oks) = written

abbrev pub later_writes : List Bool → List Bool
later_writes [] = []
later_writes (written ∷ oks) = oks

abbrev pub stopped : Served
stopped = record { sent = []; requests_ok = 0; requests_failed = 0 }

unfoldable pub then_send : Message → Option Served → Option Served
then_send m none = none
then_send m (some r) = some (record r { sent = m ∷ r.sent })

-- The code of an upstream error.
unfoldable pub upstream_code : Context → String
upstream_code running = upstream_connection_failed
upstream_code is_canceled = canceled
upstream_code timed_out = upstream_timeout

-- An error message ends the request; a write that fails is ignored.
unfoldable pub fail : String → String → List Bool → Served
fail code message oks = record {
  sent = if next_write oks then error code message ∷ [] else [];
  requests_ok = 0;
  requests_failed = 1;
}

abbrev pub response_header_names : List String
response_header_names =
    "Content-Type" ∷ "Content-Disposition" ∷ "Cache-Control" ∷ "ETag" ∷ "X-Request-Id" ∷ []

unfoldable pub filter_response_headers : (String → String) → List (String × String)
filter_response_headers header =
    select (λ e. not (str_eq e.1 "")) (map (λ k. (k, header k)) response_header_names)

abbrev pub is_eof : ReadEnd → Bool
is_eof eof = true
is_eof _ = false

abbrev is_encoded : Result FrameError (List ℕ) → Bool
is_encoded (ok message) = true
is_encoded (err e) = false

-- WriteFrame of connector.go.
unfoldable pub write_frame : Frame → Bool → Bool
write_frame f written = is_encoded (encode f) && written

unfoldable pub send_done : ℕ → List (String × String) → List Bool → Served
send_done status hdr oks =
    if next_write oks
    then record { sent = done status hdr ∷ []; requests_ok = 1; requests_failed = 0 }
    else stopped

unfoldable pub body_frame : List ℕ → Bool → ℕ → Read → Frame
unfolding new_frame
body_frame id16 first seq r = record (new_frame frame_response_body id16 seq r.bytes) {
  first = first;
  last = is_eof r.end;
}

module _ (id16 : List ℕ) (status : ℕ) (hdr : List (String × String)) (ctx : Context) where
  -- After a read and its frame: `rest` is the rest of the loop.
  unfoldable pub after_read : ReadEnd → List Bool → Option Served → Option Served
  unfolding fail send_done upstream_code
  after_read more oks rest = rest
  after_read eof oks rest = some (send_done status hdr oks)
  after_read (failed message) oks rest = some (fail (upstream_code ctx) message oks)

  -- The loop over the reads; `none` means that the server has not sent more yet. `seq` is a uint32.
  unfoldable pub body_loop : Bool → ℕ → List Bool → List Read → Option Served
  unfolding body_frame after_read then_send write_frame
  body_loop first seq oks [] = none
  body_loop first seq oks (r ∷ rs) =
      let seq' = (seq + 1) % 2 ^ 32 in
      let f = body_frame id16 first seq' r in
      let quiet = body_loop first seq oks rs in
      let sent = body_loop false seq' (later_writes oks) rs in
      if ltb 0 (length r.bytes)
      then (if write_frame f (next_write oks)
          then then_send (body f) (after_read r.end (later_writes oks) sent)
          else some stopped)
      else after_read r.end oks quiet

-- The texts of assembleBody's errors.
unfoldable pub body_error_text : Context → BodyError → String
body_error_text timed_out context_error = "context deadline exceeded"
body_error_text _ timeout = "request body assembly timeout"
body_error_text _ exceeds_declared = "request body exceeds declared length"
body_error_text _ length_mismatch = "request body length mismatch"
body_error_text _ _ = "context canceled"

-- serveRequest with the outcome of assembleBody, of BuildRequest (`none` if it succeeds) and of Do.
unfoldable pub serve_request :
    List ℕ
    → Context
    → Result BodyError (List ℕ)
    → Option String
    → Result String Response
    → List Bool
    → Option Served
unfolding fail upstream_code filter_response_headers body_loop then_send body_error_text
serve_request id16 ctx (err e) unbuilt answer oks =
    some (fail invalid_request (body_error_text ctx e) oks)
serve_request id16 ctx (ok bytes) (some message) answer oks =
    some (fail invalid_request message oks)
serve_request id16 ctx (ok bytes) none (err message) oks =
    some (fail (upstream_code ctx) message oks)
serve_request id16 ctx (ok bytes) none (ok resp) oks =
    let hdr = filter_response_headers resp.header in
    if next_write oks
    then then_send (response_headers resp.status hdr)
        (body_loop id16 resp.status hdr ctx true 0 (later_writes oks) resp.reads)
    else some stopped
