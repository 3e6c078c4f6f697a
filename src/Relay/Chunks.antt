-- ===== src/Relay/Chunks.antt =====
-- handleProxy of internal/relay/proxy.go, step 4: cutting a request body into frames.
use modelrelay.Base.{
  ℕ, zero, suc, ◌+◌, ◌-◌, ◌%◌, ◌^◌, List, [], ◌∷◌, ◌++◌, true, ltb, ◌==◌, length, slice,
  if◌then◌else◌,
}
use modelrelay.Protocol.Frame.{Frame, new_frame, frame_request_body}

abbrev pub body_chunk_size : ℕ
body_chunk_size = 131072

abbrev pub chunk_end : List ℕ → ℕ → ℕ
chunk_end body off =
    if ltb (length body) (off + body_chunk_size) then length body else off + body_chunk_size

unfoldable pub chunk_frame : List ℕ → List ℕ → ℕ → ℕ → Frame
unfolding new_frame
chunk_frame id body off seq =
    record (new_frame frame_request_body id seq (slice off (chunk_end body off - off) body)) {
      first = off == 0;
      last = chunk_end body off == length body;
    }

-- The loop, with the rounds left as fuel. `seq` is a uint32.
unfoldable pub frames_from : ℕ → List ℕ → List ℕ → ℕ → ℕ → List Frame
frames_from zero id body off seq = []
frames_from (suc fuel) id body off seq =
    let rest = frames_from fuel id body (off + body_chunk_size) ((seq + 1) % 2 ^ 32) in
    if ltb off (length body) then chunk_frame id body off ((seq + 1) % 2 ^ 32) ∷ rest else []

-- An empty body is sent as one frame that is first and last.
unfoldable pub empty_frame : List ℕ → Frame
unfolding new_frame
empty_frame id = record (new_frame frame_request_body id 1 []) { first = true; last = true }

-- All frames of a request, in order. Each round advances, so `length body` rounds are enough.
unfoldable pub request_frames : List ℕ → List ℕ → List Frame
request_frames id body =
    frames_from (length body) id body 0 0 ++ (if length body == 0 then empty_frame id ∷ [] else [])
