-- ===== src/Agent/Body.antt =====
-- assembleBody of internal/agent/agent.go, and which frames it can get (dispatchFrame of connector.go).
-- What the goroutine receives is a list of events, in the order in which its `select` takes them.
pub mod Safety
use modelrelay.Base.{
  ℕ, ◌+◌, ◌≤◌, ◌≡◌, refl, Bool, true, false, List, [], ◌∷◌, ◌++◌, Option, none, some, arith, ltb,
  ◌==◌, length, length-append, if◌then◌else◌, Result, ok, err,
}
use modelrelay.Protocol.Frame.{Frame, frame_request_body, decode_frame}

-- The frame that `dispatchFrame` hands on: a message that is no frame, or no request body, is dropped.
unfoldable pub body_frame_of : List ℕ → Option Frame
body_frame_of message = elim (decode_frame message) [
  | err e ↦ none
  | ok (f, rest) ↦ if f.typ == frame_request_body then some f else none
]

pub data BodyEvent : Type 0 where
  ctx_done request_done timer_fired : BodyEvent
  body_frame : Frame → BodyEvent

pub data BodyError : Type 0 where
  context_error canceled timeout exceeds_declared length_mismatch : BodyError

-- `none` means that the loop still waits.
unfoldable pub assemble_body : ℕ → List ℕ → List BodyEvent → Option (Result BodyError (List ℕ))
assemble_body body_len buf [] = none
assemble_body body_len buf (ctx_done ∷ evs) = some (err context_error)
assemble_body body_len buf (request_done ∷ evs) = some (err canceled)
assemble_body body_len buf (timer_fired ∷ evs) = some (err timeout)
assemble_body body_len buf (body_frame f ∷ evs) =
    let more = assemble_body body_len (buf ++ f.payload) evs in
    let finished : Option (Result BodyError (List ℕ)) =
      if length (buf ++ f.payload) == body_len
      then some (ok (buf ++ f.payload))
      else some (err length_mismatch) in
    if ltb body_len (length buf + length f.payload)
    then some (err exceeds_declared)
    else if f.last
    then finished
    else more

module _ (body_len : ℕ) (buf : List ℕ) (f : Frame) (evs : List BodyEvent) where
  pub assemble_body-last :
      f.last ≡ true
      → length (buf ++ f.payload) ≡ body_len
      → assemble_body body_len buf (body_frame f ∷ evs) ≡ some (ok (buf ++ f.payload))
  unfolding assemble_body
  assemble_body-last h e = ground (arith, length-append buf f.payload)

  pub assemble_body-more :
      f.last ≡ false
      → length (buf ++ f.payload) ≤ body_len
      → assemble_body body_len buf (body_frame f ∷ evs)
        ≡ assemble_body body_len (buf ++ f.payload) evs
  unfolding assemble_body
  assemble_body-more h e = ground (arith, length-append buf f.payload)
