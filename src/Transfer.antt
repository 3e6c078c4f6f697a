-- ===== src/Transfer.antt =====
-- The frames that handleProxy (internal/relay/proxy.go) cuts a request body into, as assembleBody
-- (internal/agent/agent.go) gets them; Transfer/Request has their way there.
pub mod Request
pub mod Response
use mathlib.Core.List.{append-nil}
use modelrelay.Base.{
  ℕ, zero, suc, ◌+◌, ◌-◌, ◌%◌, ◌^◌, ◌≤◌, ◌<◌, ◌≡◌, refl, ap, ◌∙◌, inl, inr, false, List, [], ◌∷◌,
  ◌++◌, map, Option, none, some, arith, ltb, lt→ltb, ◌==◌, ==_iff, length, take, drop, length-take,
  All-append, take-take-drop, take_all, All, ok, err, Bool-cases,
}
use modelrelay.Protocol.Frame.{Frame, frame_request_body, encode, decode_frame}
use modelrelay.Protocol.Frame.RoundTrip.{IsFrame, decode_frame-encode}
use modelrelay.Relay.Chunks.{
  body_chunk_size, chunk_end, chunk_frame, frames_from, empty_frame, request_frames,
}
use modelrelay.Agent.Body.{
  BodyEvent, body_frame, assemble_body, assemble_body-last, assemble_body-more,
}

module _ (id : List ℕ) (body : List ℕ) where
  -- A chunk continues what was sent before it.
  chunk-continues :
      (off seq : ℕ)
      → off ≤ length body
      → take off body ++ (chunk_frame id body off seq).payload ≡ take (chunk_end body off) body
  unfolding chunk_frame
  chunk-continues off seq h =
      take-take-drop off (chunk_end body off - off) body ∙ ap (λ n. take n body) (ground arith)

  chunk-fits :
      (off seq : ℕ)
      → off ≤ length body
      → length (take off body ++ (chunk_frame id body off seq).payload) ≡ chunk_end body off
  chunk-fits off seq h =
      rw (chunk-continues off seq h) (ground (arith, length-take (chunk_end body off) body))

  chunk-last :
      (off seq : ℕ) → (chunk_frame id body off seq).last ≡ (chunk_end body off == length body)
  unfolding chunk_frame
  chunk-last off seq = refl

  frames_from-step :
      (fuel off seq : ℕ)
      → off < length body
      → frames_from (suc fuel) id body off seq
        ≡ chunk_frame id body off ((seq + 1) % 2 ^ 32)
          ∷ frames_from fuel id body (off + body_chunk_size) ((seq + 1) % 2 ^ 32)
  unfolding frames_from
  frames_from-step fuel off seq h = rw (lt→ltb off (length body) h)

  -- From any offset that the loop reaches, what was sent before and the rest make the body.
  assemble_body-frames_from :
      (fuel off seq : ℕ)
      → off < length body
      → length body ≤ off + fuel
      → assemble_body
          (length body)
          (take off body)
          (map body_frame (frames_from fuel id body off seq))
        ≡ some (ok body)
  assemble_body-frames_from zero off seq h k = absurd (omega arith)
  assemble_body-frames_from (suc fuel) off seq h k =
      rw (frames_from-step fuel off seq h) (elim (Bool-cases (chunk_end body off == length body)) [
        | inl done ↦
            let size = chunk-fits off ((seq + 1) % 2 ^ 32) (omega arith) in
            assemble_body-last (length body) (take off body) _ _ (chunk-last off _ ∙ done)
              (size ∙ (==_iff _ _).0 done)
            ∙ ap (λ b. some (ok b))
                (chunk-continues off _ (omega arith)
                  ∙ take_all (chunk_end body off) body (ground arith))
        | inr more ↦
            let size = chunk-fits off ((seq + 1) % 2 ^ 32) (omega arith) in
            let next : chunk_end body off ≡ off + body_chunk_size = ground arith in
            assemble_body-more (length body) (take off body) _ _ (chunk-last off _ ∙ more)
              (ground arith)
            ∙ rw (chunk-continues off ((seq + 1) % 2 ^ 32) (omega arith), next)
                (assemble_body-frames_from fuel (off + body_chunk_size) _ (ground arith)
                  (omega arith))
      ])

abbrev pub IsRequestFrame : List ℕ → Frame → Type 0
IsRequestFrame id f = IsFrame f × ((f.typ ≡ frame_request_body) × (f.request_id ≡ id))

chunk_frame-IsRequestFrame :
    (id body : List ℕ) (off seq : ℕ)
    → length id ≡ 16
    → IsRequestFrame id (chunk_frame id body off ((seq + 1) % 2 ^ 32))
unfolding chunk_frame
chunk_frame-IsRequestFrame id body off seq h = (
  record {
    known = inl refl;
    id_size = h;
    seq_range = omega arith;
    payload_size = ground (arith, length-take (chunk_end body off - off) (drop off body));
  },
  (refl, refl),
)

frames_from-IsRequestFrame :
    (id body : List ℕ) (fuel off seq : ℕ)
    → length id ≡ 16
    → All (IsRequestFrame id) (frames_from fuel id body off seq)
unfolding frames_from
frames_from-IsRequestFrame id body zero off seq h = tt
frames_from-IsRequestFrame id body (suc fuel) off seq h =
    elim (Bool-cases (ltb off (length body))) [
      | inl more ↦ rw more (
        chunk_frame-IsRequestFrame id body off seq h,
        frames_from-IsRequestFrame id body fuel (off + body_chunk_size) ((seq + 1) % 2 ^ 32) h,
      )
      | inr done ↦ rw done tt
    ]

empty_frame-IsRequestFrame : (id : List ℕ) → length id ≡ 16 → IsRequestFrame id (empty_frame id)
unfolding empty_frame
empty_frame-IsRequestFrame id h = (
  record { known = inl refl; id_size = h; seq_range = omega arith; payload_size = omega arith },
  (refl, refl),
)

pub request_frames-IsRequestFrame :
    (id body : List ℕ) → length id ≡ 16 → All (IsRequestFrame id) (request_frames id body)
unfolding request_frames
request_frames-IsRequestFrame id body h =
    All-append (IsRequestFrame id) (frames_from (length body) id body 0 0) _
      (frames_from-IsRequestFrame id body (length body) 0 0 h)
      (elim (Bool-cases (length body == 0)) [
        | inl empty ↦ rw empty (empty_frame-IsRequestFrame id h, tt)
        | inr full ↦ rw full tt
      ])

request_frames-nil : (id : List ℕ) → request_frames id [] ≡ empty_frame id ∷ []
unfolding request_frames frames_from
request_frames-nil id = refl

request_frames-cons :
    (id : List ℕ) (x : ℕ) (body : List ℕ)
    → request_frames id (x ∷ body) ≡ frames_from (length (x ∷ body)) id (x ∷ body) 0 0
unfolding request_frames
request_frames-cons id x body =
    let more : (suc (length body) == 0) ≡ false = ground arith in rw more (append-nil _)

assemble_body-empty_frame :
    (id : List ℕ) → assemble_body 0 [] (body_frame (empty_frame id) ∷ []) ≡ some (ok [])
unfolding empty_frame assemble_body
assemble_body-empty_frame id = refl

-- The frames of a body, one after the other, are assembled to it.
pub assembled :
    (id body : List ℕ)
    → assemble_body (length body) [] (map body_frame (request_frames id body)) ≡ some (ok body)
assembled id [] = rw (request_frames-nil id) (assemble_body-empty_frame id)
assembled id (x ∷ body) =
    rw (request_frames-cons id x body)
      (assemble_body-frames_from id (x ∷ body) (length (x ∷ body)) 0 0 (omega arith) (omega arith))
