-- ===== src/Agent/Response/Order.antt =====
-- What serveRequest (internal/agent/agent.go) sends of an answer that the local server ends properly.
use modelrelay.Base.{
  ℕ, ◌+◌, ◌%◌, ◌^◌, ◌≤◌, ◌≡◌, refl, ap, inr, Bool, true, false, String, List, [], ◌∷◌, ◌++◌, some,
  map, arith, length, All, lt→ltb, ltb-false, suc, append-nil,
}
use modelrelay.Protocol.Frame.{Frame, new_frame, encode, frame_response_body, max_frame_payload}
use modelrelay.Protocol.Frame.RoundTrip.{IsFrame}
use modelrelay.Agent.Response.{
  body, done, Context, Read, more, eof, then_send, send_done, body_frame, write_frame, after_read,
  body_loop,
}

abbrev pub next_seq : ℕ → ℕ
next_seq seq = (seq + 1) % 2 ^ 32

abbrev pub is_empty : List ℕ → Bool
is_empty [] = true
is_empty (b ∷ bs) = false

-- The reads of an answer: chunks, some perhaps empty, and the last one with the end of the stream.
abbrev pub reads : List (List ℕ) → List ℕ → List Read
reads [] q = record { bytes = q; end = eof } ∷ []
reads (c ∷ cs) q = record { bytes = c; end = more } ∷ reads cs q

abbrev pub concat_to : List (List ℕ) → List ℕ → List ℕ
concat_to [] q = q
concat_to (c ∷ cs) q = c ++ concat_to cs q

-- A frame within the limit is written if the connection takes it.
written : (f : Frame) → length f.payload ≤ max_frame_payload → write_frame f true ≡ true
unfolding write_frame encode
written f h = rw (ltb-false max_frame_payload (length f.payload) h) refl

module _ (id16 : List ℕ) where
  -- One frame for each read with bytes.
  frame_of : Bool → ℕ → List ℕ → Bool → List Frame
  frame_of first seq [] last = []
  frame_of first seq (b ∷ bs) last =
      record (new_frame frame_response_body id16 (next_seq seq) (b ∷ bs)) {
        first = first;
        last = last;
      }
      ∷ []

  unfoldable pub sent_frames : Bool → ℕ → List (List ℕ) → List ℕ → List Frame
  unfolding frame_of
  sent_frames first seq [] q = frame_of first seq q true
  sent_frames first seq ([] ∷ cs) q = sent_frames first seq cs q
  sent_frames first seq ((b ∷ bs) ∷ cs) q =
      record (new_frame frame_response_body id16 (next_seq seq) (b ∷ bs)) { first = first }
      ∷ sent_frames false (next_seq seq) cs q

  module _ (status : ℕ) (hdr : List (String × String)) (ctx : Context) where
    -- With every write succeeding, the loop sends those frames and Done.
    pub body_loop-reads :
        (first : Bool) (seq : ℕ) (cs : List (List ℕ)) (q : List ℕ)
        → All (λ c. length c ≤ max_frame_payload) cs
        → length q ≤ max_frame_payload
        → body_loop id16 status hdr ctx first seq [] (reads cs q)
          ≡ some (record {
            sent = map body (sent_frames first seq cs q) ++ (done status hdr ∷ []);
            requests_ok = 1;
            requests_failed = 0;
          })
    unfolding body_loop sent_frames body_frame after_read send_done then_send write_frame encode
        frame_of new_frame
    body_loop-reads first seq [] [] h k = refl
    body_loop-reads first seq [] (b ∷ bs) h k =
        rw
          (
            lt→ltb 0 (suc (length bs)) (omega arith),
            written (body_frame id16 first (next_seq seq) (record { bytes = b ∷ bs; end = eof })) k,
          )
          refl
    body_loop-reads first seq ([] ∷ cs) q h k = body_loop-reads first seq cs q h.1 k
    body_loop-reads first seq ((b ∷ bs) ∷ cs) q h k =
        rw
          (
            lt→ltb 0 (suc (length bs)) (omega arith),
            written (body_frame id16 first (next_seq seq) (record { bytes = b ∷ bs; end = more }))
                h.0,
            body_loop-reads false (next_seq seq) cs q h.1 k,
          )
          refl

  pub sent_frames-concat :
      (first : Bool) (seq : ℕ) (cs : List (List ℕ)) (q : List ℕ)
      → concat_to (map (λ f. f.payload) (sent_frames first seq cs q)) [] ≡ concat_to cs q
  unfolding sent_frames frame_of new_frame
  sent_frames-concat first seq [] [] = refl
  sent_frames-concat first seq [] (b ∷ bs) = append-nil (b ∷ bs)
  sent_frames-concat first seq ([] ∷ cs) q = sent_frames-concat first seq cs q
  sent_frames-concat first seq ((b ∷ bs) ∷ cs) q =
      ap (λ t. (b ∷ bs) ++ t) (sent_frames-concat false (next_seq seq) cs q)

  pub sent_frames-IsFrame :
      (first : Bool) (seq : ℕ) (cs : List (List ℕ)) (q : List ℕ)
      → length id16 ≡ 16
      → All (λ c. length c ≤ max_frame_payload) cs
      → length q ≤ max_frame_payload
      → All IsFrame (sent_frames first seq cs q)
  unfolding sent_frames frame_of new_frame
  sent_frames-IsFrame first seq [] [] id h k = tt
  sent_frames-IsFrame first seq [] (b ∷ bs) id h k =
      (record { known = inr refl; id_size = id; seq_range = omega arith; payload_size = k }, tt)
  sent_frames-IsFrame first seq ([] ∷ cs) q id h k = sent_frames-IsFrame first seq cs q id h.1 k
  sent_frames-IsFrame first seq ((b ∷ bs) ∷ cs) q id h k = (
    record { known = inr refl; id_size = id; seq_range = omega arith; payload_size = h.0 },
    sent_frames-IsFrame false (next_seq seq) cs q id h.1 k,
  )
