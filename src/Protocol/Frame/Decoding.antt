-- ===== src/Protocol/Frame/Decoding.antt =====
-- What DecodeFrame (internal/protocol/frame.go) guarantees of the frames that it accepts.
use modelrelay.Base.{
  ℕ, zero, suc, ◌+◌, ◌^◌, ◌≤◌, ◌<◌, ◌≡◌, refl, sym, ap, ◌⊎◌, inl, inr, List, [], ◌∷◌, ◌++◌, arith,
  length, get_or, take, drop, slice, All, All-take, All-drop, All-append_left, Bool-cases, ltb,
  length-append, length-take, length-drop, take-append-drop, ok, >>=-eq-ok,
}
use modelrelay.Protocol.Frame.Word.{uint32}
use modelrelay.Protocol.Frame.{
  Frame, read_full, read_payload, check_header, frame_of, decode_frame, max_frame_payload,
  frame_header_size, frame_request_body, frame_response_body,
}
use modelrelay.Protocol.Frame.RoundTrip.{IsFrame}

read_full-eq-ok :
    (n : ℕ) (r h r' : List ℕ) → read_full n r ≡ ok (h, r') → (length h ≡ n) × (r ≡ h ++ r')
unfolding read_full
read_full-eq-ok n [] h r' e = cc
read_full-eq-ok n (b ∷ bs) h r' e = elim (Bool-cases (ltb (length (b ∷ bs)) n)) [
  | inl short ↦ absurd (ground arith)
  | inr enough ↦
      let t : take n (b ∷ bs) ≡ h = ground arith in
      let d : drop n (b ∷ bs) ≡ r' = ground arith in
      (
        rw (← t) (ground (arith, length-take n (b ∷ bs))),
        rw (← t, ← d) (sym (take-append-drop n (b ∷ bs))),
      )
]

read_payload-eq-ok :
    (n : ℕ) (r p rest : List ℕ) → read_payload n r ≡ ok (p, rest) → (length p ≡ n) × (r ≡ p ++ rest)
unfolding read_payload
read_payload-eq-ok zero r p rest e = (ground arith, ground arith)
read_payload-eq-ok (suc n) r p rest e = read_full-eq-ok (suc n) r p rest (ground arith)

check_header-eq-ok :
    (h : List ℕ) (n : ℕ)
    → check_header h ≡ ok n
    → ((get_or h 3 0 ≡ frame_request_body) ⊎ (get_or h 3 0 ≡ frame_response_body))
      × (n ≤ max_frame_payload)
unfolding check_header
check_header-eq-ok h n e = ground arith

abbrev pub IsByte : ℕ → Type 0
IsByte b = b < 256

get_or-IsByte : (bs : List ℕ) (i : ℕ) → All IsByte bs → IsByte (get_or bs i 0)
get_or-IsByte [] i h = omega arith
get_or-IsByte (b ∷ bs) zero h = h.0
get_or-IsByte (b ∷ bs) (suc i) h = get_or-IsByte bs i h.1

uint32_bound : (bs : List ℕ) → All IsByte bs → uint32 bs < 2 ^ 32
unfolding uint32
uint32_bound bs h =
    omega (
      arith,
      get_or-IsByte bs 0 h,
      get_or-IsByte bs 1 h,
      get_or-IsByte bs 2 h,
      get_or-IsByte bs 3 h,
    )

frame_of-IsFrame :
    (h p : List ℕ) (n : ℕ)
    → All IsByte h
    → length h ≡ frame_header_size
    → check_header h ≡ ok n
    → length p ≡ n
    → IsFrame (frame_of h p)
unfolding frame_of
frame_of-IsFrame h p n bytes size checked e =
    let (known, fits) = check_header-eq-ok h n checked in
    record {
      known = known;
      id_size = omega (arith, length-take 16 (drop 5 h), length-drop 5 h);
      seq_range =
          uint32_bound (slice 21 4 h) (All-take IsByte 4 (drop 21 h) (All-drop IsByte 21 h bytes));
      payload_size = omega arith;
    }

frame_of-payload : (h p : List ℕ) → (frame_of h p).payload ≡ p
unfolding frame_of
frame_of-payload h p = refl

-- Whatever bytes arrive: a frame that decoding accepts has a known type, a 16-byte request id, a
-- 32-bit sequence number and a payload within the limit, and what was read for it is exactly 31
-- bytes and the payload.
pub decode_frame-IsFrame :
    (bs : List ℕ) (f : Frame) (rest : List ℕ)
    → All IsByte bs
    → decode_frame bs ≡ ok (f, rest)
    → IsFrame f × (length bs ≡ frame_header_size + length f.payload + length rest)
unfolding decode_frame
decode_frame-IsFrame bs f rest bytes e =
    let ((h, r'), read, e₁) = >>=-eq-ok (read_full frame_header_size bs) _ e in
    let (n, checked, e₂) = >>=-eq-ok (check_header h) _ e₁ in
    let ((p, rest'), body, e₃) = >>=-eq-ok (read_payload n r') _ e₂ in
    let (size, split) = read_full-eq-ok frame_header_size bs h r' read in
    let (size_p, split_p) = read_payload-eq-ok n r' p rest' body in
    let frame : frame_of h p ≡ f = ground arith in
    let same : rest' ≡ rest = ground arith in
    (
      rw (← frame) (
          frame_of-IsFrame h p n (All-append_left IsByte h r' (rw split at bytes)) size checked
            size_p),
      rw (← frame, frame_of-payload h p, ← same)
          (omega
            (arith, ap length split, ap length split_p, length-append h r', length-append p rest')),
    )
