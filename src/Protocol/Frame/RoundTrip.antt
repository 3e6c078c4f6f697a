-- ===== src/Protocol/Frame/RoundTrip.antt =====
-- Encoding a frame and decoding it again (Encode and DecodeFrame of internal/protocol/frame.go).
use modelrelay.Base.{
  ℕ, zero, suc, ◌+◌, ◌^◌, ◌≤◌, ◌<◌, ◌≡◌, refl, ap, ◌⊎◌, Bool, true, false, List, [], ◌∷◌, ◌++◌,
  arith, length, get_or, take, drop, slice, ltb-false, lt→ltb, length-append, take-append,
  drop-append, get_or-append, ok,
}
use mathlib.Core.List.{append_assoc}
use modelrelay.Protocol.Frame.Word.{put_uint32, uint32, uint32-put_uint32}
use modelrelay.Protocol.Frame.{
  Frame, header, flag_bits, has_flag, encode, read_full, read_payload, check_header, frame_of,
  decode_frame, max_frame_payload, frame_header_size, flag_first, flag_last, flag_compressed,
  frame_request_body, frame_response_body,
}

-- The fields that the sender has to get right: a known type, the request id's 16 bytes, a 32-bit
-- sequence number, and a payload within the limit.
pub record IsFrame (f : Frame) : Type 0 where
  pub known : (f.typ ≡ frame_request_body) ⊎ (f.typ ≡ frame_response_body)
  pub id_size : length f.request_id ≡ 16
  pub seq_range : f.seq < 2 ^ 32
  pub payload_size : length f.payload ≤ max_frame_payload

drop-append_all : (n : ℕ) (xs ys : List ℕ) → length xs ≡ n → drop n (xs ++ ys) ≡ ys
drop-append_all zero [] ys h = refl
drop-append_all zero (x ∷ xs) ys h = absurd (omega arith)
drop-append_all (suc n) [] ys h = absurd (omega arith)
drop-append_all (suc n) (x ∷ xs) ys h = drop-append_all n xs ys (omega arith)

pub read_full-append :
    (n : ℕ) (xs ys : List ℕ) → length xs ≡ n → 0 < n → read_full n (xs ++ ys) ≡ ok (xs, ys)
unfolding read_full
read_full-append n [] ys h p = absurd (omega arith)
read_full-append n (x ∷ xs) ys h p = rw (
  ltb-false (length ((x ∷ xs) ++ ys)) n (omega (arith, length-append xs ys)),
  take-append n (x ∷ xs) ys h,
  drop-append_all n (x ∷ xs) ys h,
)

pub length-header : (f : Frame) → length f.request_id ≡ 16 → length (header f) ≡ 31
unfolding header put_uint32
length-header f h = omega (
  arith,
  length-append f.request_id
      (put_uint32 f.seq ++ (f.encoding ∷ (put_uint32 (length f.payload) ++ (0 ∷ [])))),
)

module _ (f : Frame) (size : length f.request_id ≡ 16) where
  header_id : slice 5 16 (header f) ≡ f.request_id
  unfolding header
  header_id = take-append 16 f.request_id _ size

  header_seq : slice 21 4 (header f) ≡ put_uint32 f.seq
  unfolding header put_uint32
  header_seq = ap (take 4) (drop-append 16 0 f.request_id _ size)

  header_encoding : get_or (header f) 25 0 ≡ f.encoding
  unfolding header put_uint32
  header_encoding = get_or-append 16 4 f.request_id _ 0 size

  header-length : slice 26 4 (header f) ≡ put_uint32 (length f.payload)
  unfolding header put_uint32
  header-length = ap (take 4) (drop-append 16 5 f.request_id _ size)

header_start :
    (f : Frame)
    → (get_or (header f) 3 0 ≡ f.typ)
      × (get_or (header f) 4 0 ≡ flag_bits f.first f.last f.compressed)
unfolding header
header_start f = (refl, refl)

flags_read :
    (first last compressed : Bool)
    → (has_flag (flag_bits first last compressed) flag_first ≡ first)
      × (has_flag (flag_bits first last compressed) flag_last ≡ last)
      × (has_flag (flag_bits first last compressed) flag_compressed ≡ compressed)
unfolding has_flag
flags_read true true true = (refl, refl, refl)
flags_read true true false = (refl, refl, refl)
flags_read true false true = (refl, refl, refl)
flags_read true false false = (refl, refl, refl)
flags_read false true true = (refl, refl, refl)
flags_read false true false = (refl, refl, refl)
flags_read false false true = (refl, refl, refl)
flags_read false false false = (refl, refl, refl)

check_header-header : (f : Frame) → IsFrame f → check_header (header f) ≡ ok (length f.payload)
unfolding check_header header
check_header-header f v =
    let e : uint32 (slice 26 4 (header f)) ≡ length f.payload =
      rw (header-length f v.id_size)
        (uint32-put_uint32 (length f.payload) (omega (arith, v.payload_size))) in
    rw e (ground arith)

frame_of-header : (f : Frame) → IsFrame f → frame_of (header f) f.payload ≡ f
unfolding frame_of
frame_of-header f v = rw (
  header_id f v.id_size,
  header_seq f v.id_size,
  header_encoding f v.id_size,
  uint32-put_uint32 f.seq v.seq_range,
  (header_start f).0,
  (header_start f).1,
  (flags_read f.first f.last f.compressed).0,
  (flags_read f.first f.last f.compressed).1,
  (flags_read f.first f.last f.compressed).2,
)

read_payload-append : (xs ys : List ℕ) → read_payload (length xs) (xs ++ ys) ≡ ok (xs, ys)
unfolding read_payload
read_payload-append [] ys = refl
read_payload-append (x ∷ xs) ys =
    rw (lt→ltb 0 (length (x ∷ xs)) (omega arith))
      (read_full-append (length (x ∷ xs)) (x ∷ xs) ys refl (omega arith))

decode_frame-header :
    (f : Frame) (rest : List ℕ)
    → IsFrame f
    → decode_frame (header f ++ (f.payload ++ rest)) ≡ ok (f, rest)
unfolding decode_frame
decode_frame-header f rest v = rw (
  read_full-append 31 (header f) (f.payload ++ rest) (length-header f v.id_size) (omega arith),
  check_header-header f v,
  read_payload-append f.payload rest,
  frame_of-header f v,
)

-- A well-formed frame is encoded, into 31 header bytes and its payload, and decoding those bytes
-- gives the frame back and leaves whatever follows it unread.
pub decode_frame-encode :
    (f : Frame) (rest : List ℕ)
    → IsFrame f
    → (bs : List ℕ) × (encode f ≡ ok bs)
      × (length bs ≡ frame_header_size + length f.payload)
      × (decode_frame (bs ++ rest) ≡ ok (f, rest))
unfolding encode
decode_frame-encode f rest v = (
  header f ++ f.payload,
  rw (ltb-false max_frame_payload (length f.payload) v.payload_size),
  omega (arith, length-append (header f) f.payload, length-header f v.id_size),
  rw append_assoc (decode_frame-header f rest v),
)
