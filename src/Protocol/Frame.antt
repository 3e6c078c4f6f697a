-- ===== src/Protocol/Frame.antt =====
-- internal/protocol/frame.go: binary data frames. Bytes are numbers below 256; a reader is the list
-- of the bytes that are left in it, and decoding also returns what stays unread.
pub mod Word
pub mod RoundTrip
pub mod Decoding
use Prim.Native.Nat.{bit_and, bit_or}
use modelrelay.Base.{
  ℕ, ◌+◌, ◌≡◌, Bool, true, false, not, ◌&&◌, List, [], ◌∷◌, ◌++◌, arith, ltb, ◌==◌, length, get_or,
  take, drop, slice, if◌then◌else◌, Result, ok, err, ◌>>=◌, ◌>>◌,
}
use Word.{put_uint32, uint32}

-- ProtocolVersion of message.go.
abbrev pub protocol_version : ℕ
protocol_version = 1

abbrev pub frame_request_body : ℕ
frame_request_body = 1

abbrev pub frame_response_body : ℕ
frame_response_body = 2

abbrev pub flag_first : ℕ
flag_first = 0x01

abbrev pub flag_last : ℕ
flag_last = 0x02

abbrev pub flag_compressed : ℕ
flag_compressed = 0x04

abbrev pub frame_header_size : ℕ
frame_header_size = 31

abbrev pub max_frame_payload : ℕ
max_frame_payload = 262144

-- The errors of the frame codec; the last two are those of `io.ReadFull`.
pub data FrameError : Type 0 where
  bad_magic bad_length : FrameError
  bad_version bad_type : ℕ → FrameError
  eof unexpected_eof : FrameError

pub record Frame : Type 0 where
  pub typ : ℕ
  pub first : Bool
  pub last : Bool
  pub compressed : Bool
  pub request_id : List ℕ
  pub seq : ℕ
  pub encoding : ℕ
  pub payload : List ℕ

unfoldable pub new_frame : ℕ → List ℕ → ℕ → List ℕ → Frame
new_frame typ request_id seq payload = record {
  typ = typ;
  first = false;
  last = false;
  compressed = false;
  request_id = request_id;
  seq = seq;
  encoding = 0;
  payload = payload;
}

abbrev set_flag : Bool → ℕ → ℕ → ℕ
set_flag b flag flags = if b then bit_or flags flag else flags

abbrev pub flag_bits : Bool → Bool → Bool → ℕ
flag_bits first last compressed =
    set_flag compressed flag_compressed (set_flag last flag_last (set_flag first flag_first 0))

-- The 31 bytes before the payload.
unfoldable pub header : Frame → List ℕ
header f =
    b'M'
    ∷ b'R'
    ∷ protocol_version
    ∷ f.typ
    ∷ flag_bits f.first f.last f.compressed
    ∷ (f.request_id
        ++ (put_uint32 f.seq ++ (f.encoding ∷ (put_uint32 (length f.payload) ++ (0 ∷ [])))))

unfoldable pub encode : Frame → Result FrameError (List ℕ)
encode f =
    if ltb max_frame_payload (length f.payload) then err bad_length else ok (header f ++ f.payload)

-- `io.ReadFull` into a buffer of `n` bytes, `0 < n`.
unfoldable pub read_full : ℕ → List ℕ → Result FrameError (List ℕ × List ℕ)
read_full n [] = err eof
read_full n (b ∷ bs) =
    if ltb (length (b ∷ bs)) n then err unexpected_eof else ok (take n (b ∷ bs), drop n (b ∷ bs))

abbrev require : Bool → FrameError → Result FrameError (Unit {0})
require true e = ok tt
require false e = err e

unfoldable pub has_flag : ℕ → ℕ → Bool
has_flag flags flag = not (bit_and flags flag == 0)

-- The checks of a header, in the order of the code; the result is the payload's length.
unfoldable pub check_header : List ℕ → Result FrameError ℕ
check_header h = do
  require (get_or h 0 0 == b'M' && get_or h 1 0 == b'R') bad_magic
  require (get_or h 2 0 == protocol_version) (bad_version (get_or h 2 0))
  require
      (not (not (get_or h 3 0 == frame_request_body) && not (get_or h 3 0 == frame_response_body)))
      (bad_type (get_or h 3 0))
  require (not (ltb max_frame_payload (uint32 (slice 26 4 h)))) bad_length
  ok (uint32 (slice 26 4 h))

unfoldable pub frame_of : List ℕ → List ℕ → Frame
frame_of h payload = record {
  typ = get_or h 3 0;
  first = has_flag (get_or h 4 0) flag_first;
  last = has_flag (get_or h 4 0) flag_last;
  compressed = has_flag (get_or h 4 0) flag_compressed;
  request_id = slice 5 16 h;
  seq = uint32 (slice 21 4 h);
  encoding = get_or h 25 0;
  payload = payload;
}

unfoldable pub read_payload : ℕ → List ℕ → Result FrameError (List ℕ × List ℕ)
read_payload n r = if ltb 0 n then read_full n r else ok ([], r)

unfoldable pub decode_frame : List ℕ → Result FrameError (Frame × List ℕ)
decode_frame r = do
  (h, r') ← read_full frame_header_size r
  n ← check_header h
  (payload, rest) ← read_payload n r'
  ok (frame_of h payload, rest)
