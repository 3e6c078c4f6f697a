-- ===== src/Tests/Protocol.antt =====
-- The theorems on the protocol at concrete inputs.
use modelrelay.Base.{ℕ, ◌+◌, ◌≡◌, refl, inl, List, [], ◌++◌, arith, length, ok}
use modelrelay.Protocol.RequestId.{request_id_bytes}
use modelrelay.Protocol.RequestId.Laws.{uuid_text, request_id_bytes-uuid_text}
use modelrelay.Tests.{flat_hash, some_id}
use modelrelay.Protocol.Frame.{
  encode, decode_frame, frame_header_size, header, read_full, check_header, frame_of, read_payload,
  has_flag,
}
use modelrelay.Protocol.Frame.Word.{put_uint32, uint32}
use modelrelay.Protocol.Frame.RoundTrip.{IsFrame, decode_frame-encode}
use modelrelay.Protocol.Frame.Decoding.{decode_frame-IsFrame}
use modelrelay.Tests.{some_body, some_frame, are_bytes-All}

some_frame-IsFrame : IsFrame some_frame
some_frame-IsFrame = record {
  known = inl refl;
  id_size = refl;
  seq_range = omega arith;
  payload_size = omega arith;
}

decode_frame-encode_example :
    (bs : List ℕ) × (encode some_frame ≡ ok bs)
    × (length bs ≡ frame_header_size + 3)
    × (decode_frame (bs ++ some_body) ≡ ok (some_frame, some_body))
decode_frame-encode_example = decode_frame-encode some_frame some_body some_frame-IsFrame

frame_bytes : List ℕ
unfolding header put_uint32
frame_bytes = header some_frame ++ some_body

decoded : decode_frame frame_bytes ≡ ok (some_frame, [])
unfolding frame_bytes decode_frame read_full check_header frame_of read_payload header has_flag
    uint32
decoded = refl

decode_frame-IsFrame_example :
    IsFrame some_frame × (length frame_bytes ≡ frame_header_size + length some_body + 0)
unfolding frame_bytes
decode_frame-IsFrame_example =
    decode_frame-IsFrame frame_bytes some_frame [] (are_bytes-All frame_bytes refl) decoded

request_id_bytes-uuid_text_example : request_id_bytes flat_hash (uuid_text some_id) ≡ some_id
request_id_bytes-uuid_text_example =
    request_id_bytes-uuid_text flat_hash some_id (are_bytes-All some_id refl) refl
