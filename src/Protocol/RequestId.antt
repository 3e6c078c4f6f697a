-- ===== src/Protocol/RequestId.antt =====
-- RequestIDBytes of internal/protocol/frame.go. A text is the list of its bytes; SHA-256 is a
-- parameter, of which the code relies on the 32 bytes of its result.
pub mod Laws
use modelrelay.Base.{
  ℕ, ◌+◌, ◌-◌, ◌*◌, ◌≡◌, Bool, ◌&&◌, List, [], ◌∷◌, Option, none, some, leb, ◌==◌, length, take,
  select, not, if◌then◌else◌,
}

-- One hexadecimal digit, as encoding/hex reads it.
unfoldable pub hex_value : ℕ → Option ℕ
hex_value c =
    if leb b'0' c && leb c b'9'
    then some (c - b'0')
    else if leb b'a' c && leb c b'f'
    then some (c - b'a' + 10)
    else if leb b'A' c && leb c b'F'
    then some (c - b'A' + 10)
    else none

abbrev pub digit_pair : Option ℕ → Option ℕ → Option (List ℕ) → Option (List ℕ)
digit_pair (some hi) (some lo) (some rest) = some ((hi * 16 + lo) ∷ rest)
digit_pair _ _ _ = none

-- hex.DecodeString: an odd length or a bad digit is an error.
unfoldable pub hex_decode : List ℕ → Option (List ℕ)
unfolding hex_value
hex_decode [] = some []
hex_decode (c ∷ []) = none
hex_decode (c ∷ d ∷ cs) = digit_pair (hex_value c) (hex_value d) (hex_decode cs)

unfoldable pub without_dashes : List ℕ → List ℕ
without_dashes id = select (λ c. not (c == b'-')) id

abbrev pub parsed_or_hashed : Option (List ℕ) → List ℕ → List ℕ
parsed_or_hashed (some b) sum = if length b == 16 then b else take 16 sum
parsed_or_hashed none sum = take 16 sum

unfoldable pub request_id_bytes : (List ℕ → List ℕ) → List ℕ → List ℕ
unfolding hex_decode without_dashes
request_id_bytes sha256 id = parsed_or_hashed (hex_decode (without_dashes id)) (sha256 id)
