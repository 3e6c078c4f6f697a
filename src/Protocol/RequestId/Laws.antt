-- ===== src/Protocol/RequestId/Laws.antt =====
-- Facts about request ids as keys.
use mathlib.Core.List.{append-nil}
use modelrelay.Base.{
  ℕ, ◌+◌, ◌/◌, ◌%◌, ◌-◌, ◌≤◌, ◌<◌, ◌≡◌, refl, ap, sym, ◌∙◌, false, List, [], ◌∷◌, ◌++◌, Option,
  none, some, arith, ltb, ◌==◌, not, length, length-take, take, drop, All, All-take, All-drop,
  length-select-le, drop-drop, take-append-drop, if◌then◌else◌,
}
use modelrelay.Protocol.RequestId.{
  hex_value, digit_pair, hex_decode, without_dashes, parsed_or_hashed, request_id_bytes,
}

digit_pair-length :
    (a b : Option ℕ) (r : Option (List ℕ)) (bs : List ℕ) (n : ℕ)
    → digit_pair a b r ≡ some bs
    → ((rest : List ℕ) → r ≡ some rest → length rest + length rest ≤ n)
    → length bs + length bs ≤ n + 2
digit_pair-length (some hi) (some lo) (some rest) bs n e h = ground (arith, h rest refl)
digit_pair-length (some hi) (some lo) none bs n e h = cc
digit_pair-length (some hi) none r bs n e h = cc
digit_pair-length none b r bs n e h = cc

-- Two digits make a byte.
hex_decode-length : (cs bs : List ℕ) → hex_decode cs ≡ some bs → length bs + length bs ≤ length cs
unfolding hex_decode
hex_decode-length [] bs e = ground arith
hex_decode-length (c ∷ []) bs e = cc
hex_decode-length (c ∷ d ∷ cs) bs e =
    let h : length bs + length bs ≤ length cs + 2 =
      digit_pair-length (hex_value c) (hex_value d) (hex_decode cs) bs (length cs) e
        (λ rest. hex_decode-length cs rest) in
    omega arith

parsed_or_hashed-short :
    (o : Option (List ℕ)) (sum : List ℕ)
    → ((b : List ℕ) → o ≡ some b → length b < 16)
    → parsed_or_hashed o sum ≡ take 16 sum
parsed_or_hashed-short none sum h = refl
parsed_or_hashed-short (some b) sum h = ground (arith, h b refl)

-- A text of fewer than 32 bytes is no UUID, so it is hashed.
pub request_id_bytes-short :
    (sha256 : List ℕ → List ℕ) (id : List ℕ)
    → length id < 32
    → request_id_bytes sha256 id ≡ take 16 (sha256 id)
unfolding request_id_bytes without_dashes
request_id_bytes-short sha256 id h =
    parsed_or_hashed-short (hex_decode (without_dashes id)) (sha256 id) λ b e.
      let fits : length b + length b ≤ length (without_dashes id) =
        hex_decode-length (without_dashes id) b e in
      let stripped : length (without_dashes id) ≤ length id =
        length-select-le (λ c. not (c == b'-')) id in
      omega arith

-- A key always has 16 bytes.
parsed_or_hashed-length :
    (o : Option (List ℕ)) (sum : List ℕ) → length sum ≡ 32 → length (parsed_or_hashed o sum) ≡ 16
parsed_or_hashed-length none sum h = omega (arith, length-take 16 sum)
parsed_or_hashed-length (some b) sum h = ground (arith, length-take 16 sum)

pub request_id_bytes-length :
    (sha256 : List ℕ → List ℕ) (id : List ℕ)
    → length (sha256 id) ≡ 32
    → length (request_id_bytes sha256 id) ≡ 16
unfolding request_id_bytes
request_id_bytes-length sha256 id h =
    parsed_or_hashed-length (hex_decode (without_dashes id)) (sha256 id) h

-- The canonical text of a UUID: 16 bytes in lower-case hexadecimal, grouped 8-4-4-4-12.
abbrev pub hex_digit : ℕ → ℕ
hex_digit n = if ltb n 10 then b'0' + n else b'a' + (n - 10)

abbrev pub hex_text : List ℕ → List ℕ
hex_text [] = []
hex_text (b ∷ bs) = hex_digit (b / 16) ∷ hex_digit (b % 16) ∷ hex_text bs

abbrev pub uuid_text : List ℕ → List ℕ
uuid_text bs =
    hex_text (take 4 bs)
    ++ (b'-'
        ∷ (hex_text (take 2 (drop 4 bs))
            ++ (b'-'
                ∷ (hex_text (take 2 (drop 6 bs))
                    ++ (b'-'
                        ∷ (hex_text (take 2 (drop 8 bs)) ++ (b'-' ∷ hex_text (drop 10 bs))))))))

hex_value-hex_digit : (n : ℕ) → n < 16 → hex_value (hex_digit n) ≡ some n
unfolding hex_value
hex_value-hex_digit n h = ground arith

hex_digit-ne-dash : (n : ℕ) → n < 16 → (hex_digit n == b'-') ≡ false
hex_digit-ne-dash n h = ground arith

hex_decode-hex_text : (bs : List ℕ) → All (λ b. b < 256) bs → hex_decode (hex_text bs) ≡ some bs
unfolding hex_decode
hex_decode-hex_text [] h = refl
hex_decode-hex_text (b ∷ bs) h =
    rw
      (
        hex_value-hex_digit (b / 16) (omega arith),
        hex_value-hex_digit (b % 16) (omega arith),
        hex_decode-hex_text bs h.1,
      )
      (ap (λ n. some (n ∷ bs)) (omega arith))

without_dashes-hex_text :
    (bs rest : List ℕ)
    → All (λ b. b < 256) bs
    → without_dashes (hex_text bs ++ rest) ≡ hex_text bs ++ without_dashes rest
unfolding without_dashes
without_dashes-hex_text [] rest h = refl
without_dashes-hex_text (b ∷ bs) rest h = rw (
  hex_digit-ne-dash (b / 16) (omega arith),
  hex_digit-ne-dash (b % 16) (omega arith),
  without_dashes-hex_text bs rest h.1,
)

hex_text-append : (xs ys : List ℕ) → hex_text xs ++ hex_text ys ≡ hex_text (xs ++ ys)
hex_text-append [] ys = refl
hex_text-append (x ∷ xs) ys = rw (hex_text-append xs ys)

-- The next group of digits, as a part of what is left.
group :
    (n m : ℕ) (bs : List ℕ)
    → hex_text (take n (drop m bs)) ++ hex_text (drop (m + n) bs) ≡ hex_text (drop m bs)
group n m bs = rw (
  hex_text-append (take n (drop m bs)) (drop (m + n) bs),
  ← drop-drop m n bs,
  take-append-drop n (drop m bs),
)

without_dashes-dash : (xs : List ℕ) → without_dashes (b'-' ∷ xs) ≡ without_dashes xs
unfolding without_dashes
without_dashes-dash xs = refl

without_dashes-hex_text_end :
    (bs : List ℕ) → All (λ b. b < 256) bs → without_dashes (hex_text bs) ≡ hex_text bs
unfolding without_dashes
without_dashes-hex_text_end bs h =
    ap without_dashes (sym (append-nil (hex_text bs)))
    ∙ without_dashes-hex_text bs [] h
    ∙ append-nil (hex_text bs)

module _ (bs : List ℕ) (bytes : All (λ b. b < 256) bs) where
  part : (n m : ℕ) → All (λ b. b < 256) (take n (drop m bs))
  part n m = All-take (λ b. b < 256) n (drop m bs) (All-drop (λ b. b < 256) m bs bytes)

  without_dashes-uuid_text : without_dashes (uuid_text bs) ≡ hex_text bs
  without_dashes-uuid_text =
      rw
        (
          without_dashes-hex_text (take 4 bs) _ (part 4 0),
          without_dashes-dash,
          without_dashes-hex_text (take 2 (drop 4 bs)) _ (part 2 4),
          without_dashes-dash,
          without_dashes-hex_text (take 2 (drop 6 bs)) _ (part 2 6),
          without_dashes-dash,
          without_dashes-hex_text (take 2 (drop 8 bs)) _ (part 2 8),
          without_dashes-dash,
          without_dashes-hex_text_end (drop 10 bs) (All-drop (λ b. b < 256) 10 bs bytes),
          group 2 8 bs,
          group 2 6 bs,
          group 2 4 bs,
        )
        (group 4 0 bs)

-- The key of a request whose id is the canonical text of a UUID is that UUID's 16 bytes.
pub request_id_bytes-uuid_text :
    (sha256 : List ℕ → List ℕ) (bs : List ℕ)
    → All (λ b. b < 256) bs
    → length bs ≡ 16
    → request_id_bytes sha256 (uuid_text bs) ≡ bs
unfolding request_id_bytes
request_id_bytes-uuid_text sha256 bs bytes size =
    rw (without_dashes-uuid_text bs bytes, hex_decode-hex_text bs bytes, size)
