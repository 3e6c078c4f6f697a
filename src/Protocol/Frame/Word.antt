-- ===== src/Protocol/Frame/Word.antt =====
-- binary.LittleEndian as frame.go uses it.
use modelrelay.Base.{
  ℕ, ◌+◌, ◌*◌, ◌/◌, ◌%◌, ◌^◌, ◌<◌, ◌≡◌, refl, List, [], ◌∷◌, arith, get_or, length,
}

unfoldable pub put_uint32 : ℕ → List ℕ
put_uint32 v = (v % 256) ∷ (v / 256 % 256) ∷ (v / 65536 % 256) ∷ (v / 16777216 % 256) ∷ []

unfoldable pub uint32 : List ℕ → ℕ
uint32 b = get_or b 0 0 + 256 * get_or b 1 0 + 65536 * get_or b 2 0 + 16777216 * get_or b 3 0

pub length-put_uint32 : (v : ℕ) → length (put_uint32 v) ≡ 4
unfolding put_uint32
length-put_uint32 v = refl

pub uint32-put_uint32 : (v : ℕ) → v < 2 ^ 32 → uint32 (put_uint32 v) ≡ v
unfolding uint32 put_uint32
uint32-put_uint32 v h = omega arith
