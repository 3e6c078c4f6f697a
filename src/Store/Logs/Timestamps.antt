-- ===== src/Store/Logs/Timestamps.antt =====
-- The texts of times that internal/store writes (nowStr of store.go): RFC3339Nano in UTC. Times are
-- nanoseconds. `clock` gives the bytes of a second, as in 2006-01-02T15:04:05; it is a parameter.
use modelrelay.Base.{ℕ, zero, suc, ◌+◌, ◌/◌, ◌%◌, List, [], ◌∷◌, ◌++◌, ◌==◌, if◌then◌else◌}

abbrev pub per_second : ℕ
per_second = 1000000000

-- The digits of `n`, as many as `k`, the first first.
unfoldable pub digits : ℕ → ℕ → List ℕ
digits zero n = []
digits (suc k) n = digits k (n / 10) ++ ((b'0' + n % 10) ∷ [])

abbrev pub or_drop : ℕ → List ℕ → List ℕ
or_drop d [] = if d == b'0' then [] else d ∷ []
or_drop d (e ∷ es) = d ∷ e ∷ es

-- Without the zeros at the end.
unfoldable pub trim_zeros : List ℕ → List ℕ
trim_zeros [] = []
trim_zeros (d ∷ ds) = or_drop d (trim_zeros ds)

abbrev pub with_point : List ℕ → List ℕ
with_point [] = []
with_point (d ∷ ds) = b'.' ∷ d ∷ ds

unfoldable pub fraction : ℕ → List ℕ
unfolding digits trim_zeros
fraction nanos = with_point (trim_zeros (digits 9 nanos))

unfoldable pub rfc3339_nano : (ℕ → List ℕ) → ℕ → List ℕ
unfolding fraction
rfc3339_nano clock t = clock (t / per_second) ++ (fraction (t % per_second) ++ (b'Z' ∷ []))
