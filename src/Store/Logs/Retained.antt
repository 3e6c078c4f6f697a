-- ===== src/Store/Logs/Retained.antt =====
-- Which rows a prune of internal/store/audit.go keeps, by the texts of their times.
use modelrelay.Base.{
  ℕ, zero, suc, ◌+◌, ◌/◌, ◌%◌, ◌≤◌, ◌<◌, ◌≡◌, inl, inr, refl, sym, ap, ◌∙◌, Bool, true, false, not,
  ◌&&◌, List, [], ◌∷◌, ◌++◌, arith, ltb, ◌==◌, length, All, select, if◌then◌else◌, Bool-cases,
}
use modelrelay.Store.Logs.{text_lt, is_kept}
use modelrelay.Store.Logs.Timestamps.{
  per_second, digits, trim_zeros, with_point, fraction, rfc3339_nano,
}

text_lt-append :
    (xs ys a b : List ℕ)
    → length xs ≡ length ys
    → text_lt xs ys ≡ true
    → text_lt (xs ++ a) (ys ++ b) ≡ true
text_lt-append [] [] a b l h = cc
text_lt-append [] (y ∷ ys) a b l h = absurd (omega (arith, l))
text_lt-append (x ∷ xs) [] a b l h = cc
text_lt-append (x ∷ xs) (y ∷ ys) a b l h = ground (arith, text_lt-append xs ys a b)

text_lt-append_false :
    (xs ys a b : List ℕ)
    → length xs ≡ length ys
    → text_lt ys xs ≡ true
    → text_lt (xs ++ a) (ys ++ b) ≡ false
text_lt-append_false [] [] a b l h = cc
text_lt-append_false [] (y ∷ ys) a b l h = cc
text_lt-append_false (x ∷ xs) [] a b l h = absurd (omega (arith, l))
text_lt-append_false (x ∷ xs) (y ∷ ys) a b l h = ground (arith, text_lt-append_false xs ys a b)

text_lt-same : (xs a b : List ℕ) → text_lt (xs ++ a) (xs ++ b) ≡ text_lt a b
text_lt-same [] a b = refl
text_lt-same (x ∷ xs) a b = ground (arith, text_lt-same xs a b)

-- What is left of `n` without its last `k` digits.
abbrev higher : ℕ → ℕ → ℕ
higher zero n = n
higher (suc k) n = higher k (n / 10)

trim_zeros-append :
    (ds : List ℕ) (d : ℕ) → trim_zeros (ds ++ (d ∷ [])) ≡ [] → (trim_zeros ds ≡ []) × (d ≡ b'0')
unfolding trim_zeros
trim_zeros-append [] d h = (refl, ground arith)
trim_zeros-append (e ∷ ds) d h = ground (arith, trim_zeros-append ds d)

digits-nil : (k n : ℕ) → trim_zeros (digits k n) ≡ [] → higher k n ≡ 0 → n ≡ 0
unfolding digits
digits-nil zero n h z = z
digits-nil (suc k) n h z =
    let (front, last) = trim_zeros-append (digits k (n / 10)) (b'0' + n % 10) h in
    omega (arith, last, digits-nil k (n / 10) front z)

-- A part of a second begins with a point.
fraction-some : (n : ℕ) → 0 < n → n < per_second → (ds : List ℕ) × (fraction n ≡ b'.' ∷ ds)
unfolding fraction
fraction-some n some_part small = first (trim_zeros (digits 9 n)) refl
  where
    first :
        (ds : List ℕ) → trim_zeros (digits 9 n) ≡ ds → (es : List ℕ) × (with_point ds ≡ b'.' ∷ es)
    first [] e = absurd (omega (arith, digits-nil 9 n e (omega arith)))
    first (d ∷ ds) e = (d ∷ ds, refl)

fraction_zero : fraction 0 ≡ []
unfolding fraction
fraction_zero = refl

within_second : (xs a b : List ℕ) → text_lt a b ≡ true → not (text_lt (xs ++ a) (xs ++ b)) ≡ false
within_second xs a b h = ap not (text_lt-same xs a b ∙ h)

-- The rows of `before` that a prune leaves.
pub record IsPruned {A : Type 0} (time : A → ℕ) (cutoff : ℕ) (before after : List A) : Type 0 where
  pub no_older : All (λ r. cutoff / per_second ≤ time r / per_second) after
  pub newer_kept :
      select (λ r. ltb (cutoff / per_second) (time r / per_second)) after
      ≡ select (λ r. ltb (cutoff / per_second) (time r / per_second)) before

-- A later time within the second of a cutoff.
abbrev pub is_younger : ℕ → ℕ → Bool
is_younger cutoff time = time / per_second == cutoff / per_second && ltb cutoff time

-- Times before the second `limit` have texts of one width, in the order of the times.
module _ (clock : ℕ → List ℕ) (width limit : ℕ)
    (wide : (s : ℕ) → s < limit → length (clock s) ≡ width)
    (ordered : (s t : ℕ) → s < t → t < limit → text_lt (clock s) (clock t) ≡ true) (cutoff : ℕ)
    (before_limit : cutoff / per_second < limit) where
  same_width : (s t : ℕ) → s < limit → t < limit → length (clock s) ≡ length (clock t)
  same_width s t h k = wide s h ∙ sym (wide t k)

  is_kept-later :
      (time : ℕ)
      → time / per_second < limit
      → cutoff / per_second < time / per_second
      → is_kept (rfc3339_nano clock) cutoff time ≡ true
  unfolding rfc3339_nano
  is_kept-later time r h =
      ap not (text_lt-append_false _ _ _ _ (same_width _ _ r before_limit) (ordered _ _ h r))

  is_kept-earlier :
      (time : ℕ)
      → time / per_second < limit
      → time / per_second < cutoff / per_second
      → is_kept (rfc3339_nano clock) cutoff time ≡ false
  unfolding rfc3339_nano
  is_kept-earlier time r h =
      ap not (text_lt-append _ _ _ _ (same_width _ _ r before_limit) (ordered _ _ h before_limit))

  kept_second :
      (time : ℕ)
      → time / per_second < limit
      → is_kept (rfc3339_nano clock) cutoff time ≡ true
      → cutoff / per_second ≤ time / per_second
  kept_second time r h = elim (Bool-cases (ltb (time / per_second) (cutoff / per_second))) [
    | inl earlier ↦ let dropped = is_kept-earlier time r (ground arith) in cc
    | inr other ↦ ground arith
  ]

  dropped_second :
      (time : ℕ)
      → time / per_second < limit
      → is_kept (rfc3339_nano clock) cutoff time ≡ false
      → ltb (cutoff / per_second) (time / per_second) ≡ false
  dropped_second time r h = elim (Bool-cases (ltb (cutoff / per_second) (time / per_second))) [
    | inl later ↦ let kept = is_kept-later time r (ground arith) in cc
    | inr other ↦ other
  ]

  pub select-IsPruned :
      {A : Type 0} (time : A → ℕ) (rows : List A)
      → All (λ r. time r / per_second < limit) rows
      → IsPruned time cutoff rows (select (λ r. is_kept (rfc3339_nano clock) cutoff (time r)) rows)
  select-IsPruned time [] h = record { no_older = tt; newer_kept = refl }
  select-IsPruned {A} time (r ∷ rows) (h, hs) =
      let v = select-IsPruned time rows hs in
      elim (Bool-cases (is_kept (rfc3339_nano clock) cutoff (time r))) [
        | inl kept ↦ rw kept (record {
          no_older = (kept_second (time r) h kept, v.no_older);
          newer_kept =
              ap
                (λ rest. if ltb (cutoff / per_second) (time r / per_second) then r ∷ rest else rest)
                v.newer_kept;
        })
        | inr gone ↦ rw gone (record {
          no_older = v.no_older;
          newer_kept = rw (dropped_second (time r) h gone) v.newer_kept;
        })
      ]

module _ (clock : ℕ → List ℕ) where
  younger_dropped :
      (cutoff time : ℕ)
      → cutoff % per_second ≡ 0
      → is_younger cutoff time ≡ true
      → is_kept (rfc3339_nano clock) cutoff time ≡ false
  unfolding rfc3339_nano
  younger_dropped cutoff time whole h =
      let same : time / per_second ≡ cutoff / per_second = ground arith in
      let part : 0 < time % per_second = ground arith in
      let (ds, e) = fraction-some (time % per_second) part (omega arith) in
      rw (same, whole, e, fraction_zero)
        (within_second (clock (cutoff / per_second)) (b'.' ∷ (ds ++ (b'Z' ∷ []))) (b'Z' ∷ []) refl)

  pub select-younger :
      {A : Type 0} (time : A → ℕ) (cutoff : ℕ) (rows : List A)
      → cutoff % per_second ≡ 0
      → select
          (λ r. is_younger cutoff (time r))
          (select (λ r. is_kept (rfc3339_nano clock) cutoff (time r)) rows)
        ≡ []
  select-younger time cutoff [] whole = refl
  select-younger time cutoff (r ∷ rows) whole = elim (Bool-cases (is_younger cutoff (time r))) [
    | inl young ↦
        rw (younger_dropped cutoff (time r) whole young) (select-younger time cutoff rows whole)
    | inr old ↦ elim (Bool-cases (is_kept (rfc3339_nano clock) cutoff (time r))) [
      | inl kept ↦ rw (kept, old) (select-younger time cutoff rows whole)
      | inr gone ↦ rw gone (select-younger time cutoff rows whole)
    ]
  ]
