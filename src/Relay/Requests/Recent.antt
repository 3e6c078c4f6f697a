-- ===== src/Relay/Requests/Recent.antt =====
-- The ring keeps the last records (internal/relay/requests.go).
use modelrelay.Base.{
  ℕ, append_assoc, append-nil, drop-append_left, if-cases, ◌+◌, ◌-◌, ◌≤◌, ◌≡◌, refl, sym, ap, ◌∙◌,
  List, [], ◌∷◌, ◌++◌, arith, ltb, length, length-append, length-drop, drop, drop-drop,
  if◌then◌else◌,
}
use modelrelay.Relay.Requests.{
  RequestRecord, RingBuffer, new_ring_buffer, push, list, reverse_onto, recent_requests,
}

unfoldable pub push_all : List RequestRecord → RingBuffer → RingBuffer
unfolding push
push_all [] r = r
push_all (x ∷ xs) r = push_all xs (push x r)

-- The last `n` elements.
abbrev pub last_n : ℕ → List RequestRecord → List RequestRecord
last_n n xs = drop (length xs - n) xs

push-items :
    (x : RequestRecord) (r : RingBuffer)
    → push x r ≡ record r { items = last_n r.max (r.items ++ (x ∷ [])) }
unfolding push
push-items x r =
    if-cases (λ (q : RingBuffer). q ≡ record r { items = last_n r.max (r.items ++ (x ∷ [])) })
      (ltb r.max (length (r.items ++ (x ∷ [])))) (λ _. refl)
      (λ fits.
        let none_dropped : length (r.items ++ (x ∷ [])) - r.max ≡ 0 = ground arith in
        rw none_dropped)

last_n-append :
    (n : ℕ) (xs ys : List RequestRecord) → last_n n (last_n n xs ++ ys) ≡ last_n n (xs ++ ys)
last_n-append n xs ys =
    let k : ℕ = length xs - n in
    let onto : drop k xs ++ ys ≡ drop k (xs ++ ys) = drop-append_left k xs ys (omega arith) in
    let all : length (drop k (xs ++ ys)) ≡ length (xs ++ ys) - k = length-drop k (xs ++ ys) in
    let count : length (xs ++ ys) ≡ length xs + length ys = length-append xs ys in
    let sum : k + (length (xs ++ ys) - k - n) ≡ length (xs ++ ys) - n = omega (arith, count) in
    rw (onto, all)
      (drop-drop k (length (xs ++ ys) - k - n) (xs ++ ys) ∙ ap (λ m. drop m (xs ++ ys)) sum)

push_all-items :
    (xs : List RequestRecord) (r : RingBuffer)
    → length r.items ≤ r.max
    → push_all xs r ≡ record r { items = last_n r.max (r.items ++ xs) }
unfolding push_all
push_all-items [] r h =
    ap (λ items. record r { items = items }) (whole ∙ ap (last_n r.max) (sym (append-nil r.items)))
  where
    whole : r.items ≡ last_n r.max r.items
    whole = let e : length r.items - r.max ≡ 0 = omega arith in rw e
push_all-items (x ∷ xs) r h =
    ap (push_all xs) (push-items x r)
    ∙ push_all-items xs (record r { items = last_n r.max (r.items ++ (x ∷ [])) })
        (omega (arith, length-drop (length (r.items ++ (x ∷ [])) - r.max) (r.items ++ (x ∷ []))))
    ∙ ap (λ items. record r { items = items })
        (last_n-append r.max (r.items ++ (x ∷ [])) xs
          ∙ ap (last_n r.max) (append_assoc r.items (x ∷ []) xs))

-- The list of recent requests is the last ones that were recorded, at most the size of the ring,
-- the newest first; nothing else is lost.
recent_requests-push_all :
    (size : ℕ) (xs : List RequestRecord)
    → recent_requests (push_all xs (new_ring_buffer size))
      ≡ reverse_onto (last_n (if ltb 0 size then size else 500) xs) []
unfolding recent_requests list new_ring_buffer
recent_requests-push_all size xs =
    ap recent_requests (push_all-items xs (new_ring_buffer size) (omega arith))
