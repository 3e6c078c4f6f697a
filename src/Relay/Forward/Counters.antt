-- ===== src/Relay/Forward/Counters.antt =====
-- Each request is counted once (internal/relay/proxy.go).
use modelrelay.Base.{
  ℕ, ◌+◌, ◌≡◌, refl, ap, ◌∙◌, inl, inr, true, String, List, [], ◌∷◌, arith, All, if◌then◌else◌,
  Bool-cases,
}
use modelrelay.Relay.Forward.{
  Client, Forward, Chunk, Answer, ctx_done, ttft_fired, idle_fired, headers, frame, done, error,
  write, drain, on_ctx_done, on_done, on_frame, on_error, give_up, count_failed, cancel_node, round,
  forward,
}

abbrev pub total : Forward → ℕ
total s = s.success + s.failed + s.canceled

-- The client takes every frame.
abbrev pub AllTaken : Answer → Type 0
AllTaken (frame chunk) = chunk.1 ≡ true
AllTaken (done chunks) = All (λ (chunk : Chunk). chunk.1 ≡ true) chunks
AllTaken (error code message chunks) = All (λ (chunk : Chunk). chunk.1 ≡ true) chunks
AllTaken _ = Unit

drain_complete :
    (chunks : List Chunk) (c : Client)
    → All (λ (chunk : Chunk). chunk.1 ≡ true) chunks
    → (drain chunks c).1 ≡ true
unfolding drain
drain_complete [] c h = refl
drain_complete ((payload, took) ∷ chunks) c h = rw h.0 (drain_complete chunks (write payload c) h.1)

module _ (error_body : String → String → List ℕ) where
  -- A round counts the request exactly when it returns.
  round-total :
      (s : Forward) (e : Answer)
      → AllTaken e
      → total (round error_body s e).0 ≡ (if (round error_body s e).1 then total s + 1 else total s)
  unfolding round on_ctx_done on_frame on_done on_error give_up count_failed cancel_node
  round-total s ctx_done h = ground arith
  round-total s ttft_fired h = ground arith
  round-total s idle_fired h = ground arith
  round-total s (headers code hs) h = refl
  round-total s (frame (payload, took)) h = ground arith
  round-total s (done chunks) h = ground (arith, drain_complete chunks s.client h)
  round-total s (error code message chunks) h = ground (arith, drain_complete chunks s.client h)

  -- As long as the client takes the frames, a request is counted exactly once among the successful,
  -- failed and canceled ones when its forwarding returns, and not at all before.
  pub forward-total :
      (s : Forward) (es : List Answer)
      → All AllTaken es
      → total (forward error_body s es).0
        ≡ (if (forward error_body s es).1 then total s + 1 else total s)
  unfolding forward
  forward-total s [] h = refl
  forward-total s (e ∷ es) h = elim (Bool-cases (round error_body s e).1) [
    | inl returned ↦
        let counted : total (round error_body s e).0 ≡ total s + 1 =
          rw returned at (round-total s e h.0) in
        rw returned counted
    | inr waits ↦
        let same : total (round error_body s e).0 ≡ total s = rw waits at (round-total s e h.0) in
        rw waits (
          forward-total (round error_body s e).0 es h.1
          ∙ ap (λ n. if (forward error_body (round error_body s e).0 es).1 then n + 1 else n) same)
  ]
