-- ===== src/Relay/Forward/Delivery.antt =====
-- What the client gets of an answer that arrives in order, and of one that does not
-- (internal/relay/proxy.go).
use modelrelay.Base.{
  ℕ, ◌<◌, ◌≤◌, ◌≡◌, refl, sym, ap, ◌∙◌, Bool, true, false, String, List, [], ◌∷◌, ◌++◌, map, some,
  arith, select, if◌then◌else◌, ◌==◌, append_assoc, append-nil,
}
use modelrelay.Relay.Forward.{
  Client, Forward, Chunk, Answer, headers, frame, done, is_passed_on, apply_headers,
  is_informational, write, write_header, drain, on_done, on_frame, round, forward, start,
}

abbrev pub taken : List ℕ → Chunk
taken payload = (payload, true)

abbrev pub concat : List (List ℕ) → List ℕ
concat [] = []
concat (p ∷ ps) = p ++ concat ps

module _ (error_body : String → String → List ℕ) (ttft idle : Bool) where
  -- The state with the headers and some body sent.
  unfoldable pub sending : ℕ → List (String × String) → List ℕ → Forward
  unfolding start
  sending code hs body = record (start ttft idle) {
    client = record { status = some code; headers = select is_passed_on hs; body = body };
    wrote_header = true;
    ttft_armed = false;
    rec_status = code;
  }

  forward-headers :
      (code : ℕ) (hs : List (String × String)) (es : List Answer)
      → is_informational code ≡ false
      → forward error_body (start ttft idle) (headers code hs ∷ es)
        ≡ forward error_body (sending code hs []) es
  unfolding sending start forward round apply_headers write_header
  forward-headers code hs es final = rw final

  forward-frames :
      (code : ℕ) (hs : List (String × String)) (body : List ℕ) (ps : List (List ℕ))
      (es : List Answer)
      → forward error_body (sending code hs body) (map (λ p. frame (taken p)) ps ++ es)
        ≡ forward error_body (sending code hs (body ++ concat ps)) es
  unfolding sending start forward round on_frame write write_header
  forward-frames code hs body [] es =
      ap (λ b. forward error_body (sending code hs b) es) (sym (append-nil body))
  forward-frames code hs body (p ∷ ps) es =
      forward-frames code hs (body ++ p) ps es
      ∙ ap (λ b. forward error_body (sending code hs b) es) (append_assoc body p (concat ps))

  abbrev client_of : ℕ → List (String × String) → List ℕ → Client
  client_of code hs body = record { status = some code; headers = hs; body = body }

  drain-taken :
      (code : ℕ) (hs : List (String × String)) (body : List ℕ) (qs : List (List ℕ))
      → drain (map taken qs) (client_of code hs body)
        ≡ (client_of code hs (body ++ concat qs), true)
  unfolding drain write write_header
  drain-taken code hs body [] = ap (λ b. (client_of code hs b, true)) (sym (append-nil body))
  drain-taken code hs body (q ∷ qs) =
      drain-taken code hs (body ++ q) qs
      ∙ ap (λ b. (client_of code hs b, true)) (append_assoc body q (concat qs))

  on_done-sending :
      (code : ℕ) (hs : List (String × String)) (body : List ℕ) (qs : List (List ℕ))
      → 0 < code
      → on_done error_body (map taken qs) (sending code hs body)
        ≡ record (sending code hs (body ++ concat qs)) { success = 1 }
  unfolding on_done sending start write_header
  on_done-sending code hs body qs positive =
      let status : (if code == 0 then 200 else code) ≡ code = ground arith in
      rw (on_done, drain-taken code (select is_passed_on hs) body qs, status)

  -- If forwardResponse takes the agent's headers, with a status from 200 to 999, before anything else,
  -- then frames and then done with the frames that are queued by then, and the client takes them all, the
  -- client gets the agent's status, the headers on the list and all the payloads in their order; it counts
  -- as one success and is recorded with the agent's status.
  pub forward-in_order :
      (code : ℕ) (hs : List (String × String)) (ps qs : List (List ℕ))
      → 200 ≤ code
      → code ≤ 999
      → forward error_body
          (start ttft idle)
          (headers code hs ∷ (map (λ p. frame (taken p)) ps ++ (done (map taken qs) ∷ [])))
        ≡ (record (sending code hs (concat ps ++ concat qs)) { success = 1 }, true)
  unfolding forward round
  forward-in_order code hs ps qs final known =
      forward-headers code hs (map (λ p. frame (taken p)) ps ++ (done (map taken qs) ∷ []))
        (ground arith)
      ∙ forward-frames code hs [] ps (done (map taken qs) ∷ [])
      ∙ ap (λ s. (s, true)) (on_done-sending code hs (concat ps) qs (omega arith))

  on_done-start :
      (qs : List (List ℕ))
      → on_done error_body (map taken qs) (start ttft idle) ≡ record (start ttft idle) {
        client = client_of 200 [] (concat qs);
        success = 1;
        rec_status = 200;
      }
  unfolding on_done start write_header drain write
  on_done-start [] = refl
  on_done-start (q ∷ qs) = rw (on_done, drain-taken 200 [] q qs)

  -- If the agent's done is taken before its headers, the client gets status 200 with the queued
  -- payloads, whatever status the agent sent, and the request is recorded so.
  pub forward-done_first :
      (code : ℕ) (hs : List (String × String)) (qs : List (List ℕ))
      → let s =
          (forward error_body (start ttft idle) (done (map taken qs) ∷ headers code hs ∷ [])).0 in
        (s.client.status ≡ some 200) × (s.client.body ≡ concat qs) × (s.rec_status ≡ 200)
  unfolding forward round
  forward-done_first code hs qs = (
    ap (λ s. s.client.status) (on_done-start qs),
    ap (λ s. s.client.body) (on_done-start qs),
    ap (λ s. s.rec_status) (on_done-start qs),
  )
