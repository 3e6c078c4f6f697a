-- ===== src/Relay/Pending/Isolation.antt =====
-- An agent reaches only its own requests (internal/relay/wss.go).
use modelrelay.Base.{
  ℕ, ◌≡◌, sym, ap, subst, ◌∙◌, ◌≢◌, inl, inr, String, List, [], ◌∷◌, none, some, lookup, insert,
  lookup-insert_ne, string_eq, byte_list_eq, Bool-cases, Option-cases, if◌then◌else◌, none-some,
  some-injective,
}
use modelrelay.Protocol.Frame.{Frame}
use modelrelay.Relay.Pending.{
  PendingRequest, PendingRegistry, ControlMessage, heartbeat, response_headers, done, error,
  models_update, drain_ack, bye, unreadable, unhandled, Dispatch, pending_owned_by, update_owned,
  dispatch_frame, dispatch_control, Incoming, text, binary, bad, ended, receive_one, read_loop,
}

-- A request of another node.
abbrev pub IsForeign : String → List ℕ → PendingRequest → PendingRegistry → Type 0
IsForeign node_id key q m = (lookup key m ≡ some q) × (q.node_id ≢ node_id)

module _ (node_id : String) where
  owned-found :
      (key : List ℕ) (p : PendingRequest) (m : PendingRegistry)
      → pending_owned_by node_id key m ≡ some p
      → (lookup key m ≡ some p) × (p.node_id ≡ node_id)
  unfolding pending_owned_by
  owned-found key p m own = elim (Option-cases (lookup key m)) [
    | inl absent ↦ absurd (none-some (rw (pending_owned_by, absent) at own))
    | inr (r, held) ↦
        let kept : (if string_eq.eqb r.node_id node_id then some r else none) ≡ some p =
          rw (pending_owned_by, held) at own in
        elim (Bool-cases (string_eq.eqb r.node_id node_id)) [
          | inr apart ↦ absurd (none-some (rw apart at kept))
          | inl mine ↦
              let same : r ≡ p = some-injective (rw mine at kept) in
              (
                held ∙ ap some same,
                subst (λ x. x.node_id ≡ node_id) same
                    ((string_eq.eqb_iff r.node_id node_id).0 mine),
              )
        ]
  ]

  module _ (i : List ℕ) (q : PendingRequest) where
    -- A write under a key that the node owns leaves the requests of other nodes.
    insert_owned :
        (key : List ℕ) (p p' : PendingRequest) (m : PendingRegistry)
        → pending_owned_by node_id key m ≡ some p
        → IsForeign node_id i q m
        → IsForeign node_id i q (insert key p' m)
    insert_owned key p p' m own (found, foreign) =
        (lookup-insert_ne key i p' m apart ∙ found, foreign)
      where
        apart : key ≢ i
        apart same =
            let (here, mine) = owned-found key p m own in
            foreign (
              ap (λ x. x.node_id)
                (some-injective (sym found ∙ subst (λ k. lookup k m ≡ some p) same here))
              ∙ mine)

    update_owned-IsForeign :
        (key : List ℕ) (f : PendingRequest → PendingRequest) (m : PendingRegistry)
        → IsForeign node_id i q m
        → IsForeign node_id i q (update_owned node_id key f m)
    unfolding update_owned
    update_owned-IsForeign key f m h = elim (Option-cases (pending_owned_by node_id key m)) [
      | inl free ↦ rw (update_owned, free) h
      | inr (p, own) ↦ rw (update_owned, own) (insert_owned key p (f p) m own h)
    ]

    dispatch_frame-IsForeign :
        (f : Frame) (d : Dispatch)
        → IsForeign node_id i q d.pending
        → IsForeign node_id i q (dispatch_frame node_id f d).pending
    unfolding dispatch_frame
    dispatch_frame-IsForeign f d h =
        elim (Option-cases (pending_owned_by node_id f.request_id d.pending)) [
          | inl free ↦ rw (dispatch_frame, free) h
          | inr (p, own) ↦ rw (dispatch_frame, own) (insert_owned f.request_id p _ d.pending own h)
        ]

    module _ (sha256 : List ℕ → List ℕ) where
      dispatch_control-IsForeign :
          (now p : ℕ) (m : ControlMessage) (d : Dispatch)
          → IsForeign node_id i q d.pending
          → IsForeign node_id i q (dispatch_control sha256 now p node_id m d).0.pending
      unfolding dispatch_control
      dispatch_control-IsForeign now p (heartbeat seq local_ok) d h = h
      dispatch_control-IsForeign now p (response_headers id rh) d h =
          update_owned-IsForeign _ _ d.pending h
      dispatch_control-IsForeign now p (done id) d h = update_owned-IsForeign _ _ d.pending h
      dispatch_control-IsForeign now p (error id e) d h = update_owned-IsForeign _ _ d.pending h
      dispatch_control-IsForeign now p (models_update models) d h = h
      dispatch_control-IsForeign now p drain_ack d h = h
      dispatch_control-IsForeign now p bye d h = h
      dispatch_control-IsForeign now p unreadable d h = h
      dispatch_control-IsForeign now p unhandled d h = h

      receive_one-IsForeign :
          (p : ℕ) (m : Incoming) (d : Dispatch)
          → IsForeign node_id i q d.pending
          → IsForeign node_id i q (receive_one sha256 p node_id m d).0.pending
      unfolding receive_one
      receive_one-IsForeign p (text now m) d h = dispatch_control-IsForeign now p m d h
      receive_one-IsForeign p (binary f) d h = dispatch_frame-IsForeign f d h
      receive_one-IsForeign p bad d h = h
      receive_one-IsForeign p ended d h = h

      -- Whatever an agent sends on its connection, in any order and with any request ids, a request
      -- that is pending at another node stays in the relay's map exactly as it is.
      pub read_loop-IsForeign :
          (p : ℕ) (ms : List Incoming) (d : Dispatch)
          → IsForeign node_id i q d.pending
          → IsForeign node_id i q (read_loop sha256 p node_id ms d).pending
      unfolding read_loop
      read_loop-IsForeign p [] d h = h
      read_loop-IsForeign p (m ∷ ms) d h =
          let next = receive_one-IsForeign p m d h in
          let later = read_loop-IsForeign p ms _ next in
          elim (Bool-cases (receive_one sha256 p node_id m d).1) [
            | inl on ↦ rw on later
            | inr over ↦ rw over next
          ]
