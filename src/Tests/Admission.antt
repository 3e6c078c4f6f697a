-- ===== src/Tests/Admission.antt =====
-- The theorems on acquire as interleaved steps at concrete inputs.
use modelrelay.Base.{◌≡◌, refl, [], ◌∷◌, arith}
use modelrelay.Relay.Admission.{
  System, selecting, serving, idle, pass, enter, take_slot, return_slot, Reach, here, later, arrive,
  move,
}
use modelrelay.Relay.Admission.Slots.{IsCounted, Reach-IsCounted}
use modelrelay.Relay.Admission.Overflow.{copies, waiting_unbounded}

-- One request is served while another waits.
abbrev one_served : System
one_served = record {
  shared = record { sem = 1; waiting = 1; queue_full_total = 0 };
  requests = selecting ∷ serving ∷ [];
}

served_first : Reach 2 1 idle (record {
  shared = record { sem = 1; waiting = 0; queue_full_total = 0 };
  requests = serving ∷ [];
})
served_first =
    later
      (later
        (later (later (later here arrive) (move [] [] refl (pass (omega arith))))
          (move [] [] refl enter))
        (move [] [] refl (take_slot (omega arith))))
      (move [] [] refl return_slot)

reached : Reach 2 1 idle one_served
reached =
    later (later (later served_first arrive) (move [] (serving ∷ []) refl (pass (omega arith))))
      (move [] (serving ∷ []) refl enter)

Reach-IsCounted_example : IsCounted 1 one_served
Reach-IsCounted_example = Reach-IsCounted 2 1 one_served reached

waiting_unbounded_example :
    (s : System) × Reach 1 1 idle s
    × (s.shared.waiting ≡ 3)
    × (s.requests ≡ copies 3 selecting [])
    × (s.shared.queue_full_total ≡ 0)
waiting_unbounded_example = waiting_unbounded 1 1 (omega arith) 3
