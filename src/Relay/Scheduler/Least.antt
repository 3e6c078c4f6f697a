-- ===== src/Relay/Scheduler/Least.antt =====
-- The node that Select of internal/relay/scheduler.go returns is a least loaded one.
use mathlib.Core.List.{Memᴰ}
use modelrelay.Base.{
  ℕ, ◌≡◌, refl, inl, inr, false, String, List, [], ◌∷◌, arith, ◌==◌, Bool-cases, IsMap, string_eq,
  if◌then◌else◌, ok, err,
}
use modelrelay.Relay.Node.{Node}
use modelrelay.Relay.Registry.{Registry}
use modelrelay.Relay.Registry.Identity.{IsKeyed}
use modelrelay.Relay.Scheduler.{
  Float64, SelectError, candidates, classify_no_node, load, least_loaded, choose, select_node,
}
use modelrelay.Relay.Scheduler.Choice.{IsEligible, mem-candidates, mem_of_candidates}

module _ (fl : Float64) where
  open fl use {
    F, IsNumber, one, quotient, lt, one-IsNumber, quotient-IsNumber, lt_irrefl, lt_asymm,
    lt_connected,
  }

  load-IsNumber : (n : Node) → IsNumber (load fl n)
  unfolding load
  load-IsNumber n = elim (Bool-cases (n.max_concurrency == 0)) [
    | inl zero_limit ↦ rw zero_limit one-IsNumber
    | inr limited ↦ rw limited (quotient-IsNumber n.active n.max_concurrency (ground arith))
  ]

  module _ (r : Registry) where
    -- `q` is no less loaded than `p`.
    abbrev NotBelow : ℕ → ℕ → Type 0
    NotBelow p q = lt (load fl (r.heap q)) (load fl (r.heap p)) ≡ false

    NotBelow-refl : (p : ℕ) → NotBelow p p
    NotBelow-refl p = lt_irrefl (load fl (r.heap p)) (load-IsNumber (r.heap p))

    NotBelow-trans : (p q s : ℕ) → NotBelow p q → NotBelow q s → NotBelow p s
    NotBelow-trans p q s =
        lt_connected (load fl (r.heap p)) (load fl (r.heap q)) (load fl (r.heap s))
          (load-IsNumber (r.heap p)) (load-IsNumber (r.heap q)) (load-IsNumber (r.heap s))

    -- One comparison of the loop keeps the lesser of the two.
    lesser : ℕ → ℕ → ℕ
    lesser best c = if lt (load fl (r.heap c)) (load fl (r.heap best)) then c else best

    lesser-NotBelow : (best c : ℕ) → NotBelow (lesser best c) best × NotBelow (lesser best c) c
    unfolding lesser
    lesser-NotBelow best c = elim (Bool-cases (lt (load fl (r.heap c)) (load fl (r.heap best)))) [
      | inl below ↦ rw below (
        lt_asymm (load fl (r.heap c)) (load fl (r.heap best)) (load-IsNumber (r.heap c))
            (load-IsNumber (r.heap best)) below,
        NotBelow-refl c,
      )
      | inr above ↦ rw above (NotBelow-refl best, above)
    ]

    least_loaded-NotBelow :
        (best : ℕ) (cs : List ℕ)
        → NotBelow (least_loaded fl r best cs) best
          × ((q : ℕ) → Memᴰ q cs → NotBelow (least_loaded fl r best cs) q)
    unfolding least_loaded lesser
    least_loaded-NotBelow best [] = (NotBelow-refl best, λ q h. elim h [ ])
    least_loaded-NotBelow best (c ∷ cs) =
        let (now, later) = least_loaded-NotBelow (lesser best c) cs in
        let (over_best, over_c) = lesser-NotBelow best c in
        (
          NotBelow-trans (least_loaded fl r (lesser best c) cs) (lesser best c) best now over_best,
          λ q. elim [
            | Memᴰ.head same ↦
                rw same (
                  NotBelow-trans (least_loaded fl r (lesser best c) cs) (lesser best c) c now
                    over_c)
            | Memᴰ.tail h ↦ later q h
          ],
        )

    least_loaded-mem : (best : ℕ) (cs : List ℕ) → Memᴰ (least_loaded fl r best cs) (best ∷ cs)
    unfolding least_loaded
    least_loaded-mem best [] = Memᴰ.head refl
    least_loaded-mem best (c ∷ cs) =
        elim (Bool-cases (lt (load fl (r.heap c)) (load fl (r.heap best)))) [
          | inl below ↦ rw below (Memᴰ.tail (least_loaded-mem c cs))
          | inr above ↦ rw above (skip (least_loaded-mem best cs))
        ]
      where
        skip : {x : ℕ} → Memᴰ x (best ∷ cs) → Memᴰ x (best ∷ c ∷ cs)
        skip (Memᴰ.head p) = Memᴰ.head p
        skip (Memᴰ.tail h) = Memᴰ.tail (Memᴰ.tail h)

    choose-eq-ok :
        (e : SelectError) (cs : List ℕ) (p : ℕ)
        → choose fl r e cs ≡ ok p
        → Memᴰ p cs × ((q : ℕ) → Memᴰ q cs → NotBelow p q)
    unfolding choose
    choose-eq-ok e [] p h = cc
    choose-eq-ok e (c ∷ cs) p h =
        let same : least_loaded fl r c cs ≡ p = ground arith in
        let (first, rest) = least_loaded-NotBelow c cs in
        rw (← same) (
          least_loaded-mem c cs,
          λ q. elim [ Memᴰ.head is_c ↦ rw is_c first | Memᴰ.tail t ↦ rest q t ],
        )

    choose-eq-err :
        (e e' : SelectError) (cs : List ℕ)
        → choose fl r e cs ≡ err e'
        → (e ≡ e') × ((q : ℕ) → ¬ Memᴰ q cs)
    unfolding choose
    choose-eq-err e e' [] h = (ground arith, λ q m. elim m [ ])
    choose-eq-err e e' (c ∷ cs) h = cc

  -- In a registry whose ids are unique and lead to nodes of that id, the selected node is eligible
  -- (registered, serving, with a free slot and the model), and no eligible node has a smaller load.
  pub select_node-IsEligible :
      (r : Registry) (model capability : String) (p : ℕ)
      → IsMap r.nodes
      → IsKeyed r
      → select_node fl r model capability ≡ ok p
      → IsEligible r model capability p
        × ((q : ℕ)
            → IsEligible r model capability q
            → lt (load fl (r.heap q)) (load fl (r.heap p)) ≡ false)
  unfolding select_node
  select_node-IsEligible r model capability p unique keyed h =
      let (mem, least) = choose-eq-ok r _ (candidates r model capability) p h in
      (
        mem_of_candidates r model capability p unique keyed mem,
        λ q v. least q (mem-candidates r model capability q v),
      )

  -- An error means that no node is eligible, and is the one that `classifyNoNode` computes.
  select_node-eq-err :
      (r : Registry) (model capability : String) (e : SelectError)
      → select_node fl r model capability ≡ err e
      → (classify_no_node r model capability ≡ e) × ((q : ℕ) → ¬ IsEligible r model capability q)
  unfolding select_node
  select_node-eq-err r model capability e h =
      let (same, nobody) = choose-eq-err r _ e (candidates r model capability) h in
      (same, λ q v. nobody q (mem-candidates r model capability q v))
