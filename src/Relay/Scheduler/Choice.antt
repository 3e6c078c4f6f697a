-- ===== src/Relay/Scheduler/Choice.antt =====
-- Select of internal/relay/scheduler.go: which node it returns, and when it returns none.
use mathlib.Core.List.{Memᴰ}
use modelrelay.Base.{
  ℕ, ◌≡◌, refl, sym, ap, ◌∙◌, inl, inr, true, String, List, [], ◌∷◌, some, arith, string_eq,
  Option-cases, IsMap,
}
use modelrelay.Relay.Node.{NodeSnapshot, snapshot, is_serving, has_capacity, supports_model}
use modelrelay.Relay.Registry.{Registry, get, list}
use modelrelay.Relay.Registry.Identity.{IsKeyed}
use modelrelay.Relay.Registry.Listing.{mem-list, mem_of_list}
use modelrelay.Relay.Scheduler.{candidate_of, candidates_in, candidates}

-- A node that may be chosen: registered, serving, with a free slot, and with the model.
pub record IsEligible (r : Registry) (model capability : String) (p : ℕ) : Type 0 where
  pub registered : get r (r.heap p).id ≡ some p
  pub serving : is_serving (r.heap p).state ≡ true
  pub room : has_capacity (r.heap p) ≡ true
  pub supported : supports_model (r.heap p) model capability ≡ true

module _ (r : Registry) (model capability : String) where
  candidate_of-eligible :
      (p : ℕ)
      → IsEligible r model capability p
      → candidate_of r model capability (snapshot (r.heap p)) ≡ some p
  unfolding candidate_of snapshot
  candidate_of-eligible p v = ground (arith, v.registered, v.serving, v.room, v.supported)

  candidate_of-eq-some :
      (s : NodeSnapshot) (p : ℕ)
      → candidate_of r model capability s ≡ some p
      → (is_serving s.state ≡ true)
        × (get r s.id ≡ some p)
        × (has_capacity (r.heap p) ≡ true)
        × (supports_model (r.heap p) model capability ≡ true)
  unfolding candidate_of
  candidate_of-eq-some s p e = ground arith

  mem-candidates_in :
      (snaps : List NodeSnapshot) (s : NodeSnapshot) (p : ℕ)
      → Memᴰ s snaps
      → candidate_of r model capability s ≡ some p
      → Memᴰ p (candidates_in r model capability snaps)
  unfolding candidates_in
  mem-candidates_in [] s p h e = elim h [ ]
  mem-candidates_in (x ∷ xs) s p (Memᴰ.head same) e =
      rw (rw same at e, candidates_in) (Memᴰ.head refl)
  mem-candidates_in (x ∷ xs) s p (Memᴰ.tail h) e =
      elim (Option-cases (candidate_of r model capability x)) [
        | inl skipped ↦ rw (skipped, candidates_in) (mem-candidates_in xs s p h e)
        | inr (q, taken) ↦ rw (taken, candidates_in) (Memᴰ.tail (mem-candidates_in xs s p h e))
      ]

  mem_of_candidates_in :
      (snaps : List NodeSnapshot) (p : ℕ)
      → Memᴰ p (candidates_in r model capability snaps)
      → (s : NodeSnapshot) × Memᴰ s snaps × (candidate_of r model capability s ≡ some p)
  unfolding candidates_in
  mem_of_candidates_in [] p h = elim h [ ]
  mem_of_candidates_in (x ∷ xs) p h = elim (Option-cases (candidate_of r model capability x)) [
    | inl skipped ↦
        let (s, m, e) = mem_of_candidates_in xs p (rw (skipped, candidates_in) at h) in
        (s, Memᴰ.tail m, e)
    | inr (q, taken) ↦ found q taken (mem_of_candidates_in xs p) (rw (taken, candidates_in) at h)
  ]
    where
      found :
          (q : ℕ)
          → candidate_of r model capability x ≡ some q
          → (Memᴰ p (candidates_in r model capability xs)
              → (s : NodeSnapshot) × Memᴰ s xs × (candidate_of r model capability s ≡ some p))
          → Memᴰ p (q ∷ candidates_in r model capability xs)
          → (s : NodeSnapshot) × Memᴰ s (x ∷ xs) × (candidate_of r model capability s ≡ some p)
      found q taken ih (Memᴰ.head same) = (x, Memᴰ.head refl, rw same taken)
      found q taken ih (Memᴰ.tail t) = let (s, m, e) = ih t in (s, Memᴰ.tail m, e)

  -- The candidates are exactly the eligible nodes.
  pub mem-candidates :
      (p : ℕ) → IsEligible r model capability p → Memᴰ p (candidates r model capability)
  unfolding candidates
  mem-candidates p v =
      mem-candidates_in (list r) (snapshot (r.heap p)) p (mem-list r (r.heap p).id p v.registered)
        (candidate_of-eligible p v)

  pub mem_of_candidates :
      (p : ℕ)
      → IsMap r.nodes
      → IsKeyed r
      → Memᴰ p (candidates r model capability)
      → IsEligible r model capability p
  unfolding candidates snapshot
  mem_of_candidates p unique keyed h =
      let (s, listed, e) = mem_of_candidates_in (list r) p h in
      let (serving, found, room, supported) = candidate_of-eq-some s p e in
      let (id, q, same, entry) = mem_of_list r s unique listed in
      let own : (r.heap q).id ≡ id = keyed id q entry in
      let key : s.id ≡ id = ap (λ t. t.id) same ∙ own in
      let p_q : p ≡ q = ground arith in
      record {
        registered = rw (p_q, own) entry;
        serving = rw p_q (sym (ap (λ t. is_serving t.state) same) ∙ serving);
        room = room;
        supported = supported;
      }
