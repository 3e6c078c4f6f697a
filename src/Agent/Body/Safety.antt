-- ===== src/Agent/Body/Safety.antt =====
-- What a body that assembleBody (internal/agent/agent.go) returns is made of.
use modelrelay.Base.{
  ℕ, ◌≡◌, refl, ap, ◌∙◌, true, false, List, [], ◌∷◌, ◌++◌, map, some, arith, length, All, ◌⊎◌, inl,
  inr, ok,
}
use mathlib.Core.List.{append_assoc}
use modelrelay.Protocol.Frame.{Frame}
use modelrelay.Agent.Body.{
  BodyEvent, ctx_done, request_done, timer_fired, body_frame, assemble_body,
}

abbrev pub payloads : List Frame → List ℕ
payloads [] = []
payloads (f ∷ fs) = f.payload ++ payloads fs

-- The events began with frames that are not last and a last one, which together make `b`.
pub record IsAssembled (body_len : ℕ) (buf : List ℕ) (evs : List BodyEvent) (b : List ℕ)
    : Type 0 where
  pub frames : List Frame
  pub final : Frame
  pub later : List BodyEvent
  pub received : evs ≡ map body_frame frames ++ (body_frame final ∷ later)
  pub unfinished : All (λ f. f.last ≡ false) frames
  pub finished : final.last ≡ true
  pub content : b ≡ buf ++ (payloads frames ++ final.payload)
  pub size : length b ≡ body_len

assemble_body-cases :
    (n : ℕ) (buf : List ℕ) (f : Frame) (evs : List BodyEvent) (b : List ℕ)
    → assemble_body n buf (body_frame f ∷ evs) ≡ some (ok b)
    → ((f.last ≡ true) × (b ≡ buf ++ f.payload) × (length b ≡ n))
      ⊎ ((f.last ≡ false) × (assemble_body n (buf ++ f.payload) evs ≡ some (ok b)))
unfolding assemble_body
assemble_body-cases n buf f evs b e = ground arith

-- A body is returned only if it has the declared length and is made of the payloads received up to
-- the first last frame, in order, with no other event between them.
assemble_body-IsAssembled :
    (n : ℕ) (buf : List ℕ) (evs : List BodyEvent) (b : List ℕ)
    → assemble_body n buf evs ≡ some (ok b)
    → IsAssembled n buf evs b
unfolding assemble_body
assemble_body-IsAssembled n buf [] b e = cc
assemble_body-IsAssembled n buf (ctx_done ∷ evs) b e = cc
assemble_body-IsAssembled n buf (request_done ∷ evs) b e = cc
assemble_body-IsAssembled n buf (timer_fired ∷ evs) b e = cc
assemble_body-IsAssembled n buf (body_frame f ∷ evs) b e =
    elim (assemble_body-cases n buf f evs b e) [
      | inl (last, content, size) ↦ record {
        frames = [];
        final = f;
        later = evs;
        received = refl;
        unfinished = tt;
        finished = last;
        content = content;
        size = size;
      }
      | inr (more, rest) ↦
          let a = assemble_body-IsAssembled n (buf ++ f.payload) evs b rest in
          record {
            frames = f ∷ a.frames;
            final = a.final;
            later = a.later;
            received = ap (◌∷◌ (body_frame f)) a.received;
            unfinished = (more, a.unfinished);
            finished = a.finished;
            content = a.content ∙ simp append_assoc;
            size = a.size;
          }
    ]
