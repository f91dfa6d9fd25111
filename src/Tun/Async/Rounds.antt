-- ===== src/Tun/Async/Rounds.antt =====
-- The end of the loop `poll_loop` of Tun/Async: the rounds in which the call would have blocked,
-- and then the one that ends the poll.
use flannel_ng.Base.{
  ℕ, zero, suc, ◌<◌, ◌≡◌, refl, ap, ◌∙◌, ◌⊎◌, inl, inr, Option, none, some, arith, Option-cases,
}
use flannel_ng.Base.Outcome.{Outcome, ok}
use flannel_ng.Tun.{IoResult, done, failed, Poll, ready, pending}
use flannel_ng.Tun.Async.{or_again, if_ready, poll_loop}

module _ {E G : Type 0} where
  Poll-cases :
      (p : Poll (IoResult E G))
      → (p ≡ pending) ⊎ (((e : E) × (p ≡ ready (failed e))) ⊎ ((g : G) × (p ≡ ready (done g))))
  Poll-cases pending = inl refl
  Poll-cases (ready (failed e)) = inr (inl (e, refl))
  Poll-cases (ready (done g)) = inr (inr (g, refl))

-- One round of the loop, by its ends.
module _ {E G R S W : Type 0} where
  if_ready-pending :
      (p : Poll (IoResult E G) × W) (s : S)
      (rest : G → S × W → Outcome (Poll (IoResult E R)) × (S × W))
      → p.0 ≡ pending
      → if_ready p s rest ≡ (ok pending, (s, p.1))
  if_ready-pending (p, w) s rest h = rw h refl

  if_ready-failed :
      (p : Poll (IoResult E G) × W) (s : S)
      (rest : G → S × W → Outcome (Poll (IoResult E R)) × (S × W)) (e : E)
      → p.0 ≡ ready (failed e)
      → if_ready p s rest ≡ (ok (ready (failed e)), (s, p.1))
  if_ready-failed (p, w) s rest e h = rw h refl

  if_ready-done :
      (p : Poll (IoResult E G) × W) (s : S)
      (rest : G → S × W → Outcome (Poll (IoResult E R)) × (S × W)) (g : G)
      → p.0 ≡ ready (done g)
      → if_ready p s rest ≡ rest g (s, p.1)
  if_ready-done (p, w) s rest g h = rw h refl

module _ {E R S W : Type 0} where
  or_again-some :
      (p : Option (IoResult E R) × (S × W)) (next : S × W → Outcome (Poll (IoResult E R)) × (S × W))
      (r : IoResult E R)
      → p.0 ≡ some r
      → or_again p next ≡ (ok (ready r), p.1)
  or_again-some (p, s) next r h = rw h refl

  or_again-none :
      (p : Option (IoResult E R) × (S × W)) (next : S × W → Outcome (Poll (IoResult E R)) × (S × W))
      → p.0 ≡ none
      → or_again p next ≡ next p.1
  or_again-none (p, s) next h = rw h refl

module _ {E G R S W : Type 0} (poll_ready : W → Poll (IoResult E G) × W)
    (body : G → S × W → Option (IoResult E R) × (S × W)) where
  -- The device says that it is ready, and the call then would block.
  pub record Blocks (s s' : S × W) : Type 0 where
    pub guard : G
    pub is_ready : (poll_ready s.1).0 ≡ ready (done guard)
    pub blocked : body guard (s.0, (poll_ready s.1).1) ≡ (none, s')

  pub data Rounds : S × W → S × W → Type 0 where
    stop : (s : S × W) → Rounds s s
    again : {s s' t : S × W} → Blocks s s' → Rounds s' t → Rounds s t

  -- How a round ends the poll.
  pub data IsLast : S × W → Poll (IoResult E R) × (S × W) → Type 0 where
    waits :
        (s : S × W) → (poll_ready s.1).0 ≡ pending → IsLast s (pending, (s.0, (poll_ready s.1).1))
    fails :
        (s : S × W) (e : E)
        → (poll_ready s.1).0 ≡ ready (failed e)
        → IsLast s (ready (failed e), (s.0, (poll_ready s.1).1))
    answers :
        (s : S × W) (g : G) (r : IoResult E R) (s' : S × W)
        → (poll_ready s.1).0 ≡ ready (done g)
        → body g (s.0, (poll_ready s.1).1) ≡ (some r, s')
        → IsLast s (ready r, s')

  -- The poll has this result after some rounds, from the first that does not block.
  pub record Ends (result : Outcome (Poll (IoResult E R)) × (S × W)) (s : S × W) : Type 0 where
    pub last : S × W
    pub rounds : Rounds s last
    pub value : Poll (IoResult E R) × (S × W)
    pub is_last : IsLast last value
    pub is_result : result ≡ (ok (value.0), value.1)

  -- With a measure that each blocked round lowers, the loop ends within that many rounds and one.
  pub poll_loop-Ends :
      (measure : W → ℕ)
      → ((s s' : S × W) → Blocks s s' → measure s'.1 < measure s.1)
      → (fuel : ℕ) (s : S × W) → measure s.1 < fuel
      → Ends (poll_loop fuel poll_ready body s) s
  unfolding poll_loop
  poll_loop-Ends measure lower zero s h = absurd (omega arith)
  poll_loop-Ends measure lower (suc fuel) s h = elim (Poll-cases ((poll_ready s.1).0)) [
    | inl e ↦ record {
      last = s;
      rounds = stop s;
      value = (pending, (s.0, (poll_ready s.1).1));
      is_last = waits s e;
      is_result = if_ready-pending (poll_ready s.1) s.0 rest e;
    }
    | inr (inl (x, e)) ↦ record {
      last = s;
      rounds = stop s;
      value = (ready (failed x), (s.0, (poll_ready s.1).1));
      is_last = fails s x e;
      is_result = if_ready-failed (poll_ready s.1) s.0 rest x e;
    }
    | inr (inr (g, e)) ↦ elim (Option-cases ((turn g).0)) [
      | inl none_eq ↦
          let b : Blocks s (turn g).1 = record {
            guard = g;
            is_ready = e;
            blocked = ap (λ o. (o, (turn g).1)) none_eq;
          } in
          let lt = lower s ((turn g).1) b in
          let rec = poll_loop-Ends measure lower fuel ((turn g).1) (omega (arith, lt, h)) in
          record {
            last = rec.last;
            rounds = again b rec.rounds;
            value = rec.value;
            is_last = rec.is_last;
            is_result =
                if_ready-done (poll_ready s.1) s.0 rest g e
                ∙ or_again-none (turn g) (poll_loop fuel poll_ready body) none_eq
                ∙ rec.is_result;
          }
      | inr (r, some_eq) ↦ record {
        last = s;
        rounds = stop s;
        value = (ready r, (turn g).1);
        is_last = answers s g r ((turn g).1) e (ap (λ o. (o, (turn g).1)) some_eq);
        is_result =
            if_ready-done (poll_ready s.1) s.0 rest g e
            ∙ or_again-some (turn g) (poll_loop fuel poll_ready body) r some_eq;
      }
    ]
  ]
    where
      turn : G → Option (IoResult E R) × (S × W)
      turn g = body g (s.0, (poll_ready s.1).1)

      rest : G → S × W → Outcome (Poll (IoResult E R)) × (S × W)
      rest g s' = or_again (body g s') (poll_loop fuel poll_ready body)
