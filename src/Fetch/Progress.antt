-- ===== src/Fetch/Progress.antt =====
-- The goroutines never wait for ever, and every schedule ends.
use deckle.Base.{
  ℕ, zero, suc, ◌+◌, ◌≤◌, ◌<◌, Option, List, [], ◌∷◌, ◌++◌, ◌⊎◌, inl, inr, ◌≡◌, refl, ap, arith,
  Text,
}
use deckle.Fetch.Order.{gather-Reach}
use deckle.Fetch.Pool.{
  Phase, waiting, working, stored, left, Worker, held, holds, started, Step, acquire, store, leave,
  Reach, here, next, IsDone, gather, successes,
}

-- The steps that a goroutine has before it.
abbrev pub to_go : Phase → ℕ
to_go waiting = 3
to_go working = 2
to_go stored = 1
to_go left = 0

abbrev pub remaining : {A : Type 0} → List (Worker A) → ℕ
remaining [] = 0
remaining (w ∷ ws) = to_go w.phase + remaining ws

remaining-append :
    {A : Type 0} → (us vs : List (Worker A)) → remaining (us ++ vs) ≡ remaining us + remaining vs
remaining-append [] vs = omega arith
remaining-append (w ∷ us) vs = omega (arith, remaining-append us vs)

-- Every step of a goroutine takes one from the steps that the goroutines have before them in all.
pub Step-remaining :
    {A : Type 0}
    → {n : ℕ} (us vs : List (Worker A)) → Step n us vs
    → remaining us ≡ suc (remaining vs)
Step-remaining us vs (acquire before after w p h) = omega (
  arith,
  remaining-append before (w ∷ after),
  remaining-append before (record w { phase = working } ∷ after),
  ap to_go p,
)
Step-remaining us vs (store before after w p) = omega (
  arith,
  remaining-append before (w ∷ after),
  remaining-append before (record w { phase = stored; slot = w.outcome } ∷ after),
  ap to_go p,
)
Step-remaining us vs (leave before after w p) = omega (
  arith,
  remaining-append before (w ∷ after),
  remaining-append before (record w { phase = left } ∷ after),
  ap to_go p,
)

-- Either all have left, or one can move on freely, or one waits and none holds a place.
data Choice {A : Type 0} (ws : List (Worker A)) : Type 0 where
  done : IsDone ws → Choice ws
  free :
      (before after : List (Worker A)) (w : Worker A)
      → ws ≡ before ++ w ∷ after
      → (w.phase ≡ working) ⊎ (w.phase ≡ stored)
      → Choice ws
  idle :
      (before after : List (Worker A)) (w : Worker A)
      → ws ≡ before ++ w ∷ after
      → w.phase ≡ waiting
      → held ws ≡ 0
      → Choice ws

done-held : {A : Type 0} → (ws : List (Worker A)) → IsDone ws → held ws ≡ 0
done-held [] d = refl
done-held (w ∷ ws) d = omega (arith, ap holds d.0, done-held ws d.1)

Choice-cons :
    {A : Type 0}
    → (w : Worker A) (ws : List (Worker A)) (p : Phase) → w.phase ≡ p
    → Choice ws
    → Choice (w ∷ ws)
Choice-cons w ws working e c = free [] ws w refl (inl e)
Choice-cons w ws stored e c = free [] ws w refl (inr e)
Choice-cons w ws p e (free before after v s h) = free (w ∷ before) after v (ap (◌∷◌ w) s) h
Choice-cons w ws waiting e (done d) =
    idle [] ws w refl e (omega (arith, ap holds e, done-held ws d))
Choice-cons w ws waiting e (idle before after v s h z) =
    idle [] ws w refl e (omega (arith, ap holds e))
Choice-cons w ws left e (done d) = done (e, d)
Choice-cons w ws left e (idle before after v s h z) =
    idle (w ∷ before) after v (ap (◌∷◌ w) s) h (omega (arith, ap holds e))

choose : {A : Type 0} → (ws : List (Worker A)) → Choice ws
choose [] = done tt
choose (w ∷ ws) = Choice-cons w ws w.phase refl (choose ws)

-- As long as not all goroutines have left, and there is a place at all, one of them can move.
pub can_move :
    {A : Type 0}
    → (n : ℕ) → 0 < n
    → (ws : List (Worker A)) → IsDone ws ⊎ ((vs : List (Worker A)) × Step n ws vs)
can_move {A} n pos ws = from_choice (choose ws)
  where
    from_choice : Choice ws → IsDone ws ⊎ ((vs : List (Worker A)) × Step n ws vs)
    from_choice (done d) = inl d
    from_choice (free before after w s (inl e)) = inr (rw s (_, store before after w e))
    from_choice (free before after w s (inr e)) = inr (rw s (_, leave before after w e))
    from_choice (idle before after w s e z) =
        inr (rw s (_, acquire before after w e (omega (arith, z, ap held s))))

Reach-first :
    {A : Type 0}
    → {n : ℕ} {ws us vs : List (Worker A)} → Step n ws us
    → Reach n us vs
    → Reach n ws vs
Reach-first s here = next here s
Reach-first s (next r t) = next (Reach-first s r) t

pub Reach-trans :
    {A : Type 0}
    → {n : ℕ} {ws us vs : List (Worker A)} → Reach n ws us
    → Reach n us vs
    → Reach n ws vs
Reach-trans r here = r
Reach-trans r (next q s) = next (Reach-trans r q) s

abbrev pub Finishes : {A : Type 0} → ℕ → List (Worker A) → Type 0
Finishes {A} n ws = (vs : List (Worker A)) × Reach n ws vs × IsDone vs

finish :
    {A : Type 0}
    → (fuel n : ℕ) → 0 < n
    → (ws : List (Worker A)) → remaining ws ≤ fuel
    → Finishes n ws
finish zero n pos ws le = elim (can_move n pos ws) [
  | inl d ↦ (ws, here, d)
  | inr (us, s) ↦ absurd (omega (arith, Step-remaining ws us s))
]
finish (suc fuel) n pos ws le = elim (can_move n pos ws) [
  | inl d ↦ (ws, here, d)
  | inr (us, s) ↦
      let (vs, r, d) = finish fuel n pos us (omega (arith, Step-remaining ws us s)) in
      (vs, Reach-first s r, d)
]

pub finishes : {A : Type 0} → (n : ℕ) → 0 < n → (ws : List (Worker A)) → Finishes n ws
finishes n pos ws = finish (remaining ws) n pos ws (omega arith)

-- With a positive concurrency there is no deadlock: whatever the goroutines have done so far, they
-- can all leave, and then the articles are those of the URLs that `processURL` succeeds on, in the
-- order of the URLs.
pub fetch_finishes :
    {A : Type 0}
    → (process : Text → Option A) (urls : List Text) (concurrency : ℕ) (ws : List (Worker A))
    → 0 < concurrency
    → Reach concurrency (started process urls) ws
    → (vs : List (Worker A)) × Reach concurrency ws vs
      × IsDone vs
      × (gather vs ≡ successes process urls)
fetch_finishes process urls n ws pos r =
    let (vs, q, d) = finishes n pos ws in
    (vs, q, d, gather-Reach process urls n vs (Reach-trans r q) d)
