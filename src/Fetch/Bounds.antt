-- ===== src/Fetch/Bounds.antt =====
-- The semaphore bounds the number of goroutines at work.
use deckle.Base.{ℕ, ◌+◌, ◌≤◌, Option, List, [], ◌∷◌, ◌++◌, ◌≡◌, refl, ap, arith, Text}
use deckle.Fetch.Pool.{
  working, stored, left, Worker, started, holds, held, Step, acquire, store, leave, Reach, here,
  next,
}

held-append : {A : Type 0} → (us vs : List (Worker A)) → held (us ++ vs) ≡ held us + held vs
held-append [] vs = omega arith
held-append (w ∷ us) vs = omega (arith, held-append us vs)

held-started :
    {A : Type 0} → (process : Text → Option A) (urls : List Text) → held (started process urls) ≡ 0
held-started process [] = refl
held-started process (url ∷ urls) = omega (arith, held-started process urls)

Step-held :
    {A : Type 0} → {n : ℕ} {us vs : List (Worker A)} → Step n us vs → held us ≤ n → held vs ≤ n
Step-held (acquire before after w p h) le = omega (
  arith,
  held-append before (w ∷ after),
  held-append before (record w { phase = working } ∷ after),
  ap holds p,
)
Step-held (store before after w p) le = omega (
  arith,
  held-append before (w ∷ after),
  held-append before (record w { phase = stored; slot = w.outcome } ∷ after),
  ap holds p,
)
Step-held (leave before after w p) le = omega (
  arith,
  held-append before (w ∷ after),
  held-append before (record w { phase = left } ∷ after),
  ap holds p,
)

-- However the goroutines are scheduled, at most `concurrency` of them are between taking and giving
-- back their place.
pub held-le :
    {A : Type 0}
    → (process : Text → Option A) (urls : List Text) (concurrency : ℕ) (ws : List (Worker A))
    → Reach concurrency (started process urls) ws
    → held ws ≤ concurrency
held-le process urls n ws here = omega (arith, held-started process urls)
held-le process urls n ws (next {us} r s) = Step-held s (held-le process urls n us r)
