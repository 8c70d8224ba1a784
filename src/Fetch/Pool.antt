-- ===== src/Fetch/Pool.antt =====
-- The goroutines as a step relation. A goroutine waits at `sem <- struct{}{}`, works on its URL,
-- has stored its result (or nothing, on an error), and has left, after `<-sem` and `wg.Done()`.
use deckle.Base.{ℕ, ◌+◌, ◌<◌, Option, none, some, List, [], ◌∷◌, ◌++◌, map, ◌≡◌, Text, All}

pub data Phase : Type 0 where
  waiting working stored left : Phase

-- A goroutine: where it is, its slot of `results`, and what `processURL` returns to it.
pub record Worker (A : Type 0) : Type 0 where
  pub phase : Phase
  pub slot : Option A
  pub outcome : Option A

abbrev pub start : {A : Type 0} → Option A → Worker A
start o = record { phase = waiting; slot = none; outcome = o }

-- The goroutines that the loop over `urls` starts.
abbrev pub started : {A : Type 0} → (Text → Option A) → List Text → List (Worker A)
started process_url urls = map (λ url. start (process_url url)) urls

-- How many elements the channel `sem` holds.
abbrev pub holds : Phase → ℕ
holds waiting = 0
holds working = 1
holds stored = 1
holds left = 0

abbrev pub held : {A : Type 0} → List (Worker A) → ℕ
held [] = 0
held (w ∷ ws) = holds w.phase + held ws

-- One goroutine moves; the others stay where they are.
pub data Step {A : Type 0} (concurrency : ℕ) : List (Worker A) → List (Worker A) → Type 0 where
  acquire :
      (before after : List (Worker A)) (w : Worker A)
      → w.phase ≡ waiting
      → held (before ++ w ∷ after) < concurrency
      → Step concurrency (before ++ w ∷ after) (before ++ record w { phase = working } ∷ after)
  store :
      (before after : List (Worker A)) (w : Worker A)
      → w.phase ≡ working
      → Step concurrency
          (before ++ w ∷ after)
          (before ++ record w { phase = stored; slot = w.outcome } ∷ after)
  leave :
      (before after : List (Worker A)) (w : Worker A)
      → w.phase ≡ stored
      → Step concurrency (before ++ w ∷ after) (before ++ record w { phase = left } ∷ after)

pub data Reach {A : Type 0} (concurrency : ℕ) (ws : List (Worker A))
    : List (Worker A) → Type 0 where
  here : Reach concurrency ws ws
  next :
      {us vs : List (Worker A)}
      → Reach concurrency ws us
      → Step concurrency us vs
      → Reach concurrency ws vs

-- `wg.Wait()` returns.
abbrev pub IsDone : {A : Type 0} → List (Worker A) → Type 0
IsDone = All (λ w. w.phase ≡ left)

-- The loop that gathers the articles from `results`
unfoldable pub gather : {A : Type 0} → List (Worker A) → List A
gather [] = []
gather (w ∷ ws) = elim (w.slot) [ none ↦ gather ws | some a ↦ a ∷ gather ws ]

-- The articles of the URLs in order, without the failures.
unfoldable pub successes : {A : Type 0} → (Text → Option A) → List Text → List A
successes process_url [] = []
successes process_url (url ∷ urls) = elim (process_url url) [
  | none ↦ successes process_url urls
  | some a ↦ a ∷ successes process_url urls
]
