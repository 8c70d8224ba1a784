-- ===== src/Fetch/Order.antt =====
-- Whatever the schedule, the articles come out in the order of the URLs.
use deckle.Base.{ℕ, Option, none, List, [], ◌∷◌, ◌++◌, map, ◌≡◌, refl, ap, ◌∙◌, arith, Text, All}
use deckle.Fetch.Pool.{
  Phase, waiting, working, stored, left, Worker, started, Step, acquire, store, leave, Reach, here,
  next, IsDone, gather, successes,
}

-- What a slot holds in each phase.
abbrev expected : {A : Type 0} → Phase → Option A → Option A
expected waiting o = none
expected working o = none
expected stored o = o
expected left o = o

abbrev Consistent : {A : Type 0} → List (Worker A) → Type 0
Consistent = All (λ w. w.slot ≡ expected w.phase w.outcome)

abbrev outcomes : {A : Type 0} → List (Worker A) → List (Option A)
outcomes = map (λ w. w.outcome)

-- One worker changes in the middle of the list.
Consistent-set :
    {A : Type 0}
    → (before after : List (Worker A)) (w w' : Worker A) → w'.slot ≡ expected w'.phase w'.outcome
    → Consistent (before ++ w ∷ after)
    → Consistent (before ++ w' ∷ after)
Consistent-set [] after w w' h c = (h, c.1)
Consistent-set (u ∷ before) after w w' h c = (c.0, Consistent-set before after w w' h c.1)

Consistent-at :
    {A : Type 0}
    → (before after : List (Worker A)) (w : Worker A) → Consistent (before ++ w ∷ after)
    → w.slot ≡ expected w.phase w.outcome
Consistent-at [] after w c = c.0
Consistent-at (u ∷ before) after w c = Consistent-at before after w c.1

outcomes-set :
    {A : Type 0}
    → (before after : List (Worker A)) (w w' : Worker A) → w'.outcome ≡ w.outcome
    → outcomes (before ++ w' ∷ after) ≡ outcomes (before ++ w ∷ after)
outcomes-set [] after w w' h = ap (λ o. o ∷ outcomes after) h
outcomes-set (u ∷ before) after w w' h = ap (◌∷◌ u.outcome) (outcomes-set before after w w' h)

Step-Consistent :
    {A : Type 0} → {n : ℕ} {us vs : List (Worker A)} → Step n us vs → Consistent us → Consistent vs
Step-Consistent (acquire before after w p h) c =
    Consistent-set before after w (record w { phase = working })
      (ground (arith, Consistent-at before after w c)) c
Step-Consistent (store before after w p) c =
    Consistent-set before after w (record w { phase = stored; slot = w.outcome }) refl c
Step-Consistent (leave before after w p) c =
    Consistent-set before after w (record w { phase = left })
      (ground (arith, Consistent-at before after w c)) c

Step-outcomes :
    {A : Type 0} → {n : ℕ} {us vs : List (Worker A)} → Step n us vs → outcomes vs ≡ outcomes us
Step-outcomes (acquire before after w p h) =
    outcomes-set before after w (record w { phase = working }) refl
Step-outcomes (store before after w p) =
    outcomes-set before after w (record w { phase = stored; slot = w.outcome }) refl
Step-outcomes (leave before after w p) =
    outcomes-set before after w (record w { phase = left }) refl

started-Consistent :
    {A : Type 0}
    → (process : Text → Option A) (urls : List Text) → Consistent (started process urls)
started-Consistent process [] = tt
started-Consistent process (url ∷ urls) = (refl, started-Consistent process urls)

outcomes-started :
    {A : Type 0}
    → (process : Text → Option A) (urls : List Text)
    → outcomes (started process urls) ≡ map process urls
outcomes-started process [] = refl
outcomes-started process (url ∷ urls) = ap (◌∷◌ (process url)) (outcomes-started process urls)

Reach-Consistent :
    {A : Type 0} → {n : ℕ} {us vs : List (Worker A)} → Consistent us → Reach n us vs → Consistent vs
Reach-Consistent c here = c
Reach-Consistent c (next r s) = Step-Consistent s (Reach-Consistent c r)

Reach-outcomes :
    {A : Type 0} → {n : ℕ} {us vs : List (Worker A)} → Reach n us vs → outcomes vs ≡ outcomes us
Reach-outcomes here = refl
Reach-outcomes (next r s) = Step-outcomes s ∙ Reach-outcomes r

gather-successes :
    {A : Type 0}
    → (process : Text → Option A) (ws : List (Worker A)) (urls : List Text) → Consistent ws
    → IsDone ws
    → outcomes ws ≡ map process urls
    → gather ws ≡ successes process urls
unfolding gather successes
gather-successes process [] [] c d e = refl
gather-successes process [] (url ∷ urls) c d e = cc
gather-successes process (w ∷ ws) [] c d e = cc
gather-successes process (w ∷ ws) (url ∷ urls) c d e =
    ground (arith, gather-successes process ws urls)

-- Once all goroutines have left, however they were scheduled, the articles are those of the URLs
-- that `processURL` succeeds on, in the order of the URLs.
pub gather-Reach :
    {A : Type 0}
    → (process : Text → Option A) (urls : List Text) (concurrency : ℕ) (ws : List (Worker A))
    → Reach concurrency (started process urls) ws
    → IsDone ws
    → gather ws ≡ successes process urls
gather-Reach process urls n ws r d =
    gather-successes process ws urls (Reach-Consistent (started-Consistent process urls) r) d
      (Reach-outcomes r ∙ outcomes-started process urls)

slots-outcomes :
    {A : Type 0}
    → (ws : List (Worker A)) → Consistent ws
    → IsDone ws
    → map (λ w. w.slot) ws ≡ outcomes ws
slots-outcomes [] c d = refl
slots-outcomes (w ∷ ws) c d =
    let filled : w.slot ≡ w.outcome = c.0 ∙ ap (λ p. expected p w.outcome) d.0 in
    ap (λ o. o ∷ map (λ v. v.slot) ws) filled ∙ ap (◌∷◌ w.outcome) (slots-outcomes ws c.1 d.1)

-- The slots then hold what the goroutines have got, one for one.
pub slots-Reach :
    {A : Type 0}
    → (process : Text → Option A) (urls : List Text) (concurrency : ℕ) (ws : List (Worker A))
    → Reach concurrency (started process urls) ws
    → IsDone ws
    → map (λ w. w.slot) ws ≡ map process urls
slots-Reach process urls n ws r d =
    slots-outcomes ws (Reach-Consistent (started-Consistent process urls) r) d
    ∙ (Reach-outcomes r ∙ outcomes-started process urls)
