-- ===== src/Http/Limit.antt =====
-- One byte more than the limit is enough to tell which bodies are too long.
use deckle.Base.{
  Option, ◌==◌, ℕ, zero, suc, ◌+◌, ◌≤◌, ◌<◌, ◌||◌, none, some, [], ◌∷◌, ◌≡◌, refl, ap, arith, ltb,
  length, take, Text, if◌then◌else◌, Bool-cases, inl, inr,
}
use deckle.Cli.Urls.{Reader}
use deckle.Http.{read_all, int_64_end, one_more, limit_reader, check_length, read_limited}

take-short : (n : ℕ) (t : Text) → length t ≤ n → take n t ≡ t
take-short zero [] h = refl
take-short zero (c ∷ t) h = absurd (omega arith)
take-short (suc n) [] h = refl
take-short (suc n) (c ∷ t) h = ap (◌∷◌ c) (take-short n t (omega arith))

length-take : (n : ℕ) (t : Text) → n ≤ length t → length (take n t) ≡ n
length-take zero t h = refl
length-take (suc n) [] h = absurd (omega arith)
length-take (suc n) (c ∷ t) h = ap suc (length-take n t (omega arith))

-- With a positive limit whose successor is an `int64`, `readLimited` gives the whole body if the
-- reader does not fail and the body is not longer than the limit, and an error otherwise.
pub read_limited_lem :
    (r : Reader) (limit : ℕ)
    → 0 < limit
    → limit + 1 < int_64_end
    → read_limited r limit
      ≡ (if r.fails || ltb limit (length r.content) then none else some r.content)
unfolding read_limited read_all limit_reader one_more check_length
read_limited_lem r limit pos small = elim (Bool-cases (ltb limit (length r.content))) [
  | inl long ↦ ground (arith, length-take (limit + 1) r.content)
  | inr short ↦ ground (arith, take-short (limit + 1) r.content)
]

-- With the largest `int64` as the limit, `limit+1` is negative, and nothing is read of any body.
pub read_limited_overflow :
    (r : Reader) (limit : ℕ) → limit + 1 ≡ int_64_end → read_limited r limit ≡ some []
unfolding read_limited read_all limit_reader one_more check_length
read_limited_overflow r limit end = ground arith

-- What `readLimited` means to give: everything without a limit, and otherwise the whole body if the
-- reader does not fail and the body is not longer than the limit
abbrev pub whole_within : Reader → ℕ → Option Text
whole_within r limit =
    if limit == 0
    then read_all r
    else if r.fails || ltb limit (length r.content)
    then none
    else some r.content

-- For each limit whose successor is an `int64`, also for none, `readLimited` gives the whole body or
-- an error, as it is meant to; with the largest `int64` it gives no error and nothing of the body.
pub read_limited-whole_within :
    (r : Reader) (limit : ℕ)
    → limit < int_64_end
    → read_limited r limit ≡ (if limit + 1 == int_64_end then some [] else whole_within r limit)
unfolding read_limited
read_limited-whole_within r limit small = elim (Bool-cases (limit + 1 == int_64_end)) [
  | inl end ↦ rw end (read_limited_overflow r limit (ground arith))
  | inr other ↦ ground (arith, read_limited_lem r limit)
]
