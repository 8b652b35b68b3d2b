-- ===== src/Coroutines/Sleep.antt =====
-- The queue of sleepers is sorted, and a pass wakes those whose time has come.
use cothread.Prelude.{
  ℕ, ◌≤◌, ◌<◌, ◌≡◌, refl, inl, inr, Bool, not, ◌&&◌, List, [], ◌∷◌, arith, ltb, leb, tests,
  Bool-cases, tally,
}
use cothread.Coroutines.{Sleeper, emplace, wake_due}

-- No sleeper wakes before the one in front of it, nor before the bound.
abbrev pub Sorted : ℕ → List Sleeper → Type 0
Sorted b [] = Unit
Sorted b (s ∷ xs) = (b ≤ s.wake_time) × Sorted s.wake_time xs

-- A coroutine that goes to sleep is in the queue once more, and the queue stays sorted.
emplace-Sorted :
    (b : ℕ) (s : Sleeper) (xs : List Sleeper)
    → b ≤ s.wake_time
    → Sorted b xs
    → Sorted b (emplace s xs) × ((p : Sleeper → Bool) → tally p (emplace s xs) ≡ tally p (s ∷ xs))
unfolding emplace tally
emplace-Sorted b s [] h v = ((h, tt), λ p. refl)
emplace-Sorted b s (x ∷ xs) h v = elim (Bool-cases (ltb s.wake_time x.wake_time)) [
  | inl before ↦ rw before ((h, (omega tests, v.1)), λ p. refl)
  | inr after ↦
      let (sorted, same) = emplace-Sorted x.wake_time s xs (omega tests) v.1 in
      rw after ((v.0, sorted), λ p. omega (arith, same p))
]

abbrev pub is_due : ℕ → Sleeper → Bool
is_due now s = leb s.wake_time now

late_from :
    (now b : ℕ) (xs : List Sleeper) (p : Sleeper → Bool)
    → now < b
    → Sorted b xs
    → (tally (λ s. p s && is_due now s) xs ≡ 0)
      × (tally (λ s. p s && not (is_due now s)) xs ≡ tally p xs)
unfolding tally
late_from now b [] p h v = (refl, refl)
late_from now b (x ∷ xs) p h v = ground (arith, late_from now x.wake_time xs p (omega arith) v.1)

-- A pass over a sorted queue wakes the coroutines whose time has come, each as often as it slept and in
-- the order of their times, and leaves the others, sorted.
wake_due-exact :
    (now b : ℕ) (xs : List Sleeper)
    → Sorted b xs
    → Sorted b (wake_due now xs).0
      × Sorted b (wake_due now xs).1
      × ((p : Sleeper → Bool)
          → (tally p (wake_due now xs).0 ≡ tally (λ s. p s && is_due now s) xs)
            × (tally p (wake_due now xs).1 ≡ tally (λ s. p s && not (is_due now s)) xs))
unfolding wake_due tally
wake_due-exact now b [] v = (tt, tt, λ p. (refl, refl))
wake_due-exact now b (x ∷ xs) v = elim (Bool-cases (leb x.wake_time now)) [
  | inl due ↦
      let (woken, later, same) = wake_due-exact now x.wake_time xs v.1 in
      rw due ((v.0, woken), weaken b x.wake_time _ v.0 later, λ p. ground (arith, same p))
  | inr late ↦
      rw late (tt, v, λ p. ground (arith, late_from now x.wake_time xs p (omega tests) v.1))
]
  where
    weaken : (b c : ℕ) (ys : List Sleeper) → b ≤ c → Sorted c ys → Sorted b ys
    weaken b c [] h w = tt
    weaken b c (y ∷ ys) h w = (omega arith, w.1)
