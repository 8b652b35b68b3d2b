-- ===== src/ObjectPool/Stack.antt =====
-- The pool is a stack of different objects, no more than `max_size`.
use cothread.Prelude.{
  ℕ, suc, ◌^◌, ◌≤◌, ◌<◌, ◌≡◌, refl, ◌⊎◌, inl, inr, none, some, List, [], ◌∷◌, arith, leb, tests,
  Bool-cases, length, All, Fresh, Distinct, update_self, Chain, Chain-update,
}
use cothread.ObjectPool.{ObjectPool, init, acquire, release, size}

-- `free` are the cached objects, the last one released first.
pub record Holds (p : ObjectPool) (free : List ℕ) : Type 0 where
  pub chain : Chain p.pool_next p.head free
  pub distinct : Distinct free
  pub counted : p.count ≡ length free
  pub within : length free ≤ p.max_size
  pub made : All (λ a. a < p.fresh) free
  pub word : p.max_size < 2 ^ 64

pub init-Holds : (max_size : ℕ) → max_size < 2 ^ 64 → Holds (init max_size) []
unfolding init
init-Holds m h = record {
  chain = refl;
  distinct = tt;
  counted = refl;
  within = omega arith;
  made = tt;
  word = h;
}

made-Fresh : (n : ℕ) (xs : List ℕ) → All (λ a. a < n) xs → Fresh n xs
made-Fresh n [] a = tt
made-Fresh n (x ∷ xs) a = (omega arith, made-Fresh n xs a.1)

made-suc : (n : ℕ) (xs : List ℕ) → All (λ a. a < n) xs → All (λ a. a < suc n) xs
made-suc n [] a = tt
made-suc n (x ∷ xs) a = (omega arith, made-suc n xs a.1)

-- What an acquire gives: the last object released, or one that was never handed out before.
abbrev pub Acquires : ObjectPool → List ℕ → ℕ × ObjectPool → Type 0
Acquires p [] r = (r.0 ≡ p.fresh) × Holds r.1 [] × (r.1.fresh ≡ suc p.fresh)
Acquires p (x ∷ free) r = (r.0 ≡ x) × Holds r.1 free × (r.1.fresh ≡ p.fresh)

-- An acquire gives the last object released, or a new one, and leaves the others cached.
pub acquire-Acquires : (p : ObjectPool) (free : List ℕ) → Holds p free → Acquires p free (acquire p)
unfolding acquire
acquire-Acquires p [] v =
    rw (v.chain, acquire)
      (
        refl,
        record {
          chain = v.chain;
          distinct = tt;
          counted = v.counted;
          within = v.within;
          made = tt;
          word = v.word;
        },
        refl,
      )
acquire-Acquires p (x ∷ free) v =
    rw (v.chain.0, acquire)
      (
        refl,
        record {
          chain = Chain-update p.pool_next (p.pool_next x) x none free v.distinct.0 v.chain.1;
          distinct = v.distinct.1;
          counted = omega (arith, v.counted, v.within, v.word);
          within = omega (arith, v.within);
          made = v.made.1;
          word = v.word;
        },
        refl,
      )

-- A released object that is not cached yet goes on top, unless the pool is full: then it is deleted
-- and the pool stays as it was.
pub release-Holds :
    (p : ObjectPool) (free : List ℕ) (obj : ℕ)
    → Holds p free
    → Fresh obj free
    → obj < p.fresh
    → ((length free < p.max_size) × Holds (release (some obj) p) (obj ∷ free))
      ⊎ ((length free ≡ p.max_size) × (release (some obj) p ≡ p))
unfolding release
release-Holds p free obj v f h = elim (Bool-cases (leb p.max_size p.count)) [
  | inl full ↦ inr (omega (tests, v.counted, v.within), rw full)
  | inr room ↦ inl (
    omega (tests, v.counted),
    rw room (record {
      chain = (
        refl,
        rw (update_self p.pool_next obj p.head)
            (Chain-update p.pool_next p.head obj p.head free f v.chain),
      );
      distinct = (f, v.distinct);
      counted = omega (tests, v.counted, v.within, v.word);
      within = omega (tests, v.counted);
      made = (h, v.made);
      word = v.word;
    }),
  )
]

-- The next acquire gives back the object released last, when the pool had room for it.
acquire-release :
    (p : ObjectPool) (free : List ℕ) (obj : ℕ)
    → Holds p free
    → Fresh obj free
    → obj < p.fresh
    → length free < p.max_size
    → ((acquire (release (some obj) p)).0 ≡ obj)
      × Holds (acquire (release (some obj) p)).1 free
      × (size (acquire (release (some obj) p)).1 ≡ size p)
unfolding size
acquire-release p free obj v f h r = elim (release-Holds p free obj v f h) [
  | inl (_, w) ↦
      let a = acquire-Acquires (release (some obj) p) (obj ∷ free) w in
      (a.0, a.1, omega (arith, a.1.counted, v.counted))
  | inr (full, _) ↦ absurd (omega arith)
]
