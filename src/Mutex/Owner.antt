-- ===== src/Mutex/Owner.antt =====
-- Possession of the lock: what a step may do to it, and that at most one task keeps it.
use cothread.Prelude.{
  ℕ, ◌≡◌, refl, sym, ap, ◌∙◌, ◌≢◌, ◌⊎◌, inl, inr, Bool, true, false, arith, ℕ_discrete, update,
  update_self, update_ne,
}
use cothread.Mutex.{
  Phase, outside, fast, prepares, loops, loaded, noted, rechecked, waits, enters, sleeping, woken,
  owns, canceled, unqueued, skips, releases, wakes, reads_value, sets_value, calls_wake, counts_out,
  awaits, marks, retries, unmarks, suspends, queued, Mutex,
}

-- A task that has the lock: in the critical section, or in unlock before it clears LOCKED.
abbrev pub has_lock : Phase → Bool
has_lock outside = false
has_lock fast = false
has_lock prepares = false
has_lock loops = false
has_lock (loaded w) = false
has_lock noted = false
has_lock (rechecked w) = false
has_lock waits = false
has_lock (enters v) = false
has_lock sleeping = false
has_lock woken = false
has_lock owns = true
has_lock canceled = false
has_lock unqueued = true
has_lock skips = true
has_lock releases = true
has_lock wakes = false
has_lock reads_value = false
has_lock (sets_value v) = false
has_lock calls_wake = false
has_lock counts_out = false
has_lock awaits = false
has_lock marks = false
has_lock retries = false
has_lock unmarks = true
has_lock suspends = false
has_lock queued = false

owns≢canceled : owns ≢ canceled
owns≢canceled = ground arith

pub outside≢canceled : outside ≢ canceled
outside≢canceled = ground arith

pub false≢true : false ≢ true
false≢true = ground arith

-- A step as far as possession goes, while no Wait returns ECANCELED.
pub data Change : Mutex → Mutex → Type 0 where
  keeps :
      (m n : Mutex) (t : ℕ) (p : Phase)
      → n.phase ≡ update m.phase t p
      → n.word.locked ≡ m.word.locked
      → has_lock p ≡ has_lock (m.phase t)
      → p ≢ canceled
      → Change m n
  acquires :
      (m n : Mutex) (t : ℕ) (p : Phase)
      → n.phase ≡ update m.phase t p
      → m.word.locked ≡ false
      → n.word.locked ≡ true
      → p ≢ canceled
      → Change m n
  gives_up :
      (m n : Mutex) (t : ℕ) (p : Phase)
      → n.phase ≡ update m.phase t p
      → has_lock (m.phase t) ≡ true
      → has_lock p ≡ false
      → p ≢ canceled
      → Change m n
  hands :
      (m n : Mutex) (t w : ℕ)
      → n.phase ≡ update (update m.phase t outside) w owns
      → has_lock (m.phase t) ≡ true
      → n.word.locked ≡ m.word.locked
      → Change m n
  both : (m n o : Mutex) → Change m n → Change n o → Change m o

pub record Exclusive (m : Mutex) : Type 0 where
  pub one : (t u : ℕ) → has_lock (m.phase t) ≡ true → has_lock (m.phase u) ≡ true → t ≡ u
  pub locked : (t : ℕ) → has_lock (m.phase t) ≡ true → m.word.locked ≡ true
  pub not_canceled : (t : ℕ) → m.phase t ≢ canceled

-- The place of each task after a change of one.
module _ (f g : ℕ → Phase) (t : ℕ) (p : Phase) (e : g ≡ update f t p) where
  there : g t ≡ p
  there = ap (λ h. h t) e ∙ update_self f t p

  elsewhere : (u : ℕ) → t ≢ u → g u ≡ f u
  elsewhere u h = ap (λ k. k u) e ∙ update_ne f t u p h

  -- A task that has the lock afterwards is the changed one or had it before.
  holder_after :
      (u : ℕ)
      → has_lock (g u) ≡ true
      → ((t ≡ u) × (has_lock p ≡ true)) ⊎ ((t ≢ u) × (has_lock (f u) ≡ true))
  holder_after u h = elim (ℕ_discrete t u) [
    | yes s ↦ inl (s, ap has_lock (sym there ∙ ap g s) ∙ h)
    | no d ↦ inr (d, ap has_lock (sym (elsewhere u d)) ∙ h)
  ]

  canceled_after : p ≢ canceled → ((u : ℕ) → f u ≢ canceled) → (u : ℕ) → g u ≢ canceled
  canceled_after c v u h = elim (ℕ_discrete t u) [
    | yes s ↦ c (sym there ∙ ap g s ∙ h)
    | no d ↦ v u (sym (elsewhere u d) ∙ h)
  ]

pub Change-Exclusive : (m n : Mutex) → Change m n → Exclusive m → Exclusive n
Change-Exclusive m n (keeps _ _ t p e l h c) v = record {
  one = λ a b x y. v.one a b (had a x) (had b y);
  locked = λ a x. l ∙ v.locked a (had a x);
  not_canceled = canceled_after m.phase n.phase t p e c v.not_canceled;
}
  where
    had : (u : ℕ) → has_lock (n.phase u) ≡ true → has_lock (m.phase u) ≡ true
    had u x = elim (holder_after m.phase n.phase t p e u x) [
      | inl (s, y) ↦ ap (λ z. has_lock (m.phase z)) (sym s) ∙ sym h ∙ y
      | inr (d, y) ↦ y
    ]
Change-Exclusive m n (acquires _ _ t p e l l' c) v = record {
  one = λ a b x y. sym (only a x) ∙ only b y;
  locked = λ a x. l';
  not_canceled = canceled_after m.phase n.phase t p e c v.not_canceled;
}
  where
    only : (u : ℕ) → has_lock (n.phase u) ≡ true → t ≡ u
    only u x = elim (holder_after m.phase n.phase t p e u x) [
      | inl (s, y) ↦ s
      | inr (d, y) ↦ absurd (false≢true (sym l ∙ v.locked u y))
    ]
Change-Exclusive m n (gives_up _ _ t p e h h' c) v = record {
  one = λ a b x y. absurd (nobody a x);
  locked = λ a x. absurd (nobody a x);
  not_canceled = canceled_after m.phase n.phase t p e c v.not_canceled;
}
  where
    nobody : (u : ℕ) → has_lock (n.phase u) ≡ true → ⊥
    nobody u x = elim (holder_after m.phase n.phase t p e u x) [
      | inl (s, y) ↦ false≢true (sym h' ∙ y)
      | inr (d, y) ↦ d (v.one t u h y)
    ]
Change-Exclusive m n (both _ o _ a b) v = Change-Exclusive o n b (Change-Exclusive m o a v)
Change-Exclusive m n (hands _ _ t w e h l) v = record {
  one = λ a b x y. sym (only a x) ∙ only b y;
  locked = λ a x. l ∙ v.locked t h;
  not_canceled = canceled_after (update m.phase t outside) n.phase w owns e owns≢canceled (
      canceled_after m.phase (update m.phase t outside) t outside refl outside≢canceled
        v.not_canceled);
}
  where
    only : (u : ℕ) → has_lock (n.phase u) ≡ true → w ≡ u
    only u x = elim (holder_after (update m.phase t outside) n.phase w owns e u x) [
      | inl (s, y) ↦ s
      | inr (d, y) ↦ elim (holder_after m.phase (update m.phase t outside) t outside refl u y) [
        | inl (s, z) ↦ absurd (false≢true z)
        | inr (g, z) ↦ absurd (g (v.one t u h z))
      ]
    ]
