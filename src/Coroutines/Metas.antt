-- ===== src/Coroutines/Metas.antt =====
-- Which meta an allocation gives.
use cothread.Prelude.{
  ℕ, zero, suc, ◌≤◌, ◌<◌, ◌≡◌, refl, ◌≢◌, inl, inr, true, false, none, List, [], ◌∷◌, arith,
  Bool-cases, length, get_or,
}
use cothread.Task.{TaskState}
use cothread.Coroutines.{CoroutineMeta, new_meta, is_reusable, reset_meta, alloc_meta}

abbrev pub meta_at : List CoroutineMeta → ℕ → CoroutineMeta
meta_at metas i = get_or metas i new_meta

-- The meta `i` was reusable or is a new one at the end; it is ready and not cancelled; the others are
-- as they were.
pub record Gives (metas : List CoroutineMeta) (i : ℕ) (after : List CoroutineMeta) : Type 0 where
  pub was_free : (is_reusable (meta_at metas i) ≡ true) × (i ≤ length metas)
  pub inside : i < length after
  pub is_ready : (meta_at after i).state ≡ TaskState.ready
  pub uncancelled : (meta_at after i).cancel_requested ≡ false
  pub others : (j : ℕ) → j ≢ i → meta_at after j ≡ meta_at metas j

others_cons :
    (m : CoroutineMeta) (i : ℕ) (a b : List CoroutineMeta)
    → ((j : ℕ) → j ≢ i → meta_at a j ≡ meta_at b j)
    → (j : ℕ) → j ≢ suc i
    → meta_at (m ∷ a) j ≡ meta_at (m ∷ b) j
unfolding get_or
others_cons m i a b h zero ne = refl
others_cons m i a b h (suc j) ne = h j (omega arith)

others_head :
    (m n : CoroutineMeta) (a : List CoroutineMeta) (j : ℕ)
    → j ≢ 0
    → meta_at (m ∷ a) j ≡ meta_at (n ∷ a) j
unfolding get_or
others_head m n a zero ne = absurd (ne refl)
others_head m n a (suc j) ne = refl

others_new : (j : ℕ) → j ≢ 0 → meta_at (new_meta ∷ []) j ≡ meta_at [] j
unfolding get_or
others_new zero ne = absurd (ne refl)
others_new (suc j) ne = refl

-- An allocation gives a meta that no coroutine holds, ready and not cancelled, and leaves every other
-- meta as it is. A meta whose handle is not set counts as one that no coroutine holds.
alloc_meta-Gives :
    (metas : List CoroutineMeta) → Gives metas (alloc_meta metas).0 (alloc_meta metas).1
unfolding alloc_meta get_or
alloc_meta-Gives [] = record {
  was_free = (refl, omega arith);
  inside = omega arith;
  is_ready = refl;
  uncancelled = refl;
  others = others_new;
}
alloc_meta-Gives (m ∷ metas) = elim (Bool-cases (is_reusable m)) [
  | inl free ↦ rw free (record {
    was_free = (free, omega arith);
    inside = omega arith;
    is_ready = refl;
    uncancelled = refl;
    others = others_head (reset_meta m) m metas;
  })
  | inr held ↦
      let g = alloc_meta-Gives metas in
      rw held (record {
        was_free = (g.was_free.0, omega (arith, g.was_free.1));
        inside = omega (arith, g.inside);
        is_ready = g.is_ready;
        uncancelled = g.uncancelled;
        others = others_cons m (alloc_meta metas).0 (alloc_meta metas).1 metas g.others;
      })
]

-- Until its handle is set, the meta given is given again by the next allocation: two callers can get the
-- same one.
alloc_meta-again :
    (metas : List CoroutineMeta)
    → (meta_at (alloc_meta metas).1 (alloc_meta metas).0).handle ≡ none
    → (alloc_meta (alloc_meta metas).1).0 ≡ (alloc_meta metas).0
unfolding alloc_meta get_or
alloc_meta-again [] h = refl
alloc_meta-again (m ∷ metas) h = elim (Bool-cases (is_reusable m)) [
  | inl free ↦ ground (arith, free, h)
  | inr held ↦ let ih = alloc_meta-again metas (rw held at h) in rw held (ground (arith, held, ih))
]
