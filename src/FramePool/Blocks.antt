-- ===== src/FramePool/Blocks.antt =====
-- Which blocks are free, and which are handed out.
use cothread.Prelude.{
  ℕ, suc, ◌+◌, ◌<◌, ◌≡◌, refl, sym, ◌⊎◌, inl, inr, true, false, ◌||◌, Option, none, some, List, [],
  ◌∷◌, ◌++◌, arith, ltb, ◌==◌, Bool-cases, Option-cases, length, length-append, All, Fresh,
  Distinct, update_self, Chain, Chain-update,
}
use cothread.FramePool.{FramePool, deallocate, expand, allocate}

-- `free` are the free blocks, in order, and `used` the ones handed out: all different, and together as
-- many as the pool has allocated.
pub record Holds (p : FramePool) (free used : List ℕ) : Type 0 where
  pub chain : Chain p.next p.free_list free
  pub distinct : Distinct free
  pub apart : All (λ b. Fresh b free) used
  pub separate : Distinct used
  pub counted : length p.allocated_blocks ≡ length free + length used

-- What an allocation gives: nothing, and the blocks are as they were; the first free block; or, when no
-- block is free, one more from malloc.
pub data Gives (malloc : ℕ → Option ℕ) (size : ℕ) (p : FramePool) (used : List ℕ)
    : List ℕ → Option ℕ × FramePool → Type 0 where
  heap :
      {free : List ℕ}
      → (p.block_size < size) ⊎ (p.block_size ≡ 0)
      → Gives malloc size p used free (none, p)
  reused :
      (b : ℕ) (free : List ℕ) (q : FramePool)
      → Holds q free (b ∷ used)
      → Gives malloc size p used (b ∷ free) (some b, q)
  fresh :
      (b : ℕ) (q : FramePool)
      → malloc p.calls ≡ some b
      → Holds q [] (b ∷ used)
      → Gives malloc size p used [] (some b, q)
  refused :
      (q : FramePool)
      → malloc p.calls ≡ none
      → Holds q [] used
      → Gives malloc size p used [] (none, q)

Fresh-All :
    (x : ℕ) (free used : List ℕ)
    → All (λ b. Fresh b (x ∷ free)) used
    → Fresh x used × All (λ b. Fresh b free) used
Fresh-All x free [] a = (tt, tt)
Fresh-All x free (u ∷ used) a =
    let (f, r) = Fresh-All x free used a.1 in ((λ e. a.0.0 (sym e), f), (a.0.1, r))

none_free : (used : List ℕ) → All (λ b. Fresh b []) used
none_free [] = tt
none_free (u ∷ used) = (tt, none_free used)

allocate_heap :
    (malloc : ℕ → Option ℕ) (size : ℕ) (p : FramePool)
    → (ltb p.block_size size || p.block_size == 0) ≡ true
    → (allocate malloc size p ≡ (none, p)) × ((p.block_size < size) ⊎ (p.block_size ≡ 0))
unfolding allocate
allocate_heap malloc size p h = (rw h refl, ground arith)

allocate_reused :
    (malloc : ℕ → Option ℕ) (size : ℕ) (p : FramePool) (b : ℕ)
    → (ltb p.block_size size || p.block_size == 0) ≡ false
    → p.free_list ≡ some b
    → allocate malloc size p ≡ (some b, record p { free_list = p.next b })
unfolding allocate
allocate_reused malloc size p b h e = ground arith

allocate-expand :
    (malloc : ℕ → Option ℕ) (size : ℕ) (p : FramePool)
    → (ltb p.block_size size || p.block_size == 0) ≡ false
    → p.free_list ≡ none
    → allocate malloc size p ≡ expand malloc p
unfolding allocate
allocate-expand malloc size p h e = ground arith

expand-none :
    (malloc : ℕ → Option ℕ) (p : FramePool)
    → malloc p.calls ≡ none
    → expand malloc p ≡ (none, record p { calls = suc p.calls })
unfolding expand
expand-none malloc p e = ground arith

expand-some :
    (malloc : ℕ → Option ℕ) (p : FramePool) (b : ℕ)
    → malloc p.calls ≡ some b
    → expand malloc p
      ≡ (some b, record p { calls = suc p.calls; allocated_blocks = p.allocated_blocks ++ b ∷ [] })
unfolding expand
expand-some malloc p b e = ground arith

-- With an allocator that gives no block that is handed out, an allocation gives what it should: no
-- block is handed out twice, and the blocks in use stay so.
allocate-Gives :
    (malloc : ℕ → Option ℕ) (size : ℕ) (p : FramePool) (free used : List ℕ)
    → Holds p free used
    → ((b : ℕ) → malloc p.calls ≡ some b → Fresh b used)
    → Gives malloc size p used free (allocate malloc size p)
allocate-Gives malloc size p free used v new =
    elim (Bool-cases (ltb p.block_size size || p.block_size == 0)) [
      | inl large ↦ let (same, why) = allocate_heap malloc size p large in rw same (heap why)
      | inr fits ↦ give free v fits
    ]
  where
    give :
        (free : List ℕ)
        → Holds p free used
        → (ltb p.block_size size || p.block_size == 0) ≡ false
        → Gives malloc size p used free (allocate malloc size p)
    give (b ∷ rest) v fits =
        let (f, r) = Fresh-All b rest used v.apart in
        rw (allocate_reused malloc size p b fits v.chain.0) (
          reused b rest _ (record {
            chain = v.chain.1;
            distinct = v.distinct.1;
            apart = (v.distinct.0, r);
            separate = (f, v.separate);
            counted = omega (arith, v.counted);
          }))
    give [] v fits = elim (Option-cases (malloc p.calls)) [
      | inl gone ↦
          rw (allocate-expand malloc size p fits v.chain, expand-none malloc p gone)
            (refused _ gone (record {
              chain = v.chain;
              distinct = tt;
              apart = none_free used;
              separate = v.separate;
              counted = v.counted;
            }))
      | inr (b, got) ↦
          rw (allocate-expand malloc size p fits v.chain, expand-some malloc p b got)
            (fresh b _ got (record {
              chain = v.chain;
              distinct = tt;
              apart = (tt, none_free used);
              separate = (new b got, v.separate);
              counted = omega (arith, length-append p.allocated_blocks (b ∷ []), v.counted);
            }))
    ]

-- A block given back is the first free one again.
deallocate-frees :
    (p : FramePool) (free used : List ℕ) (b : ℕ)
    → Holds p free (b ∷ used)
    → Holds (deallocate (some b) p) (b ∷ free) used
unfolding deallocate
deallocate-frees p free used b v = record {
  chain = (
    refl,
    rw (update_self p.next b p.free_list)
        (Chain-update p.next p.free_list b p.free_list free v.apart.0 v.chain),
  );
  distinct = (v.apart.0, v.distinct);
  apart = still_apart used v.separate.0 v.apart.1;
  separate = v.separate.1;
  counted = omega (arith, v.counted);
}
  where
    still_apart :
        (us : List ℕ) → Fresh b us → All (λ u. Fresh u free) us → All (λ u. Fresh u (b ∷ free)) us
    still_apart [] f a = tt
    still_apart (u ∷ us) f a = ((λ e. f.0 (sym e), a.0), still_apart us f.1 a.1)
