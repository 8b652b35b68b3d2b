-- ===== src/TaskGroup/Alloc.antt =====
-- Allocation and recycling against the list of free slots.
use cothread.Prelude.{
  ℕ, zero, suc, ◌+◌, ◌^◌, ◌<◌, min, ◌≡◌, refl, sym, ap, ◌≢◌, Option, none, some, List, [], ◌∷◌,
  arith, take, drop, Fresh, take-nil, drop-nil, All-drop, Distinct-drop, update, update_self,
  update_ne, Chain, Chain-update, u32,
}
use cothread.Task.{TaskMeta}
use cothread.TaskGroup.{
  TaskGroup, pool_size, meta_or_new, refresh, alloc_task_meta, collect, alloc_multiple_slots,
  recycle, dealloc_task_meta, encode_id, decode_id,
}
use cothread.TaskGroup.Valid.{IsValid}
use cothread.TaskGroup.Ids.{decode_id-encode_id, decode_id_cong}

-- The TaskMeta that `refresh` stores.
abbrev refreshed : ℕ → TaskGroup → TaskMeta
refreshed slot g = record (meta_or_new (g.task_pool slot)) {
  slot_index = slot;
  generation = g.generations slot;
}

refresh-IsValid :
    (slot : ℕ) (g : TaskGroup) (free : List ℕ) → IsValid g free → IsValid (refresh slot g) free
unfolding refresh
refresh-IsValid slot g free v = record {
  chain = v.chain;
  distinct = v.distinct;
  bounded = v.bounded;
  synced = λ s m p. ground (arith, v.synced s m);
  words = v.words;
}

task_pool-refresh :
    (slot : ℕ) (g : TaskGroup) → (refresh slot g).task_pool slot ≡ some (refreshed slot g)
unfolding refresh
task_pool-refresh slot g = ground arith

generations-refresh : (slot : ℕ) (g : TaskGroup) → (refresh slot g).generations ≡ g.generations
unfolding refresh
generations-refresh slot g = refl

-- The head of the free list taken off.
abbrev pub popped : ℕ → TaskGroup → TaskGroup
popped s g = record g { free_head = g.free_slots s }

popped-IsValid :
    (s : ℕ) (g : TaskGroup) (free : List ℕ) → IsValid g (s ∷ free) → IsValid (popped s g) free
popped-IsValid s g free v = record {
  chain = v.chain.1;
  distinct = v.distinct.1;
  bounded = v.bounded.1;
  synced = v.synced;
  words = v.words;
}

-- What allocation promises: none from an empty free list; otherwise the first free slot, whose id
-- under the present generation is accepted from then on, and the rest stays well formed.
abbrev pub Allocates : TaskGroup → List ℕ → Option (ℕ × TaskGroup) → Type 0
Allocates g [] r = r ≡ none
Allocates g (s ∷ free) r =
    (h : TaskGroup) × (r ≡ some (s, h))
    × IsValid h free
    × (decode_id (encode_id s (g.generations s)) h ≡ some s)
    × (h.generations ≡ g.generations)

-- Allocation in a well-formed group does as it promises, whether a slot is free or not.
pub alloc_task_meta-Allocates :
    (g : TaskGroup) (free : List ℕ) → IsValid g free → Allocates g free (alloc_task_meta g)
unfolding alloc_task_meta
alloc_task_meta-Allocates g [] v = rw v.chain refl
alloc_task_meta-Allocates g (s ∷ free) v = rw (v.chain.0) (
  refresh s (popped s g),
  refl,
  refresh-IsValid s (popped s g) free (popped-IsValid s g free v),
  ground (
    arith,
    decode_id-encode_id (refresh s (popped s g)) s (g.generations s) (refreshed s (popped s g))
        v.bounded.0 (task_pool-refresh s (popped s g)),
  ),
  generations-refresh s (popped s g),
)

-- The group after slot `s`, with the TaskMeta `m`, is recycled.
abbrev pub recycled : ℕ → TaskMeta → TaskGroup → TaskGroup
recycled s m g = record g {
  task_pool = update g.task_pool s (some (recycle (u32 (g.generations s + 1)) m));
  generations = update g.generations s (u32 (g.generations s + 1));
  free_slots = update g.free_slots s g.free_head;
  free_head = some s;
}

pub dealloc_task_meta_lem :
    (g : TaskGroup) (free : List ℕ) (s : ℕ) (m : TaskMeta)
    → IsValid g free
    → g.task_pool s ≡ some m
    → dealloc_task_meta s g ≡ recycled s m g
unfolding dealloc_task_meta
dealloc_task_meta_lem g free s m v e = rw (e, dealloc_task_meta, (v.synced s m e).0) refl

recycled-IsValid :
    (g : TaskGroup) (free : List ℕ) (s : ℕ) (m : TaskMeta)
    → IsValid g free
    → g.task_pool s ≡ some m
    → Fresh s free
    → s < pool_size
    → IsValid (recycled s m g) (s ∷ free)
unfolding recycle
recycled-IsValid g free s m v e f h = record {
  chain = (
    refl,
    rw (update_self g.free_slots s g.free_head)
        (Chain-update g.free_slots g.free_head s g.free_head free f v.chain),
  );
  distinct = (f, v.distinct);
  bounded = (h, v.bounded);
  synced = λ t m' p. ground (arith, v.synced t m', v.synced s m e);
  words = λ t. ground (arith, v.words t);
}

-- Recycling a slot that is in use puts it first on the free list, and its old id is refused from then
-- on.
pub dealloc_task_meta-IsValid :
    (g : TaskGroup) (free : List ℕ) (s : ℕ) (m : TaskMeta)
    → IsValid g free
    → g.task_pool s ≡ some m
    → Fresh s free
    → s < pool_size
    → IsValid (dealloc_task_meta s g) (s ∷ free)
      × (decode_id (encode_id s (g.generations s)) (dealloc_task_meta s g) ≡ none)
unfolding recycle
dealloc_task_meta-IsValid g free s m v e f h = rw (dealloc_task_meta_lem g free s m v e) (
  recycled-IsValid g free s m v e f h,
  ground (
    arith,
    v.words s,
    decode_id-encode_id (recycled s m g) s (g.generations s) (recycle (u32 (g.generations s + 1)) m)
        h (update_self g.task_pool s _),
  ),
)

-- Recycling a slot that is in use leaves the ids of every other slot as they are, accepted or refused.
dealloc_task_meta-keeps_others :
    (g : TaskGroup) (free : List ℕ) (s : ℕ) (m : TaskMeta) (t gen : ℕ)
    → IsValid g free
    → g.task_pool s ≡ some m
    → t ≢ s
    → t < 2 ^ 32
    → decode_id (encode_id t gen) (dealloc_task_meta s g) ≡ decode_id (encode_id t gen) g
dealloc_task_meta-keeps_others g free s m t gen v e p q =
    rw (dealloc_task_meta_lem g free s m v e)
      (decode_id_cong t gen (recycled s m g) g q (update_ne g.task_pool s t _ (λ r. p (sym r))))

-- The walk passes the first `k` entries of the list, and stops at the rest.
collect-take :
    (k : ℕ) (next : ℕ → Option ℕ) (h : Option ℕ) (xs : List ℕ)
    → Chain next h xs
    → ((collect k next h).0 ≡ take k xs) × Chain next (collect k next h).1 (drop k xs)
unfolding collect
collect-take zero next h xs c = (refl, c)
collect-take (suc k) next h [] c = rw c (refl, refl)
collect-take (suc k) next h (x ∷ xs) c =
    let ih = collect-take k next (next x) xs c.1 in rw (c.0) (ap (◌∷◌ x) ih.0, ih.1)

dropped-IsValid :
    (g : TaskGroup) (free : List ℕ) (k : ℕ) (h : Option ℕ)
    → IsValid g free
    → Chain g.free_slots h (drop k free)
    → IsValid (record g { free_head = h }) (drop k free)
dropped-IsValid g free k h v c = record {
  chain = c;
  distinct = Distinct-drop k free v.distinct;
  bounded = All-drop k _ free v.bounded;
  synced = v.synced;
  words = v.words;
}

-- `AllocMultipleSlots` hands out the first slots of the free list, in order: as many as asked for,
-- at most 16, and at most as many as there are. The others stay on the list.
alloc_multiple_slots_lem :
    (g : TaskGroup) (free : List ℕ) (count : ℕ)
    → IsValid g free
    → ((alloc_multiple_slots count g).0 ≡ take (min count 16) free)
      × IsValid (alloc_multiple_slots count g).1 (drop (min count 16) free)
unfolding alloc_multiple_slots
alloc_multiple_slots_lem g free zero v = (refl, v)
alloc_multiple_slots_lem g [] (suc c) v =
    rw (v.chain, alloc_multiple_slots, drop-nil (min (suc c) 16), take-nil (min (suc c) 16))
      (refl, v)
alloc_multiple_slots_lem g (s ∷ free) (suc c) v =
    let walk = collect-take (min (suc c) 16) g.free_slots (some s) (s ∷ free) (refl, v.chain.1) in
    rw (v.chain.0, alloc_multiple_slots)
      (walk.0, dropped-IsValid g (s ∷ free) (min (suc c) 16) _ v walk.1)
