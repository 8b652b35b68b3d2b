-- ===== src/GlobalQueue/Pop.antt =====
-- Which task a pop takes.
use cothread.Prelude.{
  ℕ, zero, suc, ◌+◌, ◌-◌, ◌^◌, ◌≤◌, ◌<◌, ◌≡◌, refl, sym, ap, subst, ◌∙◌, ◌≢◌, inl, inr, none, List,
  [], ◌∷◌, arith, dec_lt, ℕ_discrete, ◌==◌, lt→ltb, ==→eq, ==→ne, Bool-cases, length, All, Fresh,
  update, Chain, Chain-update, u32,
}
use cothread.MpscQueue.{MpscQueue, got, empty}
use cothread.MpscQueue
use cothread.MpscQueue.Fifo
use cothread.MpscQueue.Fifo.{push-appends, pop-Pops}
use cothread.GlobalQueue.{
  SharedMpscQueue, shard, put, Taken, took, nothing, take_or, steal_shards, pop,
}
use cothread.GlobalQueue.Shards.{Holds, total-update, next-pop, Fits, put-shards, put-apart}

-- What one shard's pop gives.
data Found (q : SharedMpscQueue) (xs : ℕ → List ℕ) (i : ℕ) (rest : Taken) : Taken → Type 0 where
  bare : xs i ≡ [] → Found q xs i rest rest
  oldest :
      (x : ℕ) (ys : List ℕ) (after : SharedMpscQueue)
      → xs i ≡ x ∷ ys
      → Holds after (update xs i ys)
      → Found q xs i rest (took x after)

abbrev popped : ℕ → MpscQueue → SharedMpscQueue → SharedMpscQueue
popped i m q = record (put i m q) { total_count = u32 (q.total_count + 2 ^ 32 - 1) }

take_or-empty :
    (i : ℕ) (q : SharedMpscQueue) (rest : Taken)
    → MpscQueue.pop (shard i q) ≡ empty
    → take_or i q rest ≡ rest
unfolding take_or
take_or-empty i q rest e = rw (e, take_or) refl

take_or-got :
    (i x : ℕ) (m : MpscQueue) (q : SharedMpscQueue) (rest : Taken)
    → MpscQueue.pop (shard i q) ≡ got x m
    → take_or i q rest ≡ took x (popped i m q)
unfolding take_or
take_or-got i x m q rest e = rw (e, take_or) refl

popped-Holds :
    (q : SharedMpscQueue) (xs : ℕ → List ℕ) (i x : ℕ) (ys : List ℕ) (m : MpscQueue)
    → Holds q xs
    → i < q.worker_count
    → xs i ≡ x ∷ ys
    → Fifo.Holds (shard i q) (x ∷ ys)
    → MpscQueue.pop (shard i q) ≡ got x m
    → Fifo.Holds m ys
    → Holds (popped i m q) (update xs i ys)
unfolding put
popped-Holds q xs i x ys m v inside e here p left =
    let apart = λ (j : ℕ) (h : j < q.worker_count) (ne : i ≢ j).
      subst (λ l. All (λ y. Fresh y (xs j)) l) e (v.apart i j inside h ne) in
    let f : Fits q xs i m ys = record {
      queue = left;
      chains = λ j h ne.
          subst (λ n. Chain n (q.tails j) (xs j)) (sym (next-pop (shard i q) m x ys here p))
            (Chain-update q.next (q.tails j) x none (xs j) (apart j h ne).0 (v.shards j h).chain);
      foreign = λ j h ne. (apart j h ne).1;
    } in
    record {
      shards = λ j h. put-shards q xs v i m ys f j h;
      apart = λ j k a b ne. put-apart q xs v i m ys f j k a b ne;
      counted = omega (arith, v.counted, total-update q.worker_count i xs ys inside, ap length e);
    }

take_or-Found :
    (q : SharedMpscQueue) (xs : ℕ → List ℕ) (i : ℕ) (rest : Taken) (zs : List ℕ)
    → Holds q xs
    → i < q.worker_count
    → xs i ≡ zs
    → Found q xs i rest (take_or i q rest)
take_or-Found q xs i rest [] v inside e =
    let here = subst (Fifo.Holds (shard i q)) e (v.shards i inside) in
    rw (take_or-empty i q rest (pop-Pops (shard i q) [] here)) (bare e)
take_or-Found q xs i rest (x ∷ ys) v inside e =
    let here = subst (Fifo.Holds (shard i q)) e (v.shards i inside) in
    let (m, p, left) = pop-Pops (shard i q) (x ∷ ys) here in
    rw (take_or-got i x m q rest p)
      (oldest x ys (popped i m q) e (popped-Holds q xs i x ys m v inside e here p left))

-- What a search of `k` shards from `i` on, other than the worker's own, finds.
data Searched (q : SharedMpscQueue) (xs : ℕ → List ℕ) (k i id : ℕ) : Taken → Type 0 where
  stolen :
      (j x : ℕ) (ys : List ℕ) (after : SharedMpscQueue)
      → j < i + k
      → j ≢ id
      → xs j ≡ x ∷ ys
      → Holds after (update xs j ys)
      → Searched q xs k i id (took x after)
  none_there : ((j : ℕ) → i ≤ j → j < i + k → j ≢ id → xs j ≡ []) → Searched q xs k i id nothing

next_place :
    (q : SharedMpscQueue) (xs : ℕ → List ℕ) (k i id : ℕ) (r : Taken)
    → (i ≢ id → xs i ≡ [])
    → Searched q xs k (suc i) id r
    → Searched q xs (suc k) i id r
next_place q xs k i id r h (stolen j x ys after a b c d) = stolen j x ys after (omega arith) b c d
next_place q xs k i id r h (none_there g) = none_there (λ j a b c. elim (dec_lt i j) [
  | yes past ↦ g j past (omega arith) c
  | no at ↦
      let same : i ≡ j = omega arith in subst (λ l. xs l ≡ []) same (h (λ e. c (sym same ∙ e)))
])

this_place :
    (q : SharedMpscQueue) (xs : ℕ → List ℕ) (k i id : ℕ) (rest r : Taken)
    → i ≢ id
    → Found q xs i rest r
    → Searched q xs k (suc i) id rest
    → Searched q xs (suc k) i id r
this_place q xs k i id rest _ ne (bare e) s = next_place q xs k i id rest (λ _. e) s
this_place q xs k i id rest _ ne (oldest x ys after e w) s =
    stolen i x ys after (omega arith) ne e w

steal_shards-Searched :
    (q : SharedMpscQueue) (xs : ℕ → List ℕ) (k i id : ℕ)
    → Holds q xs
    → i + k ≤ q.worker_count
    → Searched q xs k i id (steal_shards k i id q)
unfolding steal_shards
steal_shards-Searched q xs zero i id v h = none_there (λ j a b c. absurd (omega arith))
steal_shards-Searched q xs (suc k) i id v h =
    let rest = steal_shards k (suc i) id q in
    let ih = steal_shards-Searched q xs k (suc i) id v (omega arith) in
    elim (Bool-cases (i == id)) [
      | inl own ↦ rw own (next_place q xs k i id rest (λ ne. absurd (ne (==→eq i id own))) ih)
      | inr other ↦ rw other (
          this_place q xs k i id rest _ (==→ne i id other)
            (take_or-Found q xs i rest (xs i) v (omega arith) refl) ih)
    ]

-- What a pop by a worker promises: the oldest task of its own shard; or, when that is empty, the oldest
-- task of another shard; or none, and then every shard is empty. It never waits.
pub data Takes (q : SharedMpscQueue) (xs : ℕ → List ℕ) (id : ℕ) : Taken → Type 0 where
  from_own :
      (x : ℕ) (ys : List ℕ) (after : SharedMpscQueue)
      → xs id ≡ x ∷ ys
      → Holds after (update xs id ys)
      → Takes q xs id (took x after)
  from_other :
      (j x : ℕ) (ys : List ℕ) (after : SharedMpscQueue)
      → xs id ≡ []
      → j < q.worker_count
      → j ≢ id
      → xs j ≡ x ∷ ys
      → Holds after (update xs j ys)
      → Takes q xs id (took x after)
  all_empty : ((j : ℕ) → j < q.worker_count → xs j ≡ []) → Takes q xs id nothing

own_empty :
    (q : SharedMpscQueue) (xs : ℕ → List ℕ) (id : ℕ) (r : Taken)
    → xs id ≡ []
    → Searched q xs q.worker_count 0 id r
    → Takes q xs id r
own_empty q xs id _ e (stolen j x ys after a b c d) = from_other j x ys after e (omega arith) b c d
own_empty q xs id _ e (none_there g) = all_empty (λ j h. elim (ℕ_discrete j id) [
  | yes own ↦ subst (λ l. xs l ≡ []) (sym own) e
  | no other ↦ g j (omega arith) (omega arith) other
])

own_first :
    (q : SharedMpscQueue) (xs : ℕ → List ℕ) (id : ℕ) (rest r : Taken)
    → Found q xs id rest r
    → Searched q xs q.worker_count 0 id rest
    → Takes q xs id r
own_first q xs id rest _ (bare e) s = own_empty q xs id rest e s
own_first q xs id rest _ (oldest x ys after e w) s = from_own x ys after e w

-- With no push under way, a pop by a worker that has a shard takes the oldest task of its own shard
-- first, then one of another shard, and finds nothing only if every shard is empty.
pub pop-Takes :
    (q : SharedMpscQueue) (xs : ℕ → List ℕ) (id : ℕ)
    → Holds q xs
    → id < q.worker_count
    → Takes q xs id (pop id q)
unfolding pop
pop-Takes q xs id v h =
    let rest = steal_shards q.worker_count 0 id q in
    rw (lt→ltb id q.worker_count h) (
      own_first q xs id rest _ (take_or-Found q xs id rest (xs id) v h refl)
        (steal_shards-Searched q xs q.worker_count 0 id v (omega arith)))
