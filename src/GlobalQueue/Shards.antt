-- ===== src/GlobalQueue/Shards.antt =====
-- The shards as lists of tasks, and their total.
use cothread.Prelude.{
  ℕ, zero, suc, ◌+◌, ◌≤◌, ◌<◌, ◌≡◌, refl, sym, ap, subst, ◌∙◌, ◌≢◌, inl, inr, Option, none, some,
  List, [], ◌∷◌, arith, ℕ_discrete, ◌==◌, ==→ne, tests, Bool-cases, length, All, Fresh, apart_sym,
  update, update_self, update_ne, Chain, Chain-update, u32,
}
use cothread.MpscQueue.{MpscQueue, Popped, got, empty, spins}
use cothread.MpscQueue
use cothread.MpscQueue.Fifo
use cothread.MpscQueue.Fifo.{last_of, push_first, push_later, push-appends, pop-Pops}
use cothread.GlobalQueue.{SharedMpscQueue, shard, put}

-- How many tasks `k` shards hold together.
unfoldable pub total : ℕ → (ℕ → List ℕ) → ℕ
total zero xs = 0
total (suc k) xs = length (xs k) + total k xs

-- Every shard is a queue of the tasks given for it, no task is in two shards, and the count is that of
-- all tasks.
pub record Holds (q : SharedMpscQueue) (xs : ℕ → List ℕ) : Type 0 where
  pub shards : (i : ℕ) → i < q.worker_count → Fifo.Holds (shard i q) (xs i)
  pub apart :
      (i j : ℕ) → i < q.worker_count → j < q.worker_count → i ≢ j → All (λ x. Fresh x (xs j)) (xs i)
  pub counted : q.total_count ≡ u32 (total q.worker_count xs)

total-past :
    (k i : ℕ) (xs : ℕ → List ℕ) (ys : List ℕ) → k ≤ i → total k (update xs i ys) ≡ total k xs
unfolding total
total-past zero i xs ys h = refl
total-past (suc k) i xs ys h =
    omega (arith, ap length (update_ne xs i k ys (omega arith)), total-past k i xs ys (omega arith))

pub total-update :
    (k i : ℕ) (xs : ℕ → List ℕ) (ys : List ℕ)
    → i < k
    → total k (update xs i ys) + length (xs i) ≡ total k xs + length ys
unfolding total
total-update zero i xs ys h = absurd (omega arith)
total-update (suc k) i xs ys h = elim (Bool-cases (i == k)) [
  | inl last ↦
      let same : i ≡ k = omega tests in
      omega (
        arith,
        same,
        ap (λ j. length (xs j)) same,
        ap length (update_self xs i ys),
        ap (λ j. length (update xs i ys j)) same,
        total-past k i xs ys (omega arith),
      )
  | inr before ↦ omega (
    tests,
    ap length (update_ne xs i k ys (==→ne i k before)),
    total-update k i xs ys (omega tests),
  )
]

links : Popped → (ℕ → Option ℕ) → ℕ → Option ℕ
links (got x q) d = q.next
links empty d = d
links spins d = d

-- The links after a pop of the oldest item.
pub next-pop :
    (m r : MpscQueue) (x : ℕ) (xs : List ℕ)
    → Fifo.Holds m (x ∷ xs)
    → MpscQueue.pop m ≡ got x r
    → r.next ≡ update m.next x none
unfolding MpscQueue.pop links
next-pop m r x [] v e =
    let known : MpscQueue.pop m
        ≡ got x (record m { head = none; tail = none; next = update m.next x none }) =
      ground (arith, v.chain, v.ends) in
    ap (λ p. links p m.next) (sym e ∙ known)
next-pop m r x (y ∷ xs) v e =
    let known : MpscQueue.pop m ≡ got x (record m { tail = some y; next = update m.next x none }) =
      ground (arith, v.chain, v.ends) in
    ap (λ p. links p m.next) (sym e ∙ known)

Fresh-last_of : (x : ℕ) (xs ys : List ℕ) → All (λ z. Fresh z ys) (x ∷ xs) → Fresh (last_of x xs) ys
Fresh-last_of x [] ys a = a.0
Fresh-last_of x (y ∷ xs) ys a = Fresh-last_of y xs ys a.1

-- A push into one shard leaves the list of another one.
pub push-Chain :
    (m : MpscQueue) (task : ℕ) (xs : List ℕ) (h : Option ℕ) (ys : List ℕ)
    → Fifo.Holds m xs
    → Fresh task ys
    → All (λ x. Fresh x ys) xs
    → Chain m.next h ys
    → Chain (MpscQueue.push task m).next h ys
push-Chain m task [] h ys v f a c =
    rw (push_first m task v.ends) (Chain-update m.next h task none ys f c)
push-Chain m task (x ∷ xs) h ys v f a c = rw (push_later m task (last_of x xs) v.ends) (
    Chain-update (update m.next task none) h (last_of x xs) (some task) ys (Fresh-last_of x xs ys a)
      (Chain-update m.next h task none ys f c))

shard-put : (i : ℕ) (m : MpscQueue) (q : SharedMpscQueue) → shard i (put i m q) ≡ m
unfolding put
shard-put i m q = ground arith

shard-put_ne :
    (i j : ℕ) (m : MpscQueue) (q : SharedMpscQueue)
    → i ≢ j
    → shard j (put i m q) ≡ record (shard j q) { next = m.next }
unfolding put
shard-put_ne i j m q h = ground arith

-- What a shard's new contents must keep of the others.
pub record Fits (q : SharedMpscQueue) (xs : ℕ → List ℕ) (i : ℕ) (m : MpscQueue) (ys : List ℕ)
    : Type 0 where
  pub queue : Fifo.Holds m ys
  pub chains : (j : ℕ) → j < q.worker_count → i ≢ j → Chain m.next (q.tails j) (xs j)
  pub foreign : (j : ℕ) → j < q.worker_count → i ≢ j → All (λ y. Fresh y (xs j)) ys

worker_count-put :
    (i : ℕ) (m : MpscQueue) (q : SharedMpscQueue) → (put i m q).worker_count ≡ q.worker_count
unfolding put
worker_count-put i m q = refl

module _ (q : SharedMpscQueue) (xs : ℕ → List ℕ) (v : Holds q xs) (i : ℕ) (m : MpscQueue)
    (ys : List ℕ) (f : Fits q xs i m ys) where
  pub put-shards :
      (j : ℕ) → j < q.worker_count → Fifo.Holds (shard j (put i m q)) (update xs i ys j)
  put-shards j h = elim (ℕ_discrete i j) [
    | yes same ↦
        subst (λ k. Fifo.Holds (shard k (put i m q)) (update xs i ys k)) same
          (rw (shard-put i m q, update_self xs i ys) f.queue)
    | no other ↦
        let w = v.shards j h in
        rw (shard-put_ne i j m q other, update_ne xs i j ys other)
          (record { chain = f.chains j h other; ends = w.ends; distinct = w.distinct })
  ]

  pub put-apart :
      (j k : ℕ)
      → j < q.worker_count
      → k < q.worker_count
      → j ≢ k
      → All (λ x. Fresh x (update xs i ys k)) (update xs i ys j)
  put-apart j k a b ne = elim (ℕ_discrete i j) [
    | yes here ↦
        let there : i ≢ k = λ e. ne (sym here ∙ e) in
        subst (λ l. All (λ x. Fresh x (update xs i ys k)) (update xs i ys l)) here
          (rw (update_self xs i ys, update_ne xs i k ys there) (f.foreign k b there))
    | no away ↦ elim (ℕ_discrete i k) [
      | yes here ↦
          subst (λ l. All (λ x. Fresh x (update xs i ys l)) (update xs i ys j)) here
            (rw (update_self xs i ys, update_ne xs i j ys away)
              (apart_sym ys (xs j) (f.foreign j a away)))
      | no far ↦ rw (update_ne xs i j ys away, update_ne xs i k ys far) (v.apart j k a b ne)
    ]
  ]
