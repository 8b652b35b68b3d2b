-- ===== src/GlobalQueue/Push.antt =====
-- Where a push puts a task, and what the count tells.
use cothread.Prelude.{
  ℕ, ◌+◌, ◌%◌, ◌^◌, ◌<◌, ◌≡◌, ◌↔◌, true, some, List, [], ◌∷◌, ◌++◌, arith, length-append,
  All-append, Fresh, update, u32,
}
use cothread.MpscQueue.{MpscQueue, got, empty}
use cothread.MpscQueue
use cothread.MpscQueue.Fifo.{push-appends}
use cothread.GlobalQueue.{SharedMpscQueue, shard, put, push, is_empty}
use cothread.GlobalQueue.Shards.{
  total, Holds, total-update, push-Chain, Fits, put-shards, put-apart,
}

abbrev pub turn : SharedMpscQueue → ℕ
turn q = q.round_robin % q.worker_count

abbrev pub pushed : ℕ → SharedMpscQueue → SharedMpscQueue
pushed task q = record (put (turn q) (MpscQueue.push task (shard (turn q) q)) q) {
  round_robin = u32 (q.round_robin + 1);
  total_count = u32 (q.total_count + 1);
}

pub push_lem :
    (task : ℕ) (q : SharedMpscQueue)
    → 0 < q.worker_count
    → q.round_robin < 2 ^ 31
    → push task q ≡ some (pushed task q)
unfolding push
push_lem task q some_shard sign = ground arith

-- With a counter that is not negative, a push of a task that is not queued puts it last in the shard
-- whose turn it is, and the other shards stay as they were.
pub push-joins :
    (task : ℕ) (q : SharedMpscQueue) (xs : ℕ → List ℕ)
    → 0 < q.worker_count
    → q.round_robin < 2 ^ 31
    → Holds q xs
    → ((i : ℕ) → i < q.worker_count → Fresh task (xs i))
    → (after : SharedMpscQueue) × (push task q ≡ some after)
      × Holds after (update xs (turn q) (xs (turn q) ++ task ∷ []))
unfolding put
push-joins task q xs some_shard sign v new =
    let i = turn q in
    let inside : i < q.worker_count = omega arith in
    let m = MpscQueue.push task (shard i q) in
    let ys = xs i ++ task ∷ [] in
    let f : Fits q xs i m ys = record {
      queue = push-appends (shard i q) (xs i) task (v.shards i inside) (new i inside);
      chains = λ j h ne.
          push-Chain (shard i q) task (xs i) (q.tails j) (xs j) (v.shards i inside) (new j h)
            (v.apart i j inside h ne) (v.shards j h).chain;
      foreign = λ j h ne. All-append _ (xs i) (task ∷ []) (v.apart i j inside h ne) (new j h, tt);
    } in
    (
      pushed task q,
      push_lem task q some_shard sign,
      record {
        shards = λ j h. put-shards q xs v i m ys f j h;
        apart = λ j k a b ne. put-apart q xs v i m ys f j k a b ne;
        counted = omega (
          arith,
          v.counted,
          total-update q.worker_count i xs ys inside,
          length-append (xs i) (task ∷ []),
        );
      },
    )

-- While fewer than 2^32 tasks are queued, the test of the count is exact.
is_empty-exact :
    (q : SharedMpscQueue) (xs : ℕ → List ℕ)
    → Holds q xs
    → total q.worker_count xs < 2 ^ 32
    → (is_empty q ≡ true) ↔ (total q.worker_count xs ≡ 0)
unfolding is_empty
is_empty-exact q xs v h = ground (arith, v.counted)
