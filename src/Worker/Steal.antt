-- ===== src/Worker/Steal.antt =====
-- What a worker's search of the other queues finds.
use cothread.Prelude.{
  ℕ, zero, suc, ◌+◌, ◌-◌, ◌*◌, ◌%◌, ◌<◌, ◌≡◌, refl, ◌≢◌, inl, inr, Option, none, some, arith,
  dec_lt, leb, ◌==◌, ==→eq, ==→ne, tests, Bool-cases, Option-cases,
}
use cothread.StealQueue
use cothread.StealQueue.{StealQueue}
use cothread.Worker.{steal_from, steal_task}

-- A search of `k` places from `i` on: the oldest task of another worker's queue, whose queue is then
-- without it; or nothing, and then no other worker at one of those places has a task.
pub data Searches (k i id wc : ℕ) (queue : ℕ → Option StealQueue)
    : Option (ℕ × ℕ × StealQueue) → Type 0 where
  stolen :
      (victim task : ℕ) (q : StealQueue)
      → victim < wc
      → victim ≢ id
      → queue victim ≡ some q
      → (StealQueue.steal q).0 ≡ some task
      → Searches k i id wc queue (some (task, victim, (StealQueue.steal q).1))
  nothing :
      ((j : ℕ) (q : StealQueue)
        → j < k
        → (i + j) % wc ≢ id
        → queue ((i + j) % wc) ≡ some q
        → (StealQueue.steal q).0 ≡ none)
      → Searches k i id wc queue none

-- The place `i` gives nothing: the search is that of the places after it.
search_later :
    (k i id wc : ℕ) (queue : ℕ → Option StealQueue) (r : Option (ℕ × ℕ × StealQueue))
    → ((q : StealQueue) → i % wc ≢ id → queue (i % wc) ≡ some q → (StealQueue.steal q).0 ≡ none)
    → Searches k (suc i) id wc queue r
    → Searches (suc k) i id wc queue r
search_later k i id wc queue r h (stolen victim task q a b c d) = stolen victim task q a b c d
search_later k i id wc queue r h (nothing g) = nothing (λ j q a b c. elim (dec_lt 0 j) [
  | yes past ↦
      let same : suc i + (j - 1) ≡ i + j = omega arith in
      g (j - 1) q (omega arith) (rw same b) (rw same c)
  | no at ↦ let here : i + j ≡ i = omega arith in h q (rw here at b) (rw here at c)
])

search_place :
    (k i id wc : ℕ) (queue : ℕ → Option StealQueue) (rest : Option (ℕ × ℕ × StealQueue))
    (found : Option StealQueue)
    → 0 < wc
    → i % wc ≢ id
    → queue (i % wc) ≡ found
    → Searches k (suc i) id wc queue rest
    → Searches (suc k) i id wc queue (elim found [
      | none ↦ rest
      | some q ↦ elim (StealQueue.steal q).0 [
        | none ↦ rest
        | some task ↦ some (task, i % wc, (StealQueue.steal q).1)
      ]
    ])
search_place k i id wc queue rest none pos other e s =
    search_later k i id wc queue rest (λ q a b. absurd (ground arith)) s
search_place k i id wc queue rest (some q) pos other e s =
    elim (Option-cases (StealQueue.steal q).0) [
      | inl bare ↦ rw bare (search_later k i id wc queue rest (λ p a b. ground arith) s)
      | inr (task, there) ↦ rw there (stolen (i % wc) task q (omega arith) other e there)
    ]

steal_from-Searches :
    (k i id wc : ℕ) (queue : ℕ → Option StealQueue)
    → 0 < wc
    → Searches k i id wc queue (steal_from k i id wc queue)
unfolding steal_from
steal_from-Searches zero i id wc queue pos = nothing (λ j q a. absurd (omega arith))
steal_from-Searches (suc k) i id wc queue pos =
    let rest = steal_from k (suc i) id wc queue in
    let ih = steal_from-Searches k (suc i) id wc queue pos in
    elim (Bool-cases (i % wc == id)) [
      | inl self ↦
          rw self
            (search_later k i id wc queue rest (λ q a b. absurd (a (==→eq (i % wc) id self))) ih)
      | inr other ↦
          rw other (
            search_place k i id wc queue rest (queue (i % wc)) pos (==→ne (i % wc) id other) refl
              ih)
    ]

around : (v wc : ℕ) → v < wc → (v + wc) % wc ≡ v
around v wc h = grind arith

-- What stealing promises a worker: a task that was the oldest in the queue of another worker, or
-- nothing, and then no other worker has a task in its queue.
pub data Steals (id wc : ℕ) (queue : ℕ → Option StealQueue)
    : Option (ℕ × ℕ × StealQueue) → Type 0 where
  took :
      (victim task : ℕ) (q : StealQueue)
      → victim < wc
      → victim ≢ id
      → queue victim ≡ some q
      → (StealQueue.steal q).0 ≡ some task
      → Steals id wc queue (some (task, victim, (StealQueue.steal q).1))
  all_empty :
      ((v : ℕ) (q : StealQueue)
        → v < wc
        → v ≢ id
        → queue v ≡ some q
        → (StealQueue.steal q).0 ≡ none)
      → Steals id wc queue none

search_rounds :
    (id wc : ℕ) (queue : ℕ → Option StealQueue) (r : Option (ℕ × ℕ × StealQueue))
    → 0 < wc
    → Searches (wc * 2) ((id + 1) % wc) id wc queue r
    → Steals id wc queue r
search_rounds id wc queue r pos (stolen victim task q a b c d) = took victim task q a b c d
search_rounds id wc queue r pos (nothing g) = all_empty (λ v q a b c.
    let start = (id + 1) % wc in
    let small : start < wc = omega arith in
    let round : start + (v + wc - start) ≡ v + wc = omega arith in
    let same : (start + (v + wc - start)) % wc ≡ v = rw round (around v wc a) in
    g (v + wc - start) q (omega arith) (rw same b) (rw same c))

-- The two rounds of the search miss no worker: a worker steals the oldest task of some other worker,
-- and comes back without one only if no other worker has a task in its queue.
pub steal_task-Steals :
    (id wc : ℕ) (queue : ℕ → Option StealQueue)
    → id < wc
    → Steals id wc queue (steal_task id wc queue)
unfolding steal_task
steal_task-Steals id wc queue h = elim (Bool-cases (leb wc 1)) [
  | inl alone ↦ rw alone (all_empty (λ v q a b c. absurd (omega tests)))
  | inr more ↦ rw more (
      search_rounds id wc queue _ (omega arith)
        (steal_from-Searches (wc * 2) ((id + 1) % wc) id wc queue (omega arith)))
]
