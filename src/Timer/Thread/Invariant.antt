-- ===== src/Timer/Thread/Invariant.antt =====
-- The invariant of the sharded timer thread: every shard is watched.
use cothread.Prelude.{
  ℕ, zero, suc, ◌+◌, ◌-◌, ◌%◌, ◌^◌, ◌≤◌, ◌<◌, ◌≡◌, refl, sym, ap, subst, ◌∙◌, ◌≢◌, inl, inr, Bool,
  true, false, Option, none, some, List, [], ◌∷◌, arith, dec_lt, ◌==◌, if◌then◌else◌, ne→==, ==→eq,
  ==→ne, Bool-cases, length, update, update_self, update_ne, u32, get_or, tally,
}
use cothread.Timer.Heap.{TimerEntry, deadline_at, parent}
use cothread.Timer.Shard.{Shard}
use cothread.Timer.Shard.Account.{early, bounded_below, none_early}
use cothread.Timer.Thread.{
  TimerThread, Delay, new_entry, insert_entry, mark_cancelled, put_shard, shard_of, Scheduled,
  outside, schedule, scheduled, cancel_from, cancel,
}
use cothread.Timer.Thread.Books.{
  IsWatched, insert_entry-IsWatched, has_id, armed, Marks, absent, marked, mark_cancelled-Marks,
}

abbrev pub AllWatched : TimerThread → Type 0
AllWatched t = (i : ℕ) → i < t.worker_count → IsWatched (shard_of i t)

-- Where a call of Schedule puts its timer.
abbrev pub turn : TimerThread → ℕ
turn t = t.shard_assign % t.worker_count

-- The timer that a call of Schedule adds.
abbrev pub added : ℕ → ℕ → ℕ → Delay → TimerThread → TimerEntry
added now callback arg d t = (new_entry now callback arg d t).0

-- What a call promises: the id handed out, and the timer in the shard whose turn it is; the other
-- shards as they were.
pub record Adds (e : TimerEntry) (t : TimerThread) (r : Scheduled) : Type 0 where
  pub after : TimerThread
  pub returns : r ≡ scheduled t.next_id after
  pub watched : AllWatched after
  pub joins :
      (p : TimerEntry → Bool)
      → tally p (after.heaps (turn t)) ≡ tally p (t.heaps (turn t)) + (if p e then 1 else 0)
  pub others : (j : ℕ) → j ≢ turn t → after.heaps j ≡ t.heaps j
  pub shards : after.worker_count ≡ t.worker_count

shard_of-put_shard :
    (i j : ℕ) (s : Shard) (t : TimerThread)
    → IsWatched s
    → (j ≢ i → IsWatched (shard_of j t))
    → IsWatched (shard_of j (put_shard i s t))
unfolding shard_of put_shard
shard_of-put_shard i j s t v w = elim (Bool-cases (i == j)) [
  | inl here ↦ record { ordered = rw here v.ordered; none_early = rw here v.none_early }
  | inr there ↦
      let u = w (λ e. ==→ne i j there (sym e)) in
      record { ordered = rw there u.ordered; none_early = rw there u.none_early }
]

-- The thread after both counters are up.
abbrev counted : ℕ → ℕ → ℕ → Delay → TimerThread → TimerThread
counted now callback arg d t = record (new_entry now callback arg d t).1 {
  shard_assign = u32 (t.shard_assign + 1);
}

module _ (now callback arg : ℕ) (d : Delay) (t : TimerThread) where
  schedule_lem :
      0 < t.worker_count
      → t.shard_assign < 2 ^ 31
      → schedule now callback arg (some d) t
        ≡ scheduled t.next_id (
            put_shard
              (turn t)
              (insert_entry
                (added now callback arg d t)
                (shard_of (turn t) (counted now callback arg d t)))
              (counted now callback arg d t))
  unfolding schedule new_entry
  schedule_lem some_shard sign = ground arith

  counted-IsWatched :
      (j : ℕ) → IsWatched (shard_of j t) → IsWatched (shard_of j (counted now callback arg d t))
  unfolding new_entry shard_of
  counted-IsWatched j v = record { ordered = v.ordered; none_early = v.none_early }

  heaps-counted :
      (j : ℕ)
      → ((shard_of j (counted now callback arg d t)).heap ≡ t.heaps j)
        × ((counted now callback arg d t).heaps j ≡ t.heaps j)
  unfolding new_entry shard_of
  heaps-counted j = (refl, refl)

  worker_count-put_shard :
      (i : ℕ) (s : Shard)
      → (put_shard i s (counted now callback arg d t)).worker_count ≡ t.worker_count
  unfolding new_entry put_shard
  worker_count-put_shard i s = refl

heaps-put_shard :
    (i j : ℕ) (s : Shard) (t : TimerThread)
    → ((put_shard i s t).heaps i ≡ s.heap) × (j ≢ i → (put_shard i s t).heaps j ≡ t.heaps j)
unfolding put_shard
heaps-put_shard i j s t =
    (update_self t.heaps i s.heap, λ h. update_ne t.heaps i j s.heap (λ e. h (sym e)))

-- With a shard counter that is not negative, Schedule on a watched thread hands out the next id, puts
-- the timer into the shard whose turn it is, and keeps every shard watched.
pub schedule-Adds :
    (now callback arg : ℕ) (d : Delay) (t : TimerThread)
    → 0 < t.worker_count
    → t.shard_assign < 2 ^ 31
    → AllWatched t
    → Adds (added now callback arg d t) t (schedule now callback arg (some d) t)
schedule-Adds now callback arg d t some_shard sign v =
    let u = counted now callback arg d t in
    let s = insert_entry (added now callback arg d t) (shard_of (turn t) u) in
    let (kept, grown) =
      insert_entry-IsWatched (added now callback arg d t) (shard_of (turn t) u)
        (counted-IsWatched now callback arg d t (turn t) (v (turn t) (omega arith))) in
    let size = worker_count-put_shard now callback arg d t (turn t) s in
    record {
      after = put_shard (turn t) s u;
      returns = schedule_lem now callback arg d t some_shard sign;
      watched = λ j h.
          shard_of-put_shard (turn t) j s u kept
            (λ _. counted-IsWatched now callback arg d t j (v j (omega (arith, size))));
      joins = λ p.
          ap (tally p) (heaps-put_shard (turn t) (turn t) s u).0
          ∙ grown p
          ∙ ap (λ h. tally p h + (if p (added now callback arg d t) then 1 else 0))
              (heaps-counted now callback arg d t (turn t)).0;
      others =
          λ j h. (heaps-put_shard (turn t) j s u).1 h ∙ (heaps-counted now callback arg d t j).1;
      shards = size;
    }

-- From 2^31 calls on the counter is negative: unless the count divides it, the write is outside the
-- array of shards.
schedule-outside :
    (now callback arg : ℕ) (d : Delay) (t : TimerThread)
    → 0 < t.worker_count
    → 2 ^ 31 ≤ t.shard_assign
    → (2 ^ 32 - t.shard_assign) % t.worker_count ≢ 0
    → schedule now callback arg (some d) t ≡ outside
unfolding schedule new_entry
schedule-outside now callback arg d t some_shard sign odd = ground arith

early_at :
    (b : ℕ) (heap : List TimerEntry)
    → early b heap ≡ 0
    → (i : ℕ) → i < length heap
    → b ≤ deadline_at heap i
unfolding tally get_or
early_at b [] e i h = absurd (omega arith)
early_at b (x ∷ heap) e zero h = ground arith
early_at b (x ∷ heap) e (suc i) h = early_at b heap (ground arith) i (omega arith)

-- Marking an entry changes no deadline, so a watched shard stays so.
marked-IsWatched :
    (s : Shard) (after : List TimerEntry)
    → length after ≡ length s.heap
    → ((i : ℕ) → deadline_at after i ≡ deadline_at s.heap i)
    → IsWatched s
    → IsWatched (record s { heap = after })
marked-IsWatched s after size same v = record {
  ordered = λ c p q. omega (arith, same c, same (parent c), v.ordered c p (omega arith));
  none_early = none_early s.next_deadline after (
      bounded_below s.next_deadline after (λ i p.
        omega (arith, same i, early_at s.next_deadline s.heap v.none_early i (omega arith))));
}

-- What a call of Cancel promises: false when no shard has an entry with the id, and then the thread is
-- as it was; true when some shard has one, which is marked there, so that fewer entries with the id
-- are armed than there are entries with it; the other heaps are as they were.
pub data Cancels (k i id : ℕ) (t : TimerThread) : Bool × TimerThread → Type 0 where
  missed :
      ((j : ℕ) → i ≤ j → j < i + k → tally (has_id id) (t.heaps j) ≡ 0)
      → Cancels k i id t (false, t)
  hit :
      (j : ℕ) (after : List TimerEntry)
      → i ≤ j
      → j < i + k
      → tally (armed id) after < tally (has_id id) (t.heaps j)
      → length after ≡ length (t.heaps j)
      → ((c : ℕ) → deadline_at after c ≡ deadline_at (t.heaps j) c)
      → Cancels k i id t (true, record t { heaps = update t.heaps j after })

cancel_later :
    (k i id : ℕ) (t : TimerThread) (r : Bool × TimerThread)
    → tally (has_id id) (t.heaps i) ≡ 0
    → Cancels k (suc i) id t r
    → Cancels (suc k) i id t r
cancel_later k i id t r z (missed h) = missed (λ j a b. elim (dec_lt i j) [
  | yes past ↦ h j past (omega arith)
  | no at ↦ let here : i ≡ j = omega arith in subst (λ x. tally (has_id id) (t.heaps x) ≡ 0) here z
])
cancel_later k i id t r z (hit j after a b lt size same) =
    hit j after (omega arith) (omega arith) lt size same

cancel_found :
    (k i id : ℕ) (t : TimerThread) (found : Option (List TimerEntry)) (rest : Bool × TimerThread)
    → Marks id (t.heaps i) found
    → Cancels k (suc i) id t rest
    → Cancels (suc k) i id t (elim found [
      | none ↦ rest
      | some heap ↦ (true, record t { heaps = update t.heaps i heap })
    ])
cancel_found k i id t found rest (absent z) c = cancel_later k i id t rest z c
cancel_found k i id t found rest (marked lt size same) c =
    hit i _ (omega arith) (omega arith) lt size same

cancel_from-Cancels : (k i id : ℕ) (t : TimerThread) → Cancels k i id t (cancel_from k i id t)
unfolding cancel_from
cancel_from-Cancels zero i id t = missed (λ j a b. absurd (omega arith))
cancel_from-Cancels (suc k) i id t =
    cancel_found k i id t (mark_cancelled id (t.heaps i)) (cancel_from k (suc i) id t)
      (mark_cancelled-Marks id (t.heaps i)) (cancel_from-Cancels k (suc i) id t)

Cancels-AllWatched :
    (id : ℕ) (t : TimerThread) (r : Bool × TimerThread)
    → AllWatched t
    → Cancels t.worker_count 0 id t r
    → AllWatched r.1
unfolding shard_of
Cancels-AllWatched id t r v (missed h) = v
Cancels-AllWatched id t r v (hit j after a b lt size same) = λ i p. elim (Bool-cases (j == i)) [
  | inl here ↦
      let w = marked-IsWatched (shard_of j t) after size same (v j (omega arith)) in
      record {
        ordered = rw here w.ordered;
        none_early =
            rw here
              (subst (λ x. early (t.next_deadlines x) after ≡ 0) (==→eq j i here) w.none_early);
      }
  | inr there ↦ record {
    ordered = rw there ((v i p).ordered);
    none_early = rw there ((v i p).none_early);
  }
]

-- Cancel on an initialised, watched thread, whatever it finds, does as it promises and keeps every
-- shard watched.
pub cancel-Cancels :
    (id : ℕ) (t : TimerThread)
    → 0 < t.worker_count
    → AllWatched t
    → Cancels t.worker_count 0 id t (cancel id t) × AllWatched (cancel id t).1
unfolding cancel
cancel-Cancels id t some_shard v =
    let c = cancel_from-Cancels t.worker_count 0 id t in
    rw (ne→== t.worker_count 0 (omega arith)) (c, Cancels-AllWatched id t _ v c)
