-- ===== src/Mutex/Flaws.antt =====
-- What the mutex does not promise: tasks that sleep on while the lock is free, and two owners at once.
use cothread.Prelude.{
  ℕ, suc, ◌-◌, ◌≡◌, refl, ap, ◌≢◌, inl, true, false, none, some, [], ◌∷◌, ◌++◌, arith, ltb,
  if◌then◌else◌,
}
use cothread.Mutex.{
  Phase, outside, sleeping, owns, unqueued, skips, releases, wakes, counts_out, reads_value,
  suspends, queued, Mutex, free, held, goes, exchange, unlocked, enqueue_waiter, UnlockStep,
  find_none, look_pending, skip_wake, release, count_in, count_out, awaiting, unlocks, Reaches,
  here, then',
}
use cothread.Mutex.Native.{NativeMutex, lock_pthread, unlock_pthread}
use cothread.Mutex.Owner.{has_lock}

-- One step after others.
by_unlock : (m n o : Mutex) → Reaches m n → UnlockStep n o → Reaches m o
by_unlock m n o r s = then' m n o r (unlocks n o s)

-- Nobody has the lock or is about to do anything, but for one task.
pub record Abandoned (s : ℕ) (p : Phase) (m : Mutex) : Type 0 where
  pub unlocked : m.word.locked ≡ false
  pub stays : m.phase s ≡ p
  pub others : (u : ℕ) → s ≢ u → m.phase u ≡ outside

-- A wake-up is skipped: a task unlocks while another's unlock is about to count itself out of
-- pending_wake_, having woken somebody before. The lock is then free and a task sleeps on, with no task
-- left to wake it.
pub skip_wake-strands :
    (m : Mutex) (t u s : ℕ)
    → t ≢ u
    → t ≢ s
    → u ≢ s
    → m.phase t ≡ unqueued
    → m.phase u ≡ counts_out
    → m.phase s ≡ sleeping
    → ((x : ℕ) → t ≢ x → u ≢ x → s ≢ x → m.phase x ≡ outside)
    → m.pending_wake ≡ 1
    → (n : Mutex) × Reaches m n × Abandoned s sleeping n × (n.pending_wake ≡ 0)
skip_wake-strands m t u s a b c p q r o w =
    let looked = goes t (if ltb 0 m.pending_wake then skips else releases) m in
    let skipped = goes t outside (unlocked looked) in
    let left = goes u outside (record skipped { pending_wake = skipped.pending_wake - 1 }) in
    let one = by_unlock m m looked (here m) (look_pending m t p) in
    let two = by_unlock m looked skipped one (skip_wake looked t (ground (arith, w))) in
    let three = by_unlock m skipped left two (count_out skipped u (ground (arith, a, q))) in
    (
      left,
      three,
      record {
        unlocked = refl;
        stays = ground (arith, b, c, r);
        others = λ x d. ground (arith, o x, d);
      },
      omega (arith, w),
    )

-- A coroutine is lost: it has set HAS_WAITERS and failed to get the lock a second time, but is not in the
-- queue yet while the owner unlocks. It then suspends in the queue with the lock free, and no task is
-- left to resume it. Here no bthread ever waited, so there is no butex.
enqueue_waiter-strands :
    (m : Mutex) (t u : ℕ)
    → t ≢ u
    → m.phase t ≡ suspends
    → m.phase u ≡ owns
    → ((x : ℕ) → t ≢ x → u ≢ x → m.phase x ≡ outside)
    → m.waiters ≡ []
    → m.pending_wake ≡ 0
    → m.word.has_waiters ≡ true
    → m.value ≡ none
    → (n : Mutex) × Reaches m n × Abandoned t queued n × (n.waiters ≡ t ∷ [])
enqueue_waiter-strands m t u a p q o e w h v =
    let found = goes u unqueued m in
    let looked = goes u (if ltb 0 m.pending_wake then skips else releases) found in
    let freed = goes u (if m.word.has_waiters then wakes else outside) (unlocked looked) in
    let counted =
      goes u (elim m.value [ none ↦ counts_out | some x ↦ reads_value ])
        (record freed { pending_wake = suc m.pending_wake }) in
    let left = goes u outside (record counted { pending_wake = counted.pending_wake - 1 }) in
    let last = goes t queued (record left { waiters = left.waiters ++ t ∷ [] }) in
    let one = by_unlock m m found (here m) (find_none m u (inl q) e) in
    let two = by_unlock m found looked one (look_pending found u (ground arith)) in
    let three = by_unlock m looked freed two (release looked u (ground (arith, w))) in
    let four = by_unlock m freed counted three (count_in freed u (ground (arith, h))) in
    let five = by_unlock m counted left four (count_out counted u (ground (arith, v))) in
    let six =
      then' m left last five (awaiting left last (enqueue_waiter left t (ground (arith, a, p)))) in
    (
      last,
      six,
      record { unlocked = refl; stays = ground arith; others = λ x d. ground (arith, o x, d) },
      ap (λ l. l ++ t ∷ []) e,
    )

-- A thread that is no worker gets the lock from lock() while a task has it; its unlock then clears the
-- LOCKED of that task, and the exchange of another task that finds the word free succeeds: two tasks have
-- the lock.
lock_pthread-shares :
    (n : NativeMutex) (t u : ℕ)
    → t ≢ u
    → n.native_held ≡ false
    → has_lock (n.mutex.phase t) ≡ true
    → n.mutex.word ≡ held
    → (k : NativeMutex) × (lock_pthread n ≡ some k)
      × (has_lock (k.mutex.phase t) ≡ true)
      × (let after = exchange u free held owns outside (unlock_pthread none k).mutex in
          (has_lock (after.phase t) ≡ true) × (has_lock (after.phase u) ≡ true))
unfolding lock_pthread unlock_pthread exchange
lock_pthread-shares n t u a f h w = (
  record {
    mutex = record n.mutex { word = record n.mutex.word { locked = true } };
    native_held = true;
  },
  rw f refl,
  h,
  (rw w (ground (arith, a, h)), rw w (ground arith)),
)
