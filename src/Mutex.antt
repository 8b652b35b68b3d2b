-- ===== src/Mutex.antt =====
-- src/bthread/sync/mutex.cpp and include/bthread/sync/mutex.hpp: the mutex, as steps of any number of
-- threads, one access to shared state each, sequentially consistent. A thread of a worker runs a
-- bthread or a coroutine; its number is the task's. Each operation is a relation of its own: LockStep,
-- TryStep, AwaitStep and UnlockStep; Native has what threads do that are no workers. The state word
-- is its two bits. On the butex a task sleeps when the value is the one it read, and Wake(1) wakes
-- one sleeper if there is one, as Butex.Wait and Butex.Wake show of the operations by themselves; a
-- shutdown resumes the sleepers.
pub mod Owner
pub mod Exclusion
pub mod Mark
pub mod Native
pub mod Flaws
use cothread.Prelude.{
  ℕ, suc, ◌+◌, ◌-◌, ◌≡◌, ◌≢◌, ◌⊎◌, Bool, true, false, not, ◌&&◌, Option, none, some, List, [], ◌∷◌,
  ◌++◌, ltb, ◌==◌, if◌then◌else◌, update,
}

pub record Word : Type 0 where
  pub locked : Bool
  pub has_waiters : Bool

abbrev same_bit : Bool → Bool → Bool
same_bit true b = b
same_bit false b = not b

abbrev pub same_word : Word → Word → Bool
same_word v w = same_bit v.locked w.locked && same_bit v.has_waiters w.has_waiters

-- Where a task is. lock_bthread: before its first exchange; before it makes the butex; before
-- the load of the loop; with the word
-- that it loaded; before the second load; with that word; before the load of the butex's value; before
-- Wait; asleep in it; resumed in it; in possession of the lock; returned on ECANCELED. unlock: past an
-- empty queue of coroutines; about to clear LOCKED, without and with a look at HAS_WAITERS; about to count itself in
-- pending_wake_; before the load of the value; before its store; before Wake; before it counts itself
-- out. await_suspend: before its first try_lock; before it sets HAS_WAITERS; before the second try_lock;
-- about to clear HAS_WAITERS again; before it joins the queue; suspended in it.
pub data Phase : Type 0 where
  outside : Phase
  fast : Phase
  prepares : Phase
  loops : Phase
  loaded : Word → Phase
  noted : Phase
  rechecked : Word → Phase
  waits : Phase
  enters : ℕ → Phase
  sleeping : Phase
  woken : Phase
  owns : Phase
  canceled : Phase
  unqueued : Phase
  skips : Phase
  releases : Phase
  wakes : Phase
  reads_value : Phase
  sets_value : ℕ → Phase
  calls_wake : Phase
  counts_out : Phase
  awaits : Phase
  marks : Phase
  retries : Phase
  unmarks : Phase
  suspends : Phase
  queued : Phase

-- `waiters` is the queue of coroutines; `value` is the butex's, `none` when there is no butex yet.
pub record Mutex : Type 0 where
  pub word : Word
  pub pending_wake : ℕ
  pub waiters : List ℕ
  pub value : Option ℕ
  pub running : Bool
  pub phase : ℕ → Phase

abbrev pub free : Word
free = record { locked = false; has_waiters = false }

abbrev pub held : Word
held = record { locked = true; has_waiters = false }

-- `Mutex()`
abbrev pub new_mutex : Mutex
new_mutex = record {
  word = free;
  pending_wake = 0;
  waiters = [];
  value = none;
  running = true;
  phase = λ t. outside;
}

-- A task goes on to another place.
abbrev pub goes : ℕ → Phase → Mutex → Mutex
goes t p m = record m { phase = update m.phase t p }

-- compare_exchange_strong of the state word: the task goes on to `won` or to `lost`.
unfoldable pub exchange : ℕ → Word → Word → Phase → Phase → Mutex → Mutex
exchange t expected desired won lost m =
    if same_word m.word expected then goes t won (record m { word = desired }) else goes t lost m

-- What lock_bthread does with the word that it loaded.
unfoldable pub act_on : ℕ → Word → Mutex → Mutex
act_on t w m =
    if not w.locked
    then exchange t w (record w { locked = true }) owns loops m
    else if not w.has_waiters
    then exchange t w (record w { has_waiters = true }) noted loops m
    else goes t noted m

unfoldable pub act_again : ℕ → Word → Mutex → Mutex
act_again t w m =
    if not w.locked then exchange t w (record w { locked = true }) owns loops m else goes t waits m

-- The butex is made if there is none.
unfoldable pub create : Option ℕ → Option ℕ
create none = some 0
create (some v) = some v

-- Wait on the butex with the value that was read.
unfoldable pub enter : Option ℕ → ℕ → Phase
enter none expected = loops
enter (some v) expected = if v == expected then sleeping else loops

-- lock_bthread
pub data LockStep : Mutex → Mutex → Type 0 where
  look_free : (m : Mutex) (t : ℕ) → m.phase t ≡ outside → m.word ≡ free → LockStep m (goes t fast m)
  look_held :
      (m : Mutex) (t : ℕ) → m.phase t ≡ outside → m.word ≢ free → LockStep m (goes t prepares m)
  try_fast :
      (m : Mutex) (t : ℕ) → m.phase t ≡ fast → LockStep m (exchange t free held owns prepares m)
  make_butex :
      (m : Mutex) (t : ℕ)
      → m.phase t ≡ prepares
      → LockStep m (goes t loops (record m { value = create m.value }))
  load : (m : Mutex) (t : ℕ) → m.phase t ≡ loops → LockStep m (goes t (loaded m.word) m)
  act : (m : Mutex) (t : ℕ) (w : Word) → m.phase t ≡ loaded w → LockStep m (act_on t w m)
  load_again : (m : Mutex) (t : ℕ) → m.phase t ≡ noted → LockStep m (goes t (rechecked m.word) m)
  act_once_more :
      (m : Mutex) (t : ℕ) (w : Word) → m.phase t ≡ rechecked w → LockStep m (act_again t w m)
  read_value :
      (m : Mutex) (t v : ℕ)
      → m.phase t ≡ waits
      → m.value ≡ some v
      → LockStep m (goes t (enters v) m)
  wait_cancel :
      (m : Mutex) (t v : ℕ)
      → m.phase t ≡ enters v
      → m.running ≡ false
      → LockStep m (goes t canceled m)
  wait :
      (m : Mutex) (t v : ℕ)
      → m.phase t ≡ enters v
      → m.running ≡ true
      → LockStep m (goes t (enter m.value v) m)
  wake_up :
      (m : Mutex) (t : ℕ) → m.phase t ≡ sleeping → m.running ≡ false → LockStep m (goes t woken m)
  return_canceled :
      (m : Mutex) (t : ℕ) → m.phase t ≡ woken → m.running ≡ false → LockStep m (goes t canceled m)
  return_woken :
      (m : Mutex) (t : ℕ) → m.phase t ≡ woken → m.running ≡ true → LockStep m (goes t loops m)

-- try_lock by a task, also as await_ready.
pub data TryStep : Mutex → Mutex → Type 0 where
  try_lock :
      (m : Mutex) (t : ℕ) → m.phase t ≡ outside → TryStep m (exchange t free held owns outside m)
  await_ready :
      (m : Mutex) (t : ℕ) → m.phase t ≡ outside → TryStep m (exchange t free held owns awaits m)

-- LockAwaiter::await_suspend
pub data AwaitStep : Mutex → Mutex → Type 0 where
  try_first :
      (m : Mutex) (t : ℕ) → m.phase t ≡ awaits → AwaitStep m (exchange t free held owns marks m)
  mark :
      (m : Mutex) (t : ℕ)
      → m.phase t ≡ marks
      → AwaitStep m (goes t retries (record m { word = record m.word { has_waiters = true } }))
  try_second :
      (m : Mutex) (t : ℕ)
      → m.phase t ≡ retries
      → AwaitStep m (exchange t free held unmarks suspends m)
  unmark :
      (m : Mutex) (t : ℕ)
      → m.phase t ≡ unmarks
      → AwaitStep m (goes t owns (record m { word = record m.word { has_waiters = false } }))
  enqueue_waiter :
      (m : Mutex) (t : ℕ)
      → m.phase t ≡ suspends
      → AwaitStep m (goes t queued (record m { waiters = m.waiters ++ t ∷ [] }))

-- The state word without LOCKED.
abbrev pub unlocked : Mutex → Mutex
unlocked m = record m { word = record m.word { locked = false } }

-- unlock by a task that has the lock, or believes so.
pub data UnlockStep : Mutex → Mutex → Type 0 where
  hand_over :
      (m : Mutex) (t w : ℕ) (ws : List ℕ)
      → (m.phase t ≡ owns) ⊎ (m.phase t ≡ canceled)
      → m.waiters ≡ w ∷ ws
      → UnlockStep m (goes w owns (goes t outside (record m { waiters = ws })))
  find_none :
      (m : Mutex) (t : ℕ)
      → (m.phase t ≡ owns) ⊎ (m.phase t ≡ canceled)
      → m.waiters ≡ []
      → UnlockStep m (goes t unqueued m)
  look_pending :
      (m : Mutex) (t : ℕ)
      → m.phase t ≡ unqueued
      → UnlockStep m (goes t (if ltb 0 m.pending_wake then skips else releases) m)
  skip_wake : (m : Mutex) (t : ℕ) → m.phase t ≡ skips → UnlockStep m (goes t outside (unlocked m))
  release :
      (m : Mutex) (t : ℕ)
      → m.phase t ≡ releases
      → UnlockStep m (goes t (if m.word.has_waiters then wakes else outside) (unlocked m))
  count_in :
      (m : Mutex) (t : ℕ)
      → m.phase t ≡ wakes
      → UnlockStep m (
          goes t
            (elim m.value [ none ↦ counts_out | some v ↦ reads_value ])
            (record m { pending_wake = suc m.pending_wake }))
  value_read :
      (m : Mutex) (t v : ℕ)
      → m.phase t ≡ reads_value
      → m.value ≡ some v
      → UnlockStep m (goes t (sets_value v) m)
  set_value :
      (m : Mutex) (t v : ℕ)
      → m.phase t ≡ sets_value v
      → UnlockStep m (goes t calls_wake (record m { value = some (v + 1) }))
  wake_nobody :
      (m : Mutex) (t : ℕ)
      → m.phase t ≡ calls_wake
      → ((s : ℕ) → m.phase s ≢ sleeping)
      → UnlockStep m (goes t counts_out m)
  wake_one :
      (m : Mutex) (t s : ℕ)
      → m.phase t ≡ calls_wake
      → m.phase s ≡ sleeping
      → UnlockStep m (goes s woken (goes t counts_out m))
  count_out :
      (m : Mutex) (t : ℕ)
      → m.phase t ≡ counts_out
      → UnlockStep m (goes t outside (record m { pending_wake = m.pending_wake - 1 }))

-- A step of a task, or the shutdown of the scheduler.
pub data Step : Mutex → Mutex → Type 0 where
  locks : (m n : Mutex) → LockStep m n → Step m n
  tries : (m n : Mutex) → TryStep m n → Step m n
  awaiting : (m n : Mutex) → AwaitStep m n → Step m n
  unlocks : (m n : Mutex) → UnlockStep m n → Step m n
  shut_down : (m : Mutex) → Step m (record m { running = false })

-- The states after any number of steps.
pub data Reaches : Mutex → Mutex → Type 0 where
  here : (m : Mutex) → Reaches m m
  then' : (m n o : Mutex) → Reaches m n → Step n o → Reaches m o
