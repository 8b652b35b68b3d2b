-- ===== src/Mutex/Exclusion.antt =====
-- At most one task has the lock: what each step does to its possession.
use cothread.Prelude.{
  ℕ, ◌≡◌, refl, sym, ap, ◌∙◌, ◌≢◌, inl, inr, Bool, true, false, Option, none, some, arith, ltb,
  Bool-cases, Option-cases, update,
}
use cothread.Mutex.{
  Word, same_word, Phase, outside, fast, prepares, loops, loaded, noted, rechecked, waits, enters,
  woken, owns, canceled, unqueued, skips, releases, wakes, reads_value, sets_value, calls_wake,
  counts_out, awaits, marks, retries, unmarks, suspends, queued, Mutex, free, held, new_mutex, goes,
  exchange, act_on, act_again, enter, LockStep, look_free, look_held, try_fast, make_butex, load,
  act, load_again, act_once_more, read_value, wait_cancel, wait, wake_up, return_canceled,
  return_woken, TryStep, try_lock, await_ready, AwaitStep, try_first, mark, try_second, unmark,
  enqueue_waiter, UnlockStep, hand_over, find_none, look_pending, skip_wake, release, count_in,
  value_read, set_value, wake_nobody, wake_one, count_out, Step, locks, tries, awaiting, unlocks,
  shut_down, Reaches, here, then',
}
use cothread.Mutex.Owner.{
  has_lock, Change, keeps, acquires, gives_up, hands, both, Exclusive, outside≢canceled, false≢true,
  Change-Exclusive,
}

same_locked : (v w : Word) → same_word v w ≡ true → v.locked ≡ w.locked
same_locked v w h = ground arith

-- A task that has not got the lock goes somewhere else without it.
moves :
    (m n : Mutex) (t : ℕ) (p : Phase)
    → n.phase ≡ update m.phase t p
    → n.word.locked ≡ m.word.locked
    → has_lock (m.phase t) ≡ has_lock p
    → p ≢ canceled
    → Change m n
moves m n t p e l h c = keeps m n t p e l (sym h) c

module _ (m : Mutex) (t : ℕ) (expected desired : Word) (won lost : Phase)
    (b : has_lock (m.phase t) ≡ has_lock lost) (d : lost ≢ canceled) (c : won ≢ canceled) where
  exchange_acquires :
      expected.locked ≡ false
      → desired.locked ≡ true
      → Change m (exchange t expected desired won lost m)
  unfolding exchange
  exchange_acquires f g = elim (Bool-cases (same_word m.word expected)) [
    | inl s ↦ rw s (
        acquires m (goes t won (record m { word = desired })) t won refl
          (same_locked m.word expected s ∙ f) g c)
    | inr s ↦ rw s (keeps m (goes t lost m) t lost refl refl (sym b) d)
  ]

  exchange_keeps :
      expected.locked ≡ desired.locked
      → has_lock (m.phase t) ≡ has_lock won
      → Change m (exchange t expected desired won lost m)
  unfolding exchange
  exchange_keeps f g = elim (Bool-cases (same_word m.word expected)) [
    | inl s ↦ rw s (
        keeps m (goes t won (record m { word = desired })) t won refl
          (sym (same_locked m.word expected s ∙ f)) (sym g) c)
    | inr s ↦ rw s (keeps m (goes t lost m) t lost refl refl (sym b) d)
  ]

-- The acquisition by a task at `p`, whose exchange fails into `lost`.
takes :
    (m : Mutex) (t : ℕ) (p won lost : Phase)
    → m.phase t ≡ p
    → has_lock p ≡ has_lock lost
    → won ≢ canceled
    → lost ≢ canceled
    → Change m (exchange t free held won lost m)
takes m t p won lost h e c d =
    exchange_acquires m t free held won lost (ap has_lock h ∙ e) d c refl refl

act_on-Change :
    (m : Mutex) (t : ℕ) (w : Word) → has_lock (m.phase t) ≡ false → Change m (act_on t w m)
unfolding act_on
act_on-Change m t w h = bits w.locked w.has_waiters
  where
    bits : (l k : Bool) → Change m (act_on t (record { locked = l; has_waiters = k }) m)
    bits true true = keeps m (goes t noted m) t noted refl refl (sym h) (ground arith)
    bits true false =
        exchange_keeps m t held (record { locked = true; has_waiters = true }) noted loops h
          (ground arith) (ground arith) refl h
    bits false k =
        exchange_acquires m t (record { locked = false; has_waiters = k })
          (record { locked = true; has_waiters = k }) owns loops h (ground arith) (ground arith)
          refl refl

act_again-Change :
    (m : Mutex) (t : ℕ) (w : Word) → has_lock (m.phase t) ≡ false → Change m (act_again t w m)
unfolding act_again
act_again-Change m t w h = bits w.locked w.has_waiters
  where
    bits : (l k : Bool) → Change m (act_again t (record { locked = l; has_waiters = k }) m)
    bits true k = keeps m (goes t waits m) t waits refl refl (sym h) (ground arith)
    bits false k =
        exchange_acquires m t (record { locked = false; has_waiters = k })
          (record { locked = true; has_waiters = k }) owns loops h (ground arith) (ground arith)
          refl refl

enter-Change :
    (m : Mutex) (t v : ℕ) → has_lock (m.phase t) ≡ false → Change m (goes t (enter m.value v) m)
unfolding enter
enter-Change m t v h =
    keeps m (goes t (enter m.value v) m) t (enter m.value v) refl refl (waiting m.value ∙ sym h)
      (there' m.value)
  where
    waiting : (o : Option ℕ) → has_lock (enter o v) ≡ false
    waiting none = refl
    waiting (some w) = ground arith

    there' : (o : Option ℕ) → enter o v ≢ canceled
    there' none = ground arith
    there' (some w) = ground arith

LockStep-Change : (m n : Mutex) → LockStep m n → m.running ≡ true → Change m n
LockStep-Change m n (look_free _ t p w) r = keeps m n t fast refl refl (rw p refl) (ground arith)
LockStep-Change m n (look_held _ t p w) r =
    keeps m n t prepares refl refl (rw p refl) (ground arith)
LockStep-Change m n (try_fast _ t p) r =
    takes m t fast owns prepares p refl (ground arith) (ground arith)
LockStep-Change m n (make_butex _ t p) r = keeps m n t loops refl refl (rw p refl) (ground arith)
LockStep-Change m n (load _ t p) r =
    keeps m n t (loaded m.word) refl refl (rw p refl) (ground arith)
LockStep-Change m n (act _ t w p) r = act_on-Change m t w (rw p refl)
LockStep-Change m n (load_again _ t p) r =
    keeps m n t (rechecked m.word) refl refl (rw p refl) (ground arith)
LockStep-Change m n (act_once_more _ t w p) r = act_again-Change m t w (rw p refl)
LockStep-Change m n (read_value _ t v p q) r =
    keeps m n t (enters v) refl refl (rw p refl) (ground arith)
LockStep-Change m n (wait_cancel _ t v p q) r = absurd (false≢true (sym q ∙ r))
LockStep-Change m n (wait _ t v p q) r = enter-Change m t v (rw p refl)
LockStep-Change m n (wake_up _ t p q) r = absurd (false≢true (sym q ∙ r))
LockStep-Change m n (return_canceled _ t p q) r = absurd (false≢true (sym q ∙ r))
LockStep-Change m n (return_woken _ t p q) r =
    keeps m n t loops refl refl (rw p refl) (ground arith)

TryStep-Change : (m n : Mutex) → TryStep m n → Change m n
TryStep-Change m n (try_lock _ t p) =
    takes m t outside owns outside p refl (ground arith) (ground arith)
TryStep-Change m n (await_ready _ t p) =
    takes m t outside owns awaits p refl (ground arith) (ground arith)

AwaitStep-Change : (m n : Mutex) → AwaitStep m n → Change m n
AwaitStep-Change m n (try_first _ t p) =
    takes m t awaits owns marks p refl (ground arith) (ground arith)
AwaitStep-Change m n (mark _ t p) = keeps m n t retries refl refl (rw p refl) (ground arith)
AwaitStep-Change m n (try_second _ t p) =
    takes m t retries unmarks suspends p refl (ground arith) (ground arith)
AwaitStep-Change m n (unmark _ t p) = keeps m n t owns refl refl (rw p refl) (ground arith)
AwaitStep-Change m n (enqueue_waiter _ t p) =
    keeps m n t queued refl refl (rw p refl) (ground arith)

UnlockStep-Change : (m n : Mutex) → UnlockStep m n → ((t : ℕ) → m.phase t ≢ canceled) → Change m n
UnlockStep-Change m n (hand_over _ t w ws (inl p) q) c = hands m n t w refl (rw p refl) refl
UnlockStep-Change m n (hand_over _ t w ws (inr p) q) c = absurd (c t p)
UnlockStep-Change m n (find_none _ t (inl p) q) c =
    keeps m n t unqueued refl refl (rw p refl) (ground arith)
UnlockStep-Change m n (find_none _ t (inr p) q) c = absurd (c t p)
UnlockStep-Change m n (look_pending _ t p) c = elim (Bool-cases (ltb 0 m.pending_wake)) [
  | inl s ↦ rw s (keeps m (goes t skips m) t skips refl refl (rw p refl) (ground arith))
  | inr s ↦ rw s (keeps m (goes t releases m) t releases refl refl (rw p refl) (ground arith))
]
UnlockStep-Change m n (skip_wake _ t p) c =
    gives_up m n t outside refl (rw p refl) refl (ground arith)
UnlockStep-Change m n (release _ t p) c = elim (Bool-cases m.word.has_waiters) [
  | inl s ↦ gives_up m n t wakes (rw s refl) (rw p refl) refl (ground arith)
  | inr s ↦ gives_up m n t outside (rw s refl) (rw p refl) refl (ground arith)
]
UnlockStep-Change m n (count_in _ t p) c = elim (Option-cases m.value) [
  | inl s ↦ keeps m n t counts_out (rw s refl) refl (rw p refl) (ground arith)
  | inr (v, s) ↦ keeps m n t reads_value (rw s refl) refl (rw p refl) (ground arith)
]
UnlockStep-Change m n (value_read _ t v p q) c =
    keeps m n t (sets_value v) refl refl (rw p refl) (ground arith)
UnlockStep-Change m n (set_value _ t v p) c =
    keeps m n t calls_wake refl refl (rw p refl) (ground arith)
UnlockStep-Change m n (wake_nobody _ t p q) c =
    keeps m n t counts_out refl refl (rw p refl) (ground arith)
UnlockStep-Change m n (wake_one _ t s p q) c =
    let between = goes t counts_out m in
    both m between n (keeps m between t counts_out refl refl (rw p refl) (ground arith))
      (keeps between n s woken refl refl (ground (arith, q)) (ground arith))
UnlockStep-Change m n (count_out _ t p) c = keeps m n t outside refl refl (rw p refl) (ground arith)

running-goes : (t : ℕ) (p : Phase) (m : Mutex) → (goes t p m).running ≡ m.running
running-goes t p m = refl

running-exchange :
    (t : ℕ) (e d : Word) (won lost : Phase) (m : Mutex)
    → (exchange t e d won lost m).running ≡ m.running
unfolding exchange
running-exchange t e d won lost m = ground arith

LockStep-running : (m n : Mutex) → LockStep m n → n.running ≡ m.running
unfolding act_on act_again exchange
LockStep-running m n (look_free _ t p w) = refl
LockStep-running m n (look_held _ t p w) = refl
LockStep-running m n (try_fast _ t p) = ground arith
LockStep-running m n (make_butex _ t p) = refl
LockStep-running m n (load _ t p) = refl
LockStep-running m n (act _ t w p) = ground arith
LockStep-running m n (load_again _ t p) = refl
LockStep-running m n (act_once_more _ t w p) = ground arith
LockStep-running m n (read_value _ t v p q) = refl
LockStep-running m n (wait_cancel _ t v p q) = refl
LockStep-running m n (wait _ t v p q) = refl
LockStep-running m n (wake_up _ t p q) = refl
LockStep-running m n (return_canceled _ t p q) = refl
LockStep-running m n (return_woken _ t p q) = refl

Step-running : (m n : Mutex) → Step m n → n.running ≡ true → m.running ≡ true
unfolding exchange
Step-running m n (locks _ _ s) r = sym (LockStep-running m n s) ∙ r
Step-running m n (tries _ _ (try_lock _ t p)) r =
    sym (running-exchange t free held owns outside m) ∙ r
Step-running m n (tries _ _ (await_ready _ t p)) r =
    sym (running-exchange t free held owns awaits m) ∙ r
Step-running m n (awaiting _ _ (try_first _ t p)) r =
    sym (running-exchange t free held owns marks m) ∙ r
Step-running m n (awaiting _ _ (mark _ t p)) r = r
Step-running m n (awaiting _ _ (try_second _ t p)) r =
    sym (running-exchange t free held unmarks suspends m) ∙ r
Step-running m n (awaiting _ _ (unmark _ t p)) r = r
Step-running m n (awaiting _ _ (enqueue_waiter _ t p)) r = r
Step-running m n (unlocks _ _ (hand_over _ t w ws p q)) r = r
Step-running m n (unlocks _ _ (find_none _ t p q)) r = r
Step-running m n (unlocks _ _ (look_pending _ t p)) r = r
Step-running m n (unlocks _ _ (skip_wake _ t p)) r = r
Step-running m n (unlocks _ _ (release _ t p)) r = r
Step-running m n (unlocks _ _ (count_in _ t p)) r = r
Step-running m n (unlocks _ _ (value_read _ t v p q)) r = r
Step-running m n (unlocks _ _ (set_value _ t v p)) r = r
Step-running m n (unlocks _ _ (wake_nobody _ t p q)) r = r
Step-running m n (unlocks _ _ (wake_one _ t s p q)) r = r
Step-running m n (unlocks _ _ (count_out _ t p)) r = r
Step-running m n (shut_down _) r = ground (arith, r)

Step-Exclusive : (m n : Mutex) → Step m n → n.running ≡ true → Exclusive m → Exclusive n
Step-Exclusive m n (locks _ _ s) r v =
    Change-Exclusive m n (LockStep-Change m n s (Step-running m n (locks m n s) r)) v
Step-Exclusive m n (tries _ _ s) r v = Change-Exclusive m n (TryStep-Change m n s) v
Step-Exclusive m n (awaiting _ _ s) r v = Change-Exclusive m n (AwaitStep-Change m n s) v
Step-Exclusive m n (unlocks _ _ s) r v =
    Change-Exclusive m n (UnlockStep-Change m n s v.not_canceled) v
Step-Exclusive m n (shut_down _) r v = ground (arith, r)

-- However the steps of any number of bthreads and coroutines interleave, as long as the scheduler runs:
-- at most one task has the lock, LOCKED is set while one has it, and no lock() returned without it. Steps
-- of threads that are no workers are not among these.
pub Reaches-Exclusive : (m : Mutex) → Reaches new_mutex m → m.running ≡ true → Exclusive m
Reaches-Exclusive m (here _) r = record {
  one = λ t u x y. absurd (false≢true x);
  locked = λ t x. absurd (false≢true x);
  not_canceled = λ t. outside≢canceled;
}
Reaches-Exclusive m (then' _ k _ q s) r =
    Step-Exclusive k m s r (Reaches-Exclusive k q (Step-running k m s r))
