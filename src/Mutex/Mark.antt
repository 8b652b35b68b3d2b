-- ===== src/Mutex/Mark.antt =====
-- HAS_WAITERS stays.
use cothread.Prelude.{
  ℕ, ◌≡◌, refl, sym, ap, subst, ◌∙◌, ◌≢◌, inl, inr, Bool, true, false, Option, none, some, arith,
  ℕ_discrete, ltb, if◌then◌else◌, Bool-cases, Option-cases, update, update_self, update_ne, set,
}
use cothread.Mutex.{
  Word, same_word, Phase, outside, fast, prepares, loops, loaded, noted, rechecked, waits, enters,
  woken, owns, canceled, unqueued, skips, releases, wakes, reads_value, sets_value, calls_wake,
  counts_out, awaits, marks, retries, unmarks, suspends, queued, Mutex, free, held, new_mutex, goes,
  exchange, act_on, act_again, enter, LockStep, look_free, look_held, try_fast, make_butex, load,
  act, load_again, act_once_more, read_value, wait_cancel, wait, wake_up, return_canceled,
  return_woken, TryStep, try_lock, await_ready, AwaitStep, try_first, mark, try_second, unmark,
  enqueue_waiter, UnlockStep, hand_over, find_none, look_pending, skip_wake, release, count_in,
  value_read, set_value, wake_nobody, wake_one, count_out, Step, locks, tries, awaiting, unlocks,
  shut_down, Reaches, here, then',
}

-- No task is about to clear the mark, and one that has set it finds it set.
abbrev Fine : Phase → Bool → Type 0
Fine p set = (p ≢ unmarks) × (p ≡ retries → set ≡ true)

-- The other places.
abbrev plain : Phase → Bool
plain retries = false
plain unmarks = false
plain _ = true

plain-Fine : (p : Phase) (set : Bool) → plain p ≡ true → Fine p set
plain-Fine p set h = (λ e. ground (arith, h, e), λ e. ground (arith, h, e))

-- The mark and the places after steps, from those before.
record Keeps (m n : Mutex) : Type 0 where
  stays : m.word.has_waiters ≡ true → n.word.has_waiters ≡ true
  fine :
      ((u : ℕ) → Fine (m.phase u) m.word.has_waiters)
      → (u : ℕ) → Fine (n.phase u) n.word.has_waiters

Keeps-trans : (m n o : Mutex) → Keeps m n → Keeps n o → Keeps m o
Keeps-trans m n o k l = record { stays = λ h. l.stays (k.stays h); fine = λ f. l.fine (k.fine f) }

-- One task goes on.
Keeps-goes :
    (m n : Mutex) (t : ℕ) (p : Phase)
    → n.phase ≡ update m.phase t p
    → (m.word.has_waiters ≡ true → n.word.has_waiters ≡ true)
    → Fine p n.word.has_waiters
    → Keeps m n
Keeps-goes m n t p e k f = record {
  stays = k;
  fine = λ g u. elim (ℕ_discrete t u) [
    | yes s ↦
        subst (λ q. Fine q n.word.has_waiters)
          (sym (ap (λ h. h u) e ∙ ap (update m.phase t p) (sym s) ∙ update_self m.phase t p)) f
    | no d ↦
        let (a, b) = g u in
        subst (λ q. Fine q n.word.has_waiters) (sym (ap (λ h. h u) e ∙ update_ne m.phase t u p d))
          (a, λ r. k (b r))
  ];
}

same_mark : (v w : Word) → same_word v w ≡ true → v.has_waiters ≡ w.has_waiters
same_mark v w h = ground arith

-- An exchange that does not clear the mark.
Keeps-exchange :
    (m : Mutex) (t : ℕ) (e d : Word) (won lost : Phase)
    → (e.has_waiters ≡ true → d.has_waiters ≡ true)
    → plain won ≡ true
    → plain lost ≡ true
    → Keeps m (exchange t e d won lost m)
unfolding exchange
Keeps-exchange m t e d won lost k a b = elim (Bool-cases (same_word m.word e)) [
  | inl s ↦ rw s (
      Keeps-goes m (goes t won (record m { word = d })) t won refl
        (λ h. k (sym (same_mark m.word e s) ∙ h)) (plain-Fine won d.has_waiters a))
  | inr s ↦
      rw s
        (Keeps-goes m (goes t lost m) t lost refl (λ h. h) (plain-Fine lost m.word.has_waiters b))
]

Keeps-free :
    (m : Mutex) (t : ℕ) (won lost : Phase)
    → plain won ≡ true
    → plain lost ≡ true
    → Keeps m (exchange t free held won lost m)
Keeps-free m t won lost a b = Keeps-exchange m t free held won lost (λ h. h) a b

Keeps-other :
    (m n : Mutex) (t : ℕ) (p : Phase)
    → n.phase ≡ update m.phase t p
    → n.word.has_waiters ≡ m.word.has_waiters
    → plain p ≡ true
    → Keeps m n
Keeps-other m n t p e w a = Keeps-goes m n t p e (λ h. w ∙ h) (plain-Fine p n.word.has_waiters a)

act_on-Keeps : (m : Mutex) (t : ℕ) (w : Word) → Keeps m (act_on t w m)
unfolding act_on
act_on-Keeps m t w = bits w.locked w.has_waiters
  where
    bits : (l k : Bool) → Keeps m (act_on t (record { locked = l; has_waiters = k }) m)
    bits true true = Keeps-other m (goes t noted m) t noted refl refl refl
    bits true false =
        Keeps-exchange m t held (record { locked = true; has_waiters = true }) noted loops
          (λ h. refl) refl refl
    bits false k =
        Keeps-exchange m t (record { locked = false; has_waiters = k })
          (record { locked = true; has_waiters = k }) owns loops (λ h. h) refl refl

act_again-Keeps : (m : Mutex) (t : ℕ) (w : Word) → Keeps m (act_again t w m)
unfolding act_again
act_again-Keeps m t w = bits w.locked w.has_waiters
  where
    bits : (l k : Bool) → Keeps m (act_again t (record { locked = l; has_waiters = k }) m)
    bits true k = Keeps-other m (goes t waits m) t waits refl refl refl
    bits false k =
        Keeps-exchange m t (record { locked = false; has_waiters = k })
          (record { locked = true; has_waiters = k }) owns loops (λ h. h) refl refl

enter-plain : (o : Option ℕ) (v : ℕ) → plain (enter o v) ≡ true
unfolding enter
enter-plain none v = refl
enter-plain (some w) v = ground arith

LockStep-Keeps : (m n : Mutex) → LockStep m n → Keeps m n
LockStep-Keeps m n (look_free _ t p w) = Keeps-other m n t fast refl refl refl
LockStep-Keeps m n (look_held _ t p w) = Keeps-other m n t prepares refl refl refl
LockStep-Keeps m n (try_fast _ t p) = Keeps-free m t owns prepares refl refl
LockStep-Keeps m n (make_butex _ t p) = Keeps-other m n t loops refl refl refl
LockStep-Keeps m n (load _ t p) = Keeps-other m n t (loaded m.word) refl refl refl
LockStep-Keeps m n (act _ t w p) = act_on-Keeps m t w
LockStep-Keeps m n (load_again _ t p) = Keeps-other m n t (rechecked m.word) refl refl refl
LockStep-Keeps m n (act_once_more _ t w p) = act_again-Keeps m t w
LockStep-Keeps m n (read_value _ t v p q) = Keeps-other m n t (enters v) refl refl refl
LockStep-Keeps m n (wait_cancel _ t v p q) = Keeps-other m n t canceled refl refl refl
LockStep-Keeps m n (wait _ t v p q) =
    Keeps-other m n t (enter m.value v) refl refl (enter-plain m.value v)
LockStep-Keeps m n (wake_up _ t p q) = Keeps-other m n t woken refl refl refl
LockStep-Keeps m n (return_canceled _ t p q) = Keeps-other m n t canceled refl refl refl
LockStep-Keeps m n (return_woken _ t p q) = Keeps-other m n t loops refl refl refl

TryStep-Keeps : (m n : Mutex) → TryStep m n → Keeps m n
TryStep-Keeps m n (try_lock _ t p) = Keeps-free m t owns outside refl refl
TryStep-Keeps m n (await_ready _ t p) = Keeps-free m t owns awaits refl refl

-- The second try_lock cannot succeed: the mark is set, so the word is not 0.
AwaitStep-Keeps :
    (m n : Mutex) → AwaitStep m n → ((u : ℕ) → Fine (m.phase u) m.word.has_waiters) → Keeps m n
unfolding exchange
AwaitStep-Keeps m n (try_first _ t p) f = Keeps-free m t owns marks refl refl
AwaitStep-Keeps m n (mark _ t p) f =
    Keeps-goes m n t retries refl (λ h. refl) (ground arith, λ e. refl)
AwaitStep-Keeps m n (try_second _ t p) f =
    let h = (f t).1 p in
    let other : same_word m.word free ≡ false = ground (arith, h) in
    rw other (Keeps-other m (goes t suspends m) t suspends refl refl refl)
AwaitStep-Keeps m n (unmark _ t p) f = absurd ((f t).0 p)
AwaitStep-Keeps m n (enqueue_waiter _ t p) f = Keeps-other m n t queued refl refl refl

if_plain :
    (b : Bool) (p q : Phase) → plain p ≡ true → plain q ≡ true → plain (if b then p else q) ≡ true
if_plain b p q h k = ground (arith, h, k)

UnlockStep-Keeps : (m n : Mutex) → UnlockStep m n → Keeps m n
UnlockStep-Keeps m n (hand_over _ t w ws p q) =
    let between = goes t outside (record m { waiters = ws }) in
    Keeps-trans m between n (Keeps-other m between t outside refl refl refl)
      (Keeps-other between n w owns refl refl refl)
UnlockStep-Keeps m n (find_none _ t p q) = Keeps-other m n t unqueued refl refl refl
UnlockStep-Keeps m n (look_pending _ t p) =
    Keeps-other m n t (if ltb 0 m.pending_wake then skips else releases) refl refl
      (if_plain (ltb 0 m.pending_wake) skips releases refl refl)
UnlockStep-Keeps m n (skip_wake _ t p) = Keeps-other m n t outside refl refl refl
UnlockStep-Keeps m n (release _ t p) =
    Keeps-other m n t (if m.word.has_waiters then wakes else outside) refl refl
      (if_plain m.word.has_waiters wakes outside refl refl)
UnlockStep-Keeps m n (count_in _ t p) = elim (Option-cases m.value) [
  | inl s ↦ Keeps-other m n t counts_out (rw s refl) refl refl
  | inr (v, s) ↦ Keeps-other m n t reads_value (rw s refl) refl refl
]
UnlockStep-Keeps m n (value_read _ t v p q) = Keeps-other m n t (sets_value v) refl refl refl
UnlockStep-Keeps m n (set_value _ t v p) = Keeps-other m n t calls_wake refl refl refl
UnlockStep-Keeps m n (wake_nobody _ t p q) = Keeps-other m n t counts_out refl refl refl
UnlockStep-Keeps m n (wake_one _ t s p q) =
    let between = goes t counts_out m in
    Keeps-trans m between n (Keeps-other m between t counts_out refl refl refl)
      (Keeps-other between n s woken refl refl refl)
UnlockStep-Keeps m n (count_out _ t p) = Keeps-other m n t outside refl refl refl

Step-Keeps : (m n : Mutex) → Step m n → ((u : ℕ) → Fine (m.phase u) m.word.has_waiters) → Keeps m n
Step-Keeps m n (locks _ _ s) f = LockStep-Keeps m n s
Step-Keeps m n (tries _ _ s) f = TryStep-Keeps m n s
Step-Keeps m n (awaiting _ _ s) f = AwaitStep-Keeps m n s f
Step-Keeps m n (unlocks _ _ s) f = UnlockStep-Keeps m n s
Step-Keeps m n (shut_down _) f = record { stays = λ h. h; fine = λ g. g }

Reaches-Keeps :
    (m n : Mutex) → Reaches m n → ((u : ℕ) → Fine (m.phase u) m.word.has_waiters) → Keeps m n
Reaches-Keeps m n (here _) f = record { stays = λ h. h; fine = λ g. g }
Reaches-Keeps m n (then' _ k _ r s) f =
    let q = Reaches-Keeps m k r f in Keeps-trans m k n q (Step-Keeps k n s (q.fine f))

-- Once HAS_WAITERS is set it stays set, whatever tasks do, and from then on no try_lock by a task gets the
-- lock, not even while nobody has it.
pub Reaches-marked :
    (m n : Mutex)
    → Reaches new_mutex m
    → m.word.has_waiters ≡ true
    → Reaches m n
    → (n.word.has_waiters ≡ true)
      × ((t : ℕ) (won lost : Phase) → exchange t free held won lost n ≡ goes t lost n)
unfolding exchange
Reaches-marked m n q h r =
    let start = plain-Fine outside false refl in
    let k = Reaches-Keeps m n r ((Reaches-Keeps new_mutex m q (λ u. start)).fine (λ u. start)) in
    let still = k.stays h in
    let other : same_word n.word free ≡ false = ground (arith, still) in
    (still, λ t won lost. rw other refl)
