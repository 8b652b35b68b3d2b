-- ===== src/Timer/Shard/Account.antt =====
-- Which timers ProcessShard runs, drops and keeps, when nothing else touches the shard meanwhile.
use mathlib.Core.Option
use cothread.Prelude.{
  ℕ, zero, suc, ◌≤◌, ◌<◌, ◌≡◌, refl, sym, ap, ◌∙◌, inl, inr, Bool, true, false, not, ◌&&◌, Option,
  some, List, [], ◌∷◌, arith, ltb, leb, Bool-cases, length, All, get_or, tally,
}
use cothread.Timer.Heap.{TimerEntry, deadline_at, shard_pop_from_heap}
use cothread.Timer.Heap.Order.{IsHeap, root_earliest}
use cothread.Timer.Heap.Down.{shard_pop_from_heap-IsHeap}
use cothread.Timer.Shard.{
  Shard, drop_root, expire_root, process_loop, refresh_deadline, process_shard,
}
use cothread.Timer.Shard.Process.{
  is_due, none_due, due_popped, heap-drop_root, heap-expire_root, heap-refresh_deadline, loop_empty,
  loop_late, loop_cancelled, loop_expired,
}

-- Callbacks that leave the shard alone.
abbrev pub quiet : TimerEntry → Shard → Shard
quiet e s = s

abbrev pub is_live : ℕ → TimerEntry → Bool
is_live now e = is_due now e && not e.cancelled

abbrev pub is_later : ℕ → TimerEntry → Bool
is_later now e = not (is_due now e)

-- Deadlines do not fall along the list, nor below the bound.
abbrev pub Ascending : ℕ → List TimerEntry → Type 0
Ascending b [] = Unit
Ascending b (e ∷ es) = (b ≤ e.deadline_us) × Ascending e.deadline_us es

-- How many entries fall before a deadline: none, in the heaps below.
abbrev pub early : ℕ → List TimerEntry → ℕ
early b = tally (λ e. ltb e.deadline_us b)

pub record Accounts (now b : ℕ) (heap : List TimerEntry) (r : Option (List TimerEntry × Shard))
    : Type 0 where
  pub fired : List TimerEntry
  pub left : Shard
  pub returns : r ≡ some (fired, left)
  pub run_all : (p : TimerEntry → Bool) → tally p fired ≡ tally (λ e. p e && is_live now e) heap
  pub keep_all :
      (p : TimerEntry → Bool) → tally p left.heap ≡ tally (λ e. p e && is_later now e) heap
  pub ascending : Ascending b fired

pub bounded_below :
    (b : ℕ) (heap : List TimerEntry)
    → ((i : ℕ) → i < length heap → b ≤ deadline_at heap i)
    → All (λ e. b ≤ e.deadline_us) heap
unfolding get_or
bounded_below b [] h = tt
bounded_below b (x ∷ heap) h =
    (h 0 (omega arith), bounded_below b heap (λ i p. h (suc i) (omega arith)))

late_tallies :
    (now : ℕ) (heap : List TimerEntry) (p : TimerEntry → Bool)
    → All (λ e. now < e.deadline_us) heap
    → (tally (λ e. p e && is_live now e) heap ≡ 0)
      × (tally (λ e. p e && is_later now e) heap ≡ tally p heap)
unfolding tally
late_tallies now [] p a = (refl, refl)
late_tallies now (x ∷ heap) p a =
    let late : leb x.deadline_us now ≡ false = ground arith in
    let (none_live, all_later) = late_tallies now heap p a.1 in ground arith

pub none_early :
    (b : ℕ) (heap : List TimerEntry) → All (λ e. b ≤ e.deadline_us) heap → early b heap ≡ 0
unfolding tally
none_early b [] a = refl
none_early b (x ∷ heap) a = ground (arith, none_early b heap a.1)

pub root_bounds :
    (x : TimerEntry) (heap : List TimerEntry)
    → IsHeap (x ∷ heap)
    → early x.deadline_us (x ∷ heap) ≡ 0
unfolding get_or
root_bounds x heap h =
    none_early x.deadline_us (x ∷ heap)
      (bounded_below x.deadline_us (x ∷ heap) (λ i p. root_earliest (x ∷ heap) i h p))

not_early :
    (b : ℕ) (x : TimerEntry) (heap : List TimerEntry) → early b (x ∷ heap) ≡ 0 → b ≤ x.deadline_us
unfolding tally
not_early b x heap e = ground arith

Ascending-weaken : (b c : ℕ) (es : List TimerEntry) → b ≤ c → Ascending c es → Ascending b es
Ascending-weaken b c [] h a = tt
Ascending-weaken b c (e ∷ es) h a = (omega arith, a.1)

-- After the root is taken, no entry comes before it.
popped_bounds :
    (x : TimerEntry) (heap : List TimerEntry)
    → IsHeap (x ∷ heap)
    → early x.deadline_us (shard_pop_from_heap (x ∷ heap)) ≡ 0
unfolding tally
popped_bounds x heap h = ground (
  arith,
  root_bounds x heap h,
  (shard_pop_from_heap-IsHeap x heap h).1 (λ e. ltb e.deadline_us x.deadline_us),
)

Accounts-late :
    (now b : ℕ) (s : Shard) (heap : List TimerEntry)
    → s.heap ≡ heap
    → ((i : ℕ) → i < length heap → now < deadline_at heap i)
    → Accounts now b heap (some ([], s))
unfolding tally
Accounts-late now b s heap e l = record {
  fired = [];
  left = s;
  returns = refl;
  run_all = λ p. sym (late_tallies now heap p (bounded_below (suc now) heap l)).0;
  keep_all = λ p. rw e (sym (late_tallies now heap p (bounded_below (suc now) heap l)).1);
  ascending = tt;
}

module _ (now b : ℕ) (x : TimerEntry) (heap : List TimerEntry) (h : IsHeap (x ∷ heap))
    (due : leb x.deadline_us now ≡ true) where
  abbrev rest : List TimerEntry
  rest = shard_pop_from_heap (x ∷ heap)

  Accounts-cancelled :
      (r : Option (List TimerEntry × Shard))
      → x.cancelled ≡ true
      → b ≤ x.deadline_us
      → Accounts now x.deadline_us rest r
      → Accounts now b (x ∷ heap) r
  unfolding tally
  Accounts-cancelled r off lo t = record {
    fired = t.fired;
    left = t.left;
    returns = t.returns;
    run_all = λ p.
        ground
          (arith, t.run_all p, (shard_pop_from_heap-IsHeap x heap h).1 (λ e. p e && is_live now e));
    keep_all = λ p.
        ground (
          arith,
          t.keep_all p,
          (shard_pop_from_heap-IsHeap x heap h).1 (λ e. p e && is_later now e),
        );
    ascending = Ascending-weaken b x.deadline_us t.fired lo t.ascending;
  }

  Accounts-fired :
      (r : Option (List TimerEntry × Shard))
      → x.cancelled ≡ false
      → b ≤ x.deadline_us
      → Accounts now x.deadline_us rest r
      → Accounts now b (x ∷ heap) (Option.map (λ q. (x ∷ q.0, q.1)) r)
  unfolding tally
  Accounts-fired r on lo t = record {
    fired = x ∷ t.fired;
    left = t.left;
    returns = ap (Option.map (λ q. (x ∷ q.0, q.1))) t.returns;
    run_all = λ p.
        ground
          (arith, t.run_all p, (shard_pop_from_heap-IsHeap x heap h).1 (λ e. p e && is_live now e));
    keep_all = λ p.
        ground (
          arith,
          t.keep_all p,
          (shard_pop_from_heap-IsHeap x heap h).1 (λ e. p e && is_later now e),
        );
    ascending = (lo, t.ascending);
  }

process_loop-Accounts :
    (fuel now b : ℕ) (s : Shard) (heap : List TimerEntry)
    → s.heap ≡ heap
    → IsHeap heap
    → early b heap ≡ 0
    → tally (is_due now) heap < fuel
    → Accounts now b heap (process_loop fuel now quiet s)
process_loop-Accounts zero now b s heap e h lo f = absurd (omega arith)
process_loop-Accounts (suc fuel) now b s [] e h lo f =
    rw (loop_empty fuel now quiet s e) (Accounts-late now b s [] e (λ i p. absurd (omega arith)))
process_loop-Accounts (suc fuel) now b s (x ∷ heap) e h lo f =
    elim (Bool-cases (leb x.deadline_us now)) [
      | inr late ↦
          rw (loop_late fuel now quiet s x heap e late)
            (Accounts-late now b s (x ∷ heap) e (none_due now x heap h late))
      | inl due ↦
          let popped = shard_pop_from_heap-IsHeap x heap h in
          let fewer = due_popped now x heap h due in
          let after = popped_bounds x heap h in
          elim (Bool-cases x.cancelled) [
            | inl off ↦ rw (loop_cancelled fuel now quiet s x heap e due off) (
                Accounts-cancelled now b x heap h due _ off (not_early b x heap lo) (
                  process_loop-Accounts fuel now x.deadline_us (drop_root x s) _
                    (heap-drop_root x s heap e) popped.0 after (omega arith)))
            | inr on ↦ rw (loop_expired fuel now quiet s x heap e due on) (
                Accounts-fired now b x heap h due _ on (not_early b x heap lo) (
                  process_loop-Accounts fuel now x.deadline_us (expire_root x s) _
                    (heap-expire_root x s heap e) popped.0 after (omega arith)))
          ]
    ]

never_early : (heap : List TimerEntry) → early 0 heap ≡ 0
unfolding tally
never_early [] = refl
never_early (x ∷ heap) = ground (arith, never_early heap)

-- With callbacks that leave the shard alone, the timers that run are those that were due and not
-- cancelled, each as often as it stood in the heap and in the order of their deadlines; the timers
-- that stay are those that were not due.
pub process_shard-Accounts :
    (fuel now : ℕ) (s : Shard)
    → IsHeap s.heap
    → tally (is_due now) s.heap < fuel
    → Accounts now 0 s.heap (process_shard fuel now quiet s)
unfolding process_shard
process_shard-Accounts fuel now s h f =
    let t = process_loop-Accounts fuel now 0 s s.heap refl h (never_early s.heap) f in
    record {
      fired = t.fired;
      left = refresh_deadline t.left;
      returns = ap (Option.map (λ r. (r.0, refresh_deadline r.1))) t.returns;
      run_all = t.run_all;
      keep_all = λ p. ap (tally p) (heap-refresh_deadline t.left) ∙ t.keep_all p;
      ascending = t.ascending;
    }
