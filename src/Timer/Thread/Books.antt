-- ===== src/Timer/Thread/Books.antt =====
-- What Schedule, Cancel and ProcessShard do to a shard: no timer escapes next_deadline.
use mathlib.Core.Option
use cothread.Prelude.{
  ℕ, zero, suc, ◌+◌, ◌≤◌, ◌<◌, ◌≡◌, refl, sym, ap, subst, inl, inr, Bool, true, false, not, ◌&&◌,
  Option, none, some, List, [], ◌∷◌, arith, ltb, ◌==◌, if◌then◌else◌, tests, Bool-cases, length,
  get_or, tally,
}
use cothread.Timer.Heap.{TimerEntry, deadline_at}
use cothread.Timer.Heap.Order.{IsHeap}
use cothread.Timer.Heap.Up.{push_entry-IsHeap}
use cothread.Timer.Shard.{Shard, process_shard}
use cothread.Timer.Shard.Account.{early, root_bounds}
use cothread.Timer.Shard.Process.{is_due, IsCalm, process_shard-Ends}
use cothread.Timer.Thread.{insert_entry, mark_cancelled}

-- The heap is one, and no timer in it is due before next_deadline: a round that passes the shard by
-- misses no timer.
pub record IsWatched (s : Shard) : Type 0 where
  pub ordered : IsHeap s.heap
  pub none_early : early s.next_deadline s.heap ≡ 0

early_mono : (b c : ℕ) (heap : List TimerEntry) → b ≤ c → early c heap ≡ 0 → early b heap ≡ 0
unfolding tally
early_mono b c [] h e = refl
early_mono b c (x ∷ heap) h e = ground (arith, early_mono b c heap h)

-- Adding an entry to a watched shard keeps it watched, and adds that entry to its heap.
pub insert_entry-IsWatched :
    (e : TimerEntry) (s : Shard)
    → IsWatched s
    → IsWatched (insert_entry e s)
      × ((p : TimerEntry → Bool)
          → tally p (insert_entry e s).heap ≡ tally p s.heap + (if p e then 1 else 0))
unfolding insert_entry tally
insert_entry-IsWatched e s v =
    let (heaped, same) = push_entry-IsHeap e s.heap v.ordered in
    (
      record {
        ordered = heaped;
        none_early = elim (Bool-cases (ltb e.deadline_us s.next_deadline)) [
          | inl sooner ↦ rw sooner (
              ground (
                arith,
                same (λ x. ltb x.deadline_us e.deadline_us),
                early_mono e.deadline_us s.next_deadline s.heap (omega tests) v.none_early,
              ))
          | inr later ↦
              rw later (ground (arith, same (λ x. ltb x.deadline_us s.next_deadline), v.none_early))
        ];
      },
      λ p. omega (arith, same p),
    )

fresh_early :
    (d : ℕ) (heap : List TimerEntry)
    → IsHeap heap
    → ((x : TimerEntry) (rest : List TimerEntry) → heap ≡ x ∷ rest → d ≡ x.deadline_us)
    → early d heap ≡ 0
unfolding tally
fresh_early d [] h v = refl
fresh_early d (x ∷ heap) h v =
    subst (λ y. early y (x ∷ heap) ≡ 0) (sym (v x heap refl)) (root_bounds x heap h)

-- ProcessShard leaves a watched shard, whatever next_deadline was.
process_shard-IsWatched :
    (fuel now : ℕ) (effect : TimerEntry → Shard → Shard) (s : Shard)
    → IsCalm now effect
    → IsHeap s.heap
    → tally (is_due now) s.heap < fuel
    → (fired : List TimerEntry) × (left : Shard) × (process_shard fuel now effect s
        ≡ some (fired, left))
      × IsWatched left
process_shard-IsWatched fuel now effect s c h f =
    let (t, fresh) = process_shard-Ends fuel now effect s c h f in
    (
      t.fired,
      t.left,
      t.returns,
      record {
        ordered = t.ordered;
        none_early = fresh_early t.left.next_deadline t.left.heap t.ordered fresh;
      },
    )

abbrev pub has_id : ℕ → TimerEntry → Bool
has_id id e = e.id == id

-- Not cancelled, with the id.
abbrev pub armed : ℕ → TimerEntry → Bool
armed id e = e.id == id && not e.cancelled

-- What the search of a heap gives: nothing, if no entry has the id; else the same entries but for
-- the mark on one of them.
pub data Marks (id : ℕ) (heap : List TimerEntry) : Option (List TimerEntry) → Type 0 where
  absent : tally (has_id id) heap ≡ 0 → Marks id heap none
  marked :
      {after : List TimerEntry}
      → tally (armed id) after < tally (has_id id) heap
      → length after ≡ length heap
      → ((i : ℕ) → deadline_at after i ≡ deadline_at heap i)
      → Marks id heap (some after)

deadline_at-cons :
    (e d : TimerEntry) (a b : List TimerEntry)
    → e.deadline_us ≡ d.deadline_us
    → ((i : ℕ) → deadline_at a i ≡ deadline_at b i)
    → (i : ℕ) → deadline_at (e ∷ a) i ≡ deadline_at (d ∷ b) i
unfolding get_or
deadline_at-cons e d a b h same zero = h
deadline_at-cons e d a b h same (suc i) = same i

pub armed-le : (id : ℕ) (heap : List TimerEntry) → tally (armed id) heap ≤ tally (has_id id) heap
unfolding tally
armed-le id [] = omega arith
armed-le id (e ∷ heap) = ground (arith, armed-le id heap)

mark_cons :
    (id : ℕ) (e : TimerEntry) (heap : List TimerEntry) (r : Option (List TimerEntry))
    → (e.id == id) ≡ false
    → Marks id heap r
    → Marks id (e ∷ heap) (Option.map (◌∷◌ e) r)
unfolding tally
mark_cons id e heap r ne (absent z) = absent (ground arith)
mark_cons id e heap r ne (marked lt size same) =
    marked (ground arith) (ap suc size) (deadline_at-cons e e _ heap refl same)

pub mark_cancelled-Marks :
    (id : ℕ) (heap : List TimerEntry) → Marks id heap (mark_cancelled id heap)
unfolding mark_cancelled tally
mark_cancelled-Marks id [] = absent refl
mark_cancelled-Marks id (e ∷ heap) = elim (Bool-cases (e.id == id)) [
  | inl hit ↦ rw hit (
      marked (ground (arith, armed-le id heap)) refl
        (deadline_at-cons (record e { cancelled = true }) e heap heap refl (λ i. refl)))
  | inr miss ↦ rw miss (mark_cons id e heap _ miss (mark_cancelled-Marks id heap))
]
