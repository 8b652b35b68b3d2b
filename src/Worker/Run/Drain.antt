-- ===== src/Worker/Run/Drain.antt =====
-- The loop after the stop: how many tasks it runs, and what it leaves.
use mathlib.Core.List.{reverse}
use cothread.Prelude.{
  ℕ, zero, suc, ◌+◌, ◌≤◌, ◌≡◌, refl, sym, ap, subst, inl, inr, Option, none, some, List, [], ◌∷◌,
  arith, Option-cases, length, drop, length-append, length-take, length-drop,
}
use cothread.Task.{TaskMeta}
use cothread.TaskGroup.{TaskGroup}
use cothread.StealQueue.Ring
use cothread.Worker.{
  Worker, batch_size, pick_local, release_task_meta, handle_finished_bthread, handle_task_after_run,
}
use cothread.Worker.Run.{
  World, Picked, picks, pick_after, pick_task, begin_task, woken_by, end_task, serve, Drained,
  drained, and_before, drain, drain_limit,
}
use cothread.Worker.Run.Pick.{PicksLocal, top, refilled, bare, pick_local-Picks}

-- The worker has at least `n` tasks in its batch and its queue.
pub record Has (n : ℕ) (w : Worker) : Type 0 where
  pub queued : List ℕ
  pub queue : Ring.Holds w.local_queue (reverse queued)
  pub total : n ≤ w.batch_count + length queued

-- What a task does, or the waking of its joiners, may queue tasks on the worker and takes none away.
abbrev pub Keeps : (ℕ → World → World) → Type 0
Keeps act = (n i : ℕ) (v : World) → Has n v.worker → Has n (act i v).worker

Has-cong :
    (n : ℕ) (u w : Worker)
    → u.local_queue ≡ w.local_queue
    → u.batch_count ≡ w.batch_count
    → Has n w
    → Has n u
Has-cong n u w q b h = record {
  queued = h.queued;
  queue = subst (λ x. Ring.Holds x (reverse h.queued)) (sym q) h.queue;
  total = omega (arith, h.total, b);
}

-- A pick from a worker that has a task.
data TakesOne (n : ℕ) : Option ℕ × Worker → Type 0 where
  takes_one : (task : ℕ) (u : Worker) → Has n u → TakesOne n (some task, u)

local_takes :
    (n : ℕ) (w : Worker) (h : Has (suc n) w) (r : Option ℕ × Worker)
    → PicksLocal w h.queued r
    → TakesOne n r
local_takes n w h _ (top k e) =
    takes_one _ _ (record { queued = h.queued; queue = h.queue; total = omega (arith, h.total, e) })
local_takes n w h _ (refilled ts task u e t i c p q) = takes_one task u (record {
  queued = drop batch_size h.queued;
  queue = q;
  total = omega (
    arith,
    h.total,
    e,
    c,
    ap length t,
    length-append ts (task ∷ []),
    length-take batch_size h.queued,
    length-drop batch_size h.queued,
  );
})
local_takes n w h _ (bare u e z i c q) = absurd (omega (arith, h.total, e, ap length z))

-- So does PickTask.
data PicksOne (n : ℕ) : Picked → Type 0 where
  picks_one : (task : ℕ) (v : World) → Has n v.worker → PicksOne n (picks task v)

after_takes :
    (n : ℕ) (v : World) (r : Option ℕ × Worker) → TakesOne n r → PicksOne n (pick_after r v)
unfolding pick_after
after_takes n v _ (takes_one task u h) = picks_one task (record v { worker = u }) h

pick_takes : (n : ℕ) (v : World) → Has (suc n) v.worker → PicksOne n (pick_task v)
unfolding pick_task
pick_takes n v h = after_takes n v (pick_local v.worker) (
    local_takes n v.worker h _
      (pick_local-Picks v.worker h.queued v.worker.batch_count refl h.queue))

handled_same :
    (task : ℕ) (m : TaskMeta) (w : Worker) (g : TaskGroup)
    → ((handle_task_after_run task m w g).1.local_queue ≡ w.local_queue)
      × ((handle_task_after_run task m w g).1.batch_count ≡ w.batch_count)
unfolding handle_task_after_run handle_finished_bthread release_task_meta
handled_same task m w g = (ground arith, ground arith)

begin_task-Has : (n task : ℕ) (v : World) → Has n v.worker → Has n (begin_task task v).worker
unfolding begin_task
begin_task-Has n task v h = elim (Option-cases (v.group.task_pool task)) [
  | inl gone ↦ rw (gone, begin_task) h
  | inr (m, there) ↦
      rw (there, begin_task)
        (Has-cong n (record v.worker { current_task = some task }) v.worker refl refl h)
]

woken_by-Has :
    (wake : ℕ → World → World) (n : ℕ) (joiners : Option ℕ) (v : World)
    → Keeps wake
    → Has n v.worker
    → Has n (woken_by wake joiners v).worker
woken_by-Has wake n none v keeps h = h
woken_by-Has wake n (some butex) v keeps h = keeps n butex v h

end_task-Has :
    (wake : ℕ → World → World) (n task : ℕ) (v : World)
    → Keeps wake
    → Has n v.worker
    → Has n (end_task wake task v).worker
unfolding end_task
end_task-Has wake n task v keeps h = elim (Option-cases (v.group.task_pool task)) [
  | inl gone ↦ rw (gone, end_task) h
  | inr (m, there) ↦
      let w = record v.worker { current_task = none } in
      let joiners = (handle_task_after_run task m w v.group).0 in
      let v' = woken_by wake joiners (record v { worker = w }) in
      let (q, b) = handled_same task m v'.worker v'.group in
      rw (there, end_task)
        (Has-cong n _ v'.worker q b (
          woken_by-Has wake n joiners (record v { worker = w }) keeps
            (Has-cong n w v.worker refl refl h)))
]

serve-Has :
    (run wake : ℕ → World → World) (n task : ℕ) (v : World)
    → Keeps run
    → Keeps wake
    → Has n v.worker
    → Has n (serve run wake task v).worker
unfolding serve
serve-Has run wake n task v keeps wakes h =
    let begun = begin_task task v in
    end_task-Has wake n task (run task begun) wakes (keeps n task begun (begin_task-Has n task v h))

-- The loop ran `k` tasks, and left `n` of them.
data Leaves (k n : ℕ) : Drained → Type 0 where
  leaves : (ts : List ℕ) (v : World) → length ts ≡ k → Has n v.worker → Leaves k n (drained ts v)

and_before-Leaves :
    (k n task : ℕ) (r : Drained) → Leaves k n r → Leaves (suc k) n (and_before task r)
and_before-Leaves k n task _ (leaves ts v e h) = leaves (task ∷ ts) v (omega (arith, e)) h

drain_picked :
    (run wake : ℕ → World → World) (k n : ℕ) (v : World) (r : Picked)
    → pick_task v ≡ r
    → PicksOne (k + n) r
    → ((u : World) → Has (k + n) u.worker → Leaves k n (drain run wake k u))
    → Keeps run
    → Keeps wake
    → Leaves (suc k) n (drain run wake (suc k) v)
unfolding drain
drain_picked run wake k n v _ e (picks_one task u h) ih keeps wakes =
    rw (e, drain)
      (and_before-Leaves k n task (drain run wake k (serve run wake task u))
        (ih (serve run wake task u) (serve-Has run wake (k + n) task u keeps wakes h)))

drain-Leaves :
    (run wake : ℕ → World → World) (k n : ℕ) (v : World)
    → Keeps run
    → Keeps wake
    → Has (k + n) v.worker
    → Leaves k n (drain run wake k v)
unfolding drain
drain-Leaves run wake zero n v keeps wakes h =
    let same : 0 + n ≡ n = omega arith in leaves [] v refl (subst (λ x. Has x v.worker) same h)
drain-Leaves run wake (suc k) n v keeps wakes h =
    let same : suc k + n ≡ suc (k + n) = omega arith in
    drain_picked run wake k n v (pick_task v) refl
      (pick_takes (k + n) v (subst (λ x. Has x v.worker) same h))
      (λ u. drain-Leaves run wake k n u keeps wakes) keeps wakes

-- A worker that was told to stop runs at most a hundred tasks more: when it has at least `n` above that in
-- its batch and its queue, it runs a hundred, and at least `n` are left there when Run returns, whatever
-- its tasks, and the waking of those that join them, queue besides; they are taken to take none away.
pub drain-leaves_rest :
    (run wake : ℕ → World → World) (n : ℕ) (v : World)
    → Keeps run
    → Keeps wake
    → Has (drain_limit + n) v.worker
    → (ts : List ℕ) × (after : World) × (drain run wake drain_limit v ≡ drained ts after)
      × (length ts ≡ drain_limit)
      × Has n after.worker
drain-leaves_rest run wake n v keeps wakes h =
    parts (drain run wake drain_limit v) (drain-Leaves run wake drain_limit n v keeps wakes h)
  where
    parts :
        (r : Drained)
        → Leaves drain_limit n r
        → (ts : List ℕ) × (after : World) × (r ≡ drained ts after)
          × (length ts ≡ drain_limit)
          × Has n after.worker
    parts _ (leaves ts u e k) = (ts, u, refl, e, k)
