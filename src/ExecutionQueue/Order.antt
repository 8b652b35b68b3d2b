-- ===== src/ExecutionQueue/Order.antt =====
-- Tasks run in the order of their submission.
use cothread.Prelude.{
  ℕ, zero, suc, ◌<◌, ◌≡◌, refl, sym, ap, subst, ◌∙◌, inl, inr, false, Option, none, some, List, [],
  ◌∷◌, ◌++◌, arith, length, All, All-append, Fresh, update, update_self, update_ne,
}
use cothread.MpscQueue.{MpscQueue, got}
use cothread.MpscQueue
use cothread.MpscQueue.Fifo.{pop-Pops, push-appends}
use cothread.MpscQueue.Fifo
use cothread.ObjectPool.Stack.{acquire-Acquires, release-Holds}
use cothread.ObjectPool.Stack
use cothread.ObjectPool.{ObjectPool}
use cothread.ObjectPool
use cothread.ExecutionQueue.{ExecutionQueue, init, submit, execute_one, execute, retire, idle, ran}

-- The wrappers in the queue carry these tasks, none of them empty.
abbrev pub Carry : (ℕ → Option ℕ) → List ℕ → List ℕ → Type 0
Carry tasks [] ts = ts ≡ []
Carry tasks (w ∷ ws) ts =
    (t : ℕ) × (rest : List ℕ) × (ts ≡ t ∷ rest) × (tasks w ≡ some t) × Carry tasks ws rest

-- The queue is open and holds these tasks, oldest first; the wrappers in use and the cached ones are
-- all different.
pub record Holds (q : ExecutionQueue) (ts : List ℕ) : Type 0 where
  pub open' : q.stopped ≡ false
  pub wrappers : List ℕ
  pub cached : List ℕ
  pub queued : Fifo.Holds q.queue wrappers
  pub carried : Carry q.tasks wrappers ts
  pub pooled : Stack.Holds q.pool cached
  pub apart : All (λ w. (w < q.pool.fresh) × Fresh w cached) wrappers

Carry-update :
    (tasks : ℕ → Option ℕ) (ws ts : List ℕ) (w : ℕ) (v : Option ℕ)
    → Fresh w ws
    → Carry tasks ws ts
    → Carry (update tasks w v) ws ts
Carry-update tasks [] ts w v f c = c
Carry-update tasks (x ∷ ws) ts w v f (t, rest, e, h, c) =
    (t, rest, e, update_ne tasks w x v (λ p. f.0 (sym p)) ∙ h, Carry-update tasks ws rest w v f.1 c)

Carry-append :
    (tasks : ℕ → Option ℕ) (ws ts : List ℕ) (w t : ℕ)
    → tasks w ≡ some t
    → Carry tasks ws ts
    → Carry tasks (ws ++ w ∷ []) (ts ++ t ∷ [])
Carry-append tasks [] ts w t h e = (t, [], ap (λ l. l ++ t ∷ []) e, h, refl)
Carry-append tasks (x ∷ ws) ts w t h (u, rest, e, g, c) =
    (u, rest ++ t ∷ [], ap (λ l. l ++ t ∷ []) e, g, Carry-append tasks ws rest w t h c)

abbrev Apart : ℕ → List ℕ → List ℕ → Type 0
Apart fresh cached = All (λ w. (w < fresh) × Fresh w cached)

Apart-release :
    (fresh x : ℕ) (cached ws : List ℕ)
    → Fresh x ws
    → Apart fresh cached ws
    → Apart fresh (x ∷ cached) ws
Apart-release fresh x cached [] f a = tt
Apart-release fresh x cached (w ∷ ws) f a =
    ((a.0.0, (λ e. f.0 (sym e), a.0.1)), Apart-release fresh x cached ws f.1 a.1)

Apart-grow : (fresh : ℕ) (ws : List ℕ) → Apart fresh [] ws → Apart (suc fresh) [] ws
Apart-grow fresh [] a = tt
Apart-grow fresh (w ∷ ws) a = ((omega arith, tt), Apart-grow fresh ws a.1)

Apart-take :
    (fresh x : ℕ) (cached ws : List ℕ)
    → Apart fresh (x ∷ cached) ws
    → Apart fresh cached ws × Fresh x ws
Apart-take fresh x cached [] a = (tt, tt)
Apart-take fresh x cached (w ∷ ws) a =
    let (rest, f) = Apart-take fresh x cached ws a.1 in
    (((a.0.0, a.0.1.1), rest), (λ e. a.0.1.0 (sym e), f))

Apart-Fresh : (fresh : ℕ) (cached ws : List ℕ) → Apart fresh cached ws → Fresh fresh ws
Apart-Fresh fresh cached [] a = tt
Apart-Fresh fresh cached (w ∷ ws) a = (omega arith, Apart-Fresh fresh cached ws a.1)

pub start-Holds : Holds init []
unfolding init MpscQueue.init
start-Holds = record {
  open' = refl;
  wrappers = [];
  cached = [];
  queued = Fifo.init-Holds (λ _. none);
  carried = refl;
  pooled = Stack.init-Holds 64 (omega arith);
  apart = tt;
}

-- A wrapper from the pool, not in use: queued with the task, it stands last.
submit_with :
    (q : ExecutionQueue) (ts : List ℕ) (v : Holds q ts) (t w : ℕ) (pool : ObjectPool)
    (cached : List ℕ)
    → ObjectPool.acquire q.pool ≡ (w, pool)
    → Stack.Holds pool cached
    → Fresh w v.wrappers
    → Apart pool.fresh cached (v.wrappers ++ w ∷ [])
    → Holds (submit (some t) q) (ts ++ t ∷ [])
unfolding submit
submit_with q ts v t w pool cached e pooled f a =
    rw (v.open', e)
      (record {
        open' = refl;
        wrappers = v.wrappers ++ w ∷ [];
        cached = cached;
        queued = push-appends q.queue v.wrappers w v.queued f;
        carried =
            Carry-append (update q.tasks w (some t)) v.wrappers ts w t
              (update_self q.tasks w (some t))
              (Carry-update q.tasks v.wrappers ts w (some t) f v.carried);
        pooled = pooled;
        apart = a;
      })

submit_cached :
    (q : ExecutionQueue) (ts : List ℕ) (t : ℕ) (v : Holds q ts) (cached : List ℕ)
    → Stack.Holds q.pool cached
    → Apart q.pool.fresh cached v.wrappers
    → Holds (submit (some t) q) (ts ++ t ∷ [])
submit_cached q ts t v [] p a =
    let (at, left, grown) = acquire-Acquires q.pool [] p in
    submit_with q ts v t _ _ [] refl left
      (subst (λ w. Fresh w v.wrappers) (sym at) (Apart-Fresh q.pool.fresh [] v.wrappers a))
      (All-append _ v.wrappers _
        (subst (λ n. Apart n [] v.wrappers) (sym grown) (Apart-grow q.pool.fresh v.wrappers a))
        ((omega arith, tt), tt))
submit_cached q ts t v (x ∷ cached) p a =
    let (at, left, same) = acquire-Acquires q.pool (x ∷ cached) p in
    let (rest, f) = Apart-take q.pool.fresh x cached v.wrappers a in
    submit_with q ts v t _ _ cached refl left (subst (λ w. Fresh w v.wrappers) (sym at) f) (
      All-append _ v.wrappers _ (subst (λ n. Apart n cached v.wrappers) (sym same) rest)
        ((omega (arith, p.made.0), subst (λ w. Fresh w cached) (sym at) p.distinct.0), tt))

-- Submitting a task to an open queue puts it behind the tasks that wait.
pub submit-Holds :
    (q : ExecutionQueue) (ts : List ℕ) (t : ℕ)
    → Holds q ts
    → Holds (submit (some t) q) (ts ++ t ∷ [])
submit-Holds q ts t v = submit_cached q ts t v v.cached v.pooled v.apart

fresh-release : (w : ℕ) (p : ObjectPool) → (ObjectPool.release (some w) p).fresh ≡ p.fresh
unfolding ObjectPool.release
fresh-release w p = ground arith

-- The state after the wrapper `w` is retired, with the other wrappers `ws`.
retired :
    (q : ExecutionQueue) (w : ℕ) (ws ts cached : List ℕ) (queue : MpscQueue)
    → q.stopped ≡ false
    → Fifo.Holds queue ws
    → Carry q.tasks ws ts
    → Fresh w ws
    → Stack.Holds q.pool cached
    → w < q.pool.fresh
    → Fresh w cached
    → Apart q.pool.fresh cached ws
    → Holds (retire w queue q) ts
retired q w ws ts cached queue o queued c f p made apart_w a =
    elim (release-Holds q.pool cached w p apart_w made) [
      | inl (_, pooled) ↦ record {
        open' = o;
        wrappers = ws;
        cached = w ∷ cached;
        queued = queued;
        carried = Carry-update q.tasks ws ts w none f c;
        pooled = pooled;
        apart =
            subst (λ n. Apart n (w ∷ cached) ws) (sym (fresh-release w q.pool))
              (Apart-release q.pool.fresh w cached ws f a);
      }
      | inr (_, same) ↦ record {
        open' = o;
        wrappers = ws;
        cached = cached;
        queued = queued;
        carried = Carry-update q.tasks ws ts w none f c;
        pooled = rw same p;
        apart = subst (λ n. Apart n cached ws) (sym (fresh-release w q.pool)) a;
      }
    ]

-- Tasks that leave the queue alone.
abbrev pub quiet : ℕ → ExecutionQueue → ExecutionQueue
quiet t q = q

execute_one-got :
    (q : ExecutionQueue) (w t : ℕ) (queue : MpscQueue)
    → q.stopped ≡ false
    → MpscQueue.pop q.queue ≡ got w queue
    → q.tasks w ≡ some t
    → execute_one quiet q ≡ ran t (retire w queue q)
unfolding execute_one
execute_one-got q w t queue o e h = ground (arith, e)

ran_oldest :
    (q : ExecutionQueue) (t : ℕ) (ts : List ℕ) (v : Holds q (t ∷ ts)) (ws : List ℕ)
    → Fifo.Holds q.queue ws
    → Carry q.tasks ws (t ∷ ts)
    → Apart q.pool.fresh v.cached ws
    → (q' : ExecutionQueue) × (execute_one quiet q ≡ ran t q') × Holds q' ts
ran_oldest q t ts v [] queued c a = absurd (ground (arith, c))
ran_oldest q t ts v (w ∷ ws) queued (u, rest, e, h, c) a =
    let (queue, popped, left) = pop-Pops q.queue (w ∷ ws) queued in
    let here : q.tasks w ≡ some t = ground (arith, e, h) in
    let same : rest ≡ ts = ground (arith, e) in
    (
      retire w queue q,
      execute_one-got q w t queue v.open' popped here,
      retired q w ws ts v.cached queue v.open' left (subst (Carry q.tasks ws) same c)
          queued.distinct.0 v.pooled a.0.0 a.0.1 a.1,
    )

idle_of :
    (q : ExecutionQueue) (ws : List ℕ)
    → q.stopped ≡ false
    → Fifo.Holds q.queue ws
    → Carry q.tasks ws []
    → execute_one quiet q ≡ idle (record q { pending = false })
unfolding execute_one
idle_of q [] o queued c = ground (arith, pop-Pops q.queue [] queued)
idle_of q (w ∷ ws) o queued (u, rest, e, h, c) = absurd (ground (arith, e))

execute_one-idle :
    (q : ExecutionQueue) → Holds q [] → execute_one quiet q ≡ idle (record q { pending = false })
execute_one-idle q v = idle_of q v.wrappers v.open' v.queued v.carried

-- Execute on an open queue ends when more rounds are allowed than tasks wait; it has then run every
-- task once, in the order of submission, and no task is pending. The tasks leave the queue alone.
pub execute-runs_all :
    (fuel : ℕ) (q : ExecutionQueue) (ts : List ℕ)
    → length ts < fuel
    → Holds q ts
    → (q' : ExecutionQueue) × (execute fuel quiet q ≡ some (ts, q'))
      × Holds q' []
      × (q'.pending ≡ false)
unfolding execute
execute-runs_all zero q ts f v = absurd (omega arith)
execute-runs_all (suc fuel) q [] f v = (
  record q { pending = false },
  rw (execute_one-idle q v, execute),
  (record {
    open' = v.open';
    wrappers = v.wrappers;
    cached = v.cached;
    queued = v.queued;
    carried = v.carried;
    pooled = v.pooled;
    apart = v.apart;
  }),
  refl,
)
execute-runs_all (suc fuel) q (t ∷ ts) f v =
    let (r, e, w) = ran_oldest q t ts v v.wrappers v.queued v.carried v.apart in
    let (q', e', w', p) = execute-runs_all fuel r ts (omega arith) w in
    (q', rw (e, execute, e'), w', p)
