-- ===== src/IdleRegistry/Stack.antt =====
-- The registry is a stack as long as no worker registers while it is registered.
use cothread.Prelude.{
  ℕ, zero, suc, ◌≡◌, refl, ap, ◌∙◌, none, some, List, [], ◌∷◌, arith, take, drop, replicate, Fresh,
  Distinct, update_self, Chain, Chain-update,
}
use cothread.IdleRegistry.{IdleRegistry, register_idle_worker, pop_idle_worker, wake_idle_workers}

-- The idle workers, the one that registered last first.
pub record Holds (r : IdleRegistry) (ws : List ℕ) : Type 0 where
  pub chain : Chain r.idle_next r.idle_head ws
  pub distinct : Distinct ws

-- A worker that is not registered goes on top.
register-Holds :
    (r : IdleRegistry) (ws : List ℕ) (w : ℕ)
    → Holds r ws
    → Fresh w ws
    → Holds (register_idle_worker w r) (w ∷ ws)
unfolding register_idle_worker
register-Holds r ws w v f = record {
  chain = (
    refl,
    rw (update_self r.idle_next w r.idle_head)
        (Chain-update r.idle_next r.idle_head w r.idle_head ws f v.chain),
  );
  distinct = (f, v.distinct);
}

pop_none : (r : IdleRegistry) → r.idle_head ≡ none → pop_idle_worker r ≡ (none, r)
unfolding pop_idle_worker
pop_none r e = ground arith

pop_some :
    (r : IdleRegistry) (w : ℕ)
    → r.idle_head ≡ some w
    → pop_idle_worker r ≡ (some w, record r { idle_head = r.idle_next w })
unfolding pop_idle_worker
pop_some r w e = ground arith

-- Of the registered workers the last `count` to register are woken, each once, and the others stay.
pub wake_idle_workers-Holds :
    (count : ℕ) (r : IdleRegistry) (ws : List ℕ)
    → Holds r ws
    → ((wake_idle_workers count r).0 ≡ take count ws)
      × Holds (wake_idle_workers count r).1 (drop count ws)
unfolding wake_idle_workers
wake_idle_workers-Holds zero r ws v = (refl, v)
wake_idle_workers-Holds (suc k) r [] v =
    rw (pop_none r v.chain, wake_idle_workers) (refl, rw (pop_none r v.chain) v)
wake_idle_workers-Holds (suc k) r (w ∷ ws) v =
    let one = pop_some r w v.chain.0 in
    let left : Holds (pop_idle_worker r).1 ws =
      rw one (record { chain = v.chain.1; distinct = v.distinct.1 }) in
    let ih = wake_idle_workers-Holds k (pop_idle_worker r).1 ws left in
    rw (ap (λ q. q.0) one, wake_idle_workers) (ap (◌∷◌ w) ih.0, ih.1)

pop_self :
    (r : IdleRegistry) (w : ℕ)
    → r.idle_head ≡ some w
    → r.idle_next w ≡ some w
    → pop_idle_worker r ≡ (some w, r)
unfolding pop_idle_worker
pop_self r w e l = ground arith

wake_self :
    (count : ℕ) (r : IdleRegistry) (w : ℕ)
    → r.idle_head ≡ some w
    → r.idle_next w ≡ some w
    → wake_idle_workers count r ≡ (replicate count w, r)
unfolding wake_idle_workers
wake_self zero r w e l = refl
wake_self (suc k) r w e l =
    rw (pop_self r w e l, wake_idle_workers)
      (rw (pop_self r w e l) (ap (λ q. (w ∷ q.0, q.1)) (wake_self k r w e l)))

-- A worker that registers while it is on top links to itself: from then on every pop gives that
-- worker and changes nothing, so that the workers below it are not reached by any number of pops.
register_twice-loops :
    (count : ℕ) (r : IdleRegistry) (w : ℕ)
    → r.idle_head ≡ some w
    → wake_idle_workers count (register_idle_worker w r)
      ≡ (replicate count w, register_idle_worker w r)
unfolding register_idle_worker
register_twice-loops count r w e =
    wake_self count (register_idle_worker w r) w refl (update_self r.idle_next w r.idle_head ∙ e)
