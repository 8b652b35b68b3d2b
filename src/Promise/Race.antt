-- ===== src/Promise/Race.antt =====
-- One coroutine that awaits another which another worker runs, include/coro/coroutine.h, access by access:
-- await_ready and await_suspend on the one side, final suspension on the other. Nothing orders them.
use cothread.Prelude.{◌≡◌, refl, ◌≢◌, ◌⊎◌, inl, inr, Bool, true, false, ◌&&◌, arith, if◌then◌else◌}

-- Where the awaiting coroutine is: before it asks whether the other is done; suspended, before the store
-- of awaiter_; before that of awaiter_meta_; suspended with both stored; or it goes on without suspending.
pub data Await : Type 0 where
  asks : Await
  stores_handle : Await
  stores_meta : Await
  suspended : Await
  goes_on : Await

-- Where the awaited coroutine is: its body runs; it is at its final suspension point, before it reads
-- awaiter_; it read none, and returned to its worker; or it handed its worker to the awaiter.
pub data Final : Type 0 where
  runs : Final
  at_end : Final
  returned : Final
  handed : Final

-- The promise's two fields, by whether they are set, and with which meta the awaiter was resumed: its own
-- or that of the awaited coroutine.
pub record AwaitRace : Type 0 where
  pub await : Await
  pub final : Final
  pub done : Bool
  pub awaiter : Bool
  pub awaiter_meta : Bool
  pub own_meta : Bool

abbrev pub await_start : AwaitRace
await_start = record {
  await = asks;
  final = runs;
  done = false;
  awaiter = false;
  awaiter_meta = false;
  own_meta = false;
}

unfoldable pub ready_phase : Bool → Await
ready_phase done = if done then goes_on else stores_handle

unfoldable pub final_phase : Bool → Final
final_phase awaiter = if awaiter then handed else returned

pub data Step : AwaitRace → AwaitRace → Type 0 where
  ask : (s : AwaitRace) → s.await ≡ asks → Step s (record s { await = ready_phase s.done })
  store_handle :
      (s : AwaitRace)
      → s.await ≡ stores_handle
      → Step s (record s { await = stores_meta; awaiter = true })
  store_meta :
      (s : AwaitRace)
      → s.await ≡ stores_meta
      → Step s (record s { await = suspended; awaiter_meta = true })
  end_body : (s : AwaitRace) → s.final ≡ runs → Step s (record s { final = at_end; done = true })
  read_awaiter :
      (s : AwaitRace)
      → s.final ≡ at_end
      → Step s (record s { final = final_phase s.awaiter; own_meta = s.awaiter && s.awaiter_meta })

pub data Reaches (s : AwaitRace) : AwaitRace → Type 0 where
  here : Reaches s s
  after : (t u : AwaitRace) → Reaches s t → Step t u → Reaches s u

-- The awaiter has asked in vain and not stored itself when the other one looks for it.
abbrev pub Lost : AwaitRace → Type 0
Lost s = (s.final ≡ returned) × (s.await ≢ asks) × (s.await ≢ goes_on)

Step-Lost : (s t : AwaitRace) → Step s t → Lost s → Lost t
Step-Lost s _ (ask _ e) h = absurd (h.1 e)
Step-Lost s _ (store_handle _ e) h = ground arith
Step-Lost s _ (store_meta _ e) h = ground arith
Step-Lost s _ (end_body _ e) h = ground arith
Step-Lost s _ (read_awaiter _ e) h = ground arith

-- Once the awaited coroutine has ended and found no awaiter, a coroutine that was told that it is not done
-- is lost: in no state that can follow is it resumed, and it does not go on by itself.
pub Reaches-Lost : (s t : AwaitRace) → Lost s → Reaches s t → Lost t
Reaches-Lost s _ h here = h
Reaches-Lost s _ h (after t u r step) = Step-Lost t u step (Reaches-Lost s t h r)

-- What holds throughout: a coroutine that ended has its outcome in place; one that is told to go on, or
-- that is handed the worker, finds the other one done; and it is not given both.
pub record ResumesOnce (s : AwaitRace) : Type 0 where
  pub ended : s.final ≢ runs → s.done ≡ true
  pub ready : s.await ≡ goes_on → s.done ≡ true
  pub stored : s.awaiter ≡ true → (s.await ≡ stores_meta) ⊎ (s.await ≡ suspended)
  pub given : s.final ≡ handed → s.awaiter ≡ true

Step-ResumesOnce : (s t : AwaitRace) → Step s t → ResumesOnce s → ResumesOnce t
unfolding ready_phase final_phase
Step-ResumesOnce s _ (ask _ e) v = record {
  ended = v.ended;
  ready = λ p. ground arith;
  stored = λ p. ground (arith, v.stored p);
  given = v.given;
}
Step-ResumesOnce s _ (store_handle _ e) v = record {
  ended = v.ended;
  ready = λ p. ground arith;
  stored = λ p. inl refl;
  given = λ p. refl;
}
Step-ResumesOnce s _ (store_meta _ e) v = record {
  ended = v.ended;
  ready = λ p. ground arith;
  stored = λ p. inr refl;
  given = v.given;
}
Step-ResumesOnce s _ (end_body _ e) v = record {
  ended = λ p. refl;
  ready = λ p. refl;
  stored = v.stored;
  given = λ p. ground arith;
}
Step-ResumesOnce s _ (read_awaiter _ e) v = record {
  ended = λ p. v.ended (λ q. ground arith);
  ready = v.ready;
  stored = v.stored;
  given = λ p. ground arith;
}

await_start-ResumesOnce : ResumesOnce await_start
await_start-ResumesOnce = record {
  ended = λ p. absurd (p refl);
  ready = λ p. ground arith;
  stored = λ p. ground arith;
  given = λ p. ground arith;
}

-- From the start on, a coroutine that awaits another never goes on, nor is resumed, before that one is
-- done, and it is never both told to go on and handed the other's worker.
pub Reaches-ResumesOnce : (s : AwaitRace) → Reaches await_start s → ResumesOnce s
Reaches-ResumesOnce _ here = await_start-ResumesOnce
Reaches-ResumesOnce _ (after t u r step) = Step-ResumesOnce t u step (Reaches-ResumesOnce t r)
