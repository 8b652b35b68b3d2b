-- ===== src/Tests/PromiseTests.antt =====
-- The coroutine in frame 10, with meta 1, is awaited by the one in frame 20, with meta 2; its body ends with
-- the value 7.
use cothread.Prelude.{
  ℕ, ◌≡◌, refl, true, false, Option, none, some, List, [], ◌∷◌, arith, ℕ_discrete, ◌==◌,
  if◌then◌else◌, update,
}
use cothread.Task.{TaskState}
use cothread.Coroutines.{CoroutineMeta, new_meta}
use cothread.Results.{other, Result, ok}
use cothread.Promise.{
  Promise, Outcome, Frame, Frames, new_promise, got, get, safe_get, is_done, Machine, Act, back,
  faults, run_coroutine, put_state,
}
use cothread.Promise.Outcomes.{fails, complete, safe_complete, as_result, safe_get-get}
use cothread.Promise.Objects.{Objects, assigns, apply, Owned, apply-Owned}
use cothread.Promise.Run.{Awaited, Unfinished}
use cothread.Promise.Awaiter.{
  run_coroutine-resumes_awaiter, run_coroutine-faults, run_coroutine-leaves_awaiter,
}
use cothread.Promise.Race
use cothread.Promise.Race.{
  AwaitRace, await_start, Lost, ResumesOnce, Reaches-Lost, Reaches-ResumesOnce,
}

-- Objects 1 and 2 own the frames 10 and 20.
abbrev objects : Objects
objects = record {
  handles = update (update (λ _. none) 1 (some 10)) 2 (some 20);
  alive = update (update (λ _. false) 10 true) 20 true;
}

objects-Owned : Owned objects
objects-Owned = record {
  live = λ i h e. ground arith;
  unique = λ i j h p q. ground arith;
  reached = λ h a. elim (ℕ_discrete h 10) [
    | yes first ↦ (1, ground arith)
    | no rest ↦ (2, ground (arith, rest))
  ];
}

apply-Owned_example : (after : Objects) × (apply (assigns 1 2) objects ≡ some after) × Owned after
apply-Owned_example = apply-Owned (assigns 1 2) objects objects-Owned tt

abbrev blank : Promise (Outcome ℕ)
blank = new_promise (record { result = 0; exception = none })

abbrev safe_blank : Promise (Result ℕ)
safe_blank = new_promise (ok 0)

abbrev ended : Frames (Outcome ℕ)
ended h = some (record { done = true; promise = complete (fails (other 5)) blank })

abbrev safe_ended : Frames (Result ℕ)
safe_ended h = some (record { done = true; promise = safe_complete (fails (other 5)) safe_blank })

safe_get-get_example : safe_get (some 10) safe_ended ≡ as_result (get (some 10) ended)
safe_get-get_example =
    safe_get-get 10 (fails (other 5)) blank safe_blank ended safe_ended refl refl refl

abbrev inner : Frame ℕ
inner = record {
  done = false;
  promise = record (new_promise 0) { awaiter = some 20; awaiter_meta = some 2; meta = some 1 };
}

abbrev outer : Frame ℕ
outer = record { done = false; promise = record (new_promise 0) { meta = some 2 } }

abbrev thread : Machine ℕ
thread = record {
  frames = update (update (λ _. none) 10 (some inner)) 20 (some outer);
  metas =
      update (update (λ _. none) 1 (some (record new_meta { handle = some 10 }))) 2
        (some (record new_meta { handle = some 20; state = TaskState.running }));
  current = none;
  submitted = [];
}

-- The inner body ends with 7; the outer one destroys what it is told to, and ends or suspends.
abbrev bodies : List ℕ → Option ℕ → ℕ → Option ℕ → Act ℕ
bodies drops end h c =
    if h == 10
    then record { writes = λ metas. metas; destroys = []; ends = some 7 }
    else record { writes = λ metas. metas; destroys = drops; ends = end }

abbrev awaited : (drops : List ℕ) (end : Option ℕ) → Awaited 1 10 20 2 7 (bodies drops end) thread
awaited drops end = record {
  inner = inner;
  outer = outer;
  at_inner = refl;
  at_outer = refl;
  running = refl;
  awaiter = refl;
  awaiter_meta = refl;
  apart = omega arith;
  ends = refl;
  keeps_inner = tt;
  keeps_outer = tt;
}

run_coroutine-resumes_awaiter_example :
    (after : Machine ℕ) × (run_coroutine 2 (bodies [] none) 1 (some 10) thread ≡ back after)
    × (after.frames 10
        ≡ some (record { done = true; promise = record inner.promise { outcome = 7 } }))
    × (after.current ≡ none)
    × (after.metas ≡ put_state 1 TaskState.finished (put_state 1 TaskState.running thread.metas))
run_coroutine-resumes_awaiter_example =
    run_coroutine-resumes_awaiter 0 1 10 20 2 7 (bodies [] none) thread (awaited [] none) refl tt

run_coroutine-faults_example :
    run_coroutine 2 (bodies (10 ∷ []) (some 12)) 1 (some 10) thread ≡ faults
run_coroutine-faults_example =
    run_coroutine-faults 0 1 10 20 2 7 (bodies (10 ∷ []) (some 12)) thread
      (awaited (10 ∷ []) (some 12)) [] refl tt refl

running_outer : Unfinished 2 thread.metas
running_outer c e = ground arith

run_coroutine-leaves_awaiter_example :
    (after : Machine ℕ) × (run_coroutine 2 (bodies [] (some 12)) 1 (some 10) thread ≡ back after)
    × (is_done (some 10) after.frames ≡ got true)
    × (is_done (some 20) after.frames ≡ got true)
    × Unfinished 2 after.metas
run_coroutine-leaves_awaiter_example =
    run_coroutine-leaves_awaiter 0 1 10 20 2 7 (bodies [] (some 12)) thread (awaited [] (some 12))
      12 refl tt tt refl (omega arith) bodies_quiet running_outer
  where
    bodies_quiet :
        (k : ℕ) (c : Option ℕ) (metas : ℕ → Option CoroutineMeta)
        → Unfinished 2 metas
        → Unfinished 2 ((bodies [] (some 12) k c).writes metas)
    bodies_quiet k c metas u = ground (arith, u)

-- The awaiter has asked, and the other one has then ended and found no awaiter.
abbrev missed : AwaitRace
missed = record await_start { await = Race.stores_handle; final = Race.returned; done = true }

Reaches-Lost_example :
    Lost (record missed { await = Race.suspended; awaiter = true; awaiter_meta = true })
Reaches-Lost_example =
    Reaches-Lost missed _ (refl, (λ e. ground arith), (λ e. ground arith))
      (Race.after _ _ (Race.after _ _ Race.here (Race.store_handle missed refl))
        (Race.store_meta (record missed { await = Race.stores_meta; awaiter = true }) refl))

Reaches-ResumesOnce_example : ResumesOnce (record await_start { await = Race.stores_handle })
unfolding Race.ready_phase
Reaches-ResumesOnce_example =
    Reaches-ResumesOnce _ (Race.after _ _ Race.here (Race.ask await_start refl))
