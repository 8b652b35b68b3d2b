-- ===== src/Promise.antt =====
-- include/coro/coroutine.h: the promises of Task<T> and SafeTask<T>, the awaiting of a task and the
-- return to its awaiter; and Worker::RunCoroutine of src/bthread/core/worker.cpp and Scheduler::Spawn of
-- src/bthread/core/scheduler.cpp, which run coroutines. A frame is its address; all frames that are
-- run together have outcomes of one type. What a body does while it runs is a parameter.
pub mod Objects
pub mod Outcomes
pub mod Run
pub mod Awaiter
pub mod Race
use cothread.Prelude.{
  ℕ, zero, suc, Bool, true, false, Option, none, some, List, [], ◌∷◌, ◌++◌, if◌then◌else◌, update,
}
use cothread.Task.{TaskState}
use cothread.Coroutines.{CoroutineMeta, new_meta}
use cothread.Results.{
  Message, no_handle, not_completed, unknown_exception, what, Exception, std_exception, other,
  Error, minus, Result, ok, err, Returned, returns, throws,
}

-- A promise, whose `outcome` is the Outcome of a Task or the Result of a SafeTask.
pub record Promise (R : Type 0) : Type 0 where
  pub outcome : R
  pub awaiter : Option ℕ
  pub awaiter_meta : Option ℕ
  pub meta : Option ℕ

-- result_ and exception_ of a TaskPromise.
pub record Outcome (A : Type 0) : Type 0 where
  pub result : A
  pub exception : Option Exception

pub record Frame (R : Type 0) : Type 0 where
  pub done : Bool
  pub promise : Promise R

-- The frames by address; `none` for a frame that was destroyed.
abbrev pub Frames : Type 0 → Type 0
Frames R = ℕ → Option (Frame R)

abbrev pub new_promise : {R : Type 0} → R → Promise R
new_promise blank = record { outcome = blank; awaiter = none; awaiter_meta = none; meta = none }

-- `co_return` of a value, and an exception that leaves the body.
unfoldable pub return_value : {A : Type 0} → A → Promise (Outcome A) → Promise (Outcome A)
return_value v p = record p { outcome = record p.outcome { result = v } }

unfoldable pub unhandled_exception :
    {A : Type 0} → Exception → Promise (Outcome A) → Promise (Outcome A)
unhandled_exception e p = record p { outcome = record p.outcome { exception = some e } }

unfoldable pub safe_return_value : {A : Type 0} → A → Promise (Result A) → Promise (Result A)
safe_return_value v p = record p { outcome = ok v }

unfoldable pub safe_return_error : {A : Type 0} → Error → Promise (Result A) → Promise (Result A)
safe_return_error e p = record p { outcome = err e }

unfoldable pub error_of : Exception → Error
error_of (std_exception m) = record { code = minus 3; message = m }
error_of (other n) = record { code = minus 4; message = unknown_exception }

unfoldable pub safe_unhandled_exception :
    {A : Type 0} → Exception → Promise (Result A) → Promise (Result A)
safe_unhandled_exception e p = record p { outcome = err (error_of e) }

-- `get_result` of a TaskPromise, for a T whose move leaves the value.
unfoldable pub get_result : {A : Type 0} → Outcome A → Returned A
get_result o = elim o.exception [ none ↦ returns o.result | some e ↦ throws e ]

-- What a method of a task object gives: a result, or the use of a frame that was destroyed.
pub data Got {ℓ} (A : Type ℓ) : Type ℓ where
  got : A → Got A
  dangles : Got A

-- `get` of a Task with the handle.
unfoldable pub get : {A : Type 0} → Option ℕ → Frames (Outcome A) → Got (Returned A)
get none frames = got (throws (std_exception no_handle))
get (some h) frames = elim (frames h) [
  | none ↦ dangles
  | some f ↦
      got (if f.done then get_result f.promise.outcome else throws (std_exception not_completed))
]

-- `get` of a SafeTask.
unfoldable pub safe_get : {A : Type 0} → Option ℕ → Frames (Result A) → Got (Result A)
safe_get none frames = got (err (record { code = minus 1; message = no_handle }))
safe_get (some h) frames = elim (frames h) [
  | none ↦ dangles
  | some f ↦ got (
      if f.done
      then f.promise.outcome
      else err (record { code = minus 2; message = not_completed }))
]

-- `is_done`, and `await_ready`.
unfoldable pub is_done : {R : Type 0} → Option ℕ → Frames R → Got Bool
is_done none frames = got false
is_done (some h) frames = elim (frames h) [ none ↦ dangles | some f ↦ got f.done ]

abbrev pub set_promise : {R : Type 0} → ℕ → Frame R → Promise R → Frames R → Frames R
set_promise h f p frames = update frames h (some (record f { promise = p }))

unfoldable pub set_awaiter : {R : Type 0} → ℕ → Option ℕ → Promise R → Promise R
set_awaiter awaiting current p = record p { awaiter = some awaiting; awaiter_meta = current }

-- The end of an await that is not ready, by the coroutine `awaiting`.
unfoldable pub await_suspend : {R : Type 0} → Option ℕ → ℕ → Option ℕ → Frames R → Got (Frames R)
await_suspend none awaiting current frames = dangles
await_suspend (some h) awaiting current frames = elim (frames h) [
  | none ↦ dangles
  | some f ↦ got (set_promise h f (set_awaiter awaiting current f.promise) frames)
]

abbrev pub or_else : Option ℕ → Option ℕ → Option ℕ
or_else none b = b
or_else (some a) b = some a

-- `FinalAwaiter::await_suspend`: the coroutine that is resumed next, and the current meta.
unfoldable pub final_suspend : {R : Type 0} → Promise R → Option ℕ → Option ℕ × Option ℕ
final_suspend p current = elim p.awaiter [
  | none ↦ (none, current)
  | some h ↦ (some h, or_else p.awaiter_meta current)
]

-- A worker's thread with what coroutines share: frames, metas by address, and the thread's current meta;
-- `submitted` lists the metas handed to the scheduler.
pub record Machine (R : Type 0) : Type 0 where
  pub frames : Frames R
  pub metas : ℕ → Option CoroutineMeta
  pub current : Option ℕ
  pub submitted : List ℕ

-- `Spawn` of a task with the handle, for a meta that `new` puts at the address; the Init with which it
-- begins is Scheduler.init.
unfoldable pub spawn : {R : Type 0} → ℕ → Option ℕ → Machine R → Got (Machine R)
spawn address none m = dangles
spawn address (some h) m = elim (m.frames h) [
  | none ↦ dangles
  | some f ↦ got (record m {
    frames = set_promise h f (record f.promise { meta = some address }) m.frames;
    metas = update m.metas address (some (record new_meta { handle = some h }));
    submitted = m.submitted ++ address ∷ [];
  })
]

-- What a body does, with the current meta, from where it is resumed until control leaves it: what it writes to the metas, the
-- frames of other coroutines that it destroys with the task objects that own them, and whether it ends,
-- with its outcome, or suspends.
pub record Act (R : Type 0) : Type 0 where
  pub writes : (ℕ → Option CoroutineMeta) → ℕ → Option CoroutineMeta
  pub destroys : List ℕ
  pub ends : Option R

-- A run that came back, one that used a destroyed frame, or one for which the fuel was too little.
pub data Ran {ℓ} (A : Type ℓ) : Type ℓ where
  back : A → Ran A
  faults : Ran A
  spins : Ran A

abbrev pub destroy_all : {R : Type 0} → List ℕ → Frames R → Frames R
destroy_all [] frames = frames
destroy_all (h ∷ hs) frames = destroy_all hs (update frames h none)

-- The frame `h` at its final suspension point, with the outcome.
abbrev pub finish : {R : Type 0} → ℕ → R → Frame R → Machine R → Machine R
finish h r f m = record m {
  frames =
      update m.frames h (some (record { done = true; promise = record f.promise { outcome = r } }));
  current = (final_suspend f.promise m.current).1;
}

-- `resume` of the frame `h`, with the coroutines that final suspension goes on to.
unfoldable pub resume : {R : Type 0} → ℕ → (ℕ → Option ℕ → Act R) → ℕ → Machine R → Ran (Machine R)
resume zero act h m = spins
resume (suc n) act h m =
    let m' = record m {
      frames = destroy_all (act h m.current).destroys m.frames;
      metas = (act h m.current).writes m.metas;
    } in
    elim (act h m.current).ends [
      | none ↦ back m'
      | some r ↦ elim (m'.frames h) [
        | none ↦ faults
        | some f ↦ elim (final_suspend f.promise m'.current).0 [
          | none ↦ back (finish h r f m')
          | some awaiter ↦ resume n act awaiter (finish h r f m')
        ]
      ]
    ]

-- The store of a state to a meta.
unfoldable pub put_state : ℕ → TaskState → (ℕ → Option CoroutineMeta) → ℕ → Option CoroutineMeta
put_state meta s metas = elim (metas meta) [
  | none ↦ metas
  | some c ↦ update metas meta (some (record c { state = s }))
]

-- What `RunCoroutine` does after the resumption of the handle `h`.
unfoldable pub after_resume : {R : Type 0} → ℕ → ℕ → Machine R → Ran (Machine R)
after_resume meta h m = elim (m.frames h) [
  | none ↦ faults
  | some f ↦ back (
      if f.done
      then record m { current = none; metas = put_state meta TaskState.finished m.metas }
      else record m { current = none })
]

abbrev pub then_run : {A : Type 0} → Ran A → (A → Ran A) → Ran A
then_run (back a) k = k a
then_run faults k = faults
then_run spins k = spins

-- `RunCoroutine` of the meta, whose handle is the second argument after it: a run keeps the handle.
unfoldable pub run_coroutine :
    {R : Type 0} → ℕ → (ℕ → Option ℕ → Act R) → ℕ → Option ℕ → Machine R → Ran (Machine R)
run_coroutine fuel act meta handle m =
    let m' = record m { current = some meta; metas = put_state meta TaskState.running m.metas } in
    elim handle [
      | none ↦ back (record m' { current = none })
      | some h ↦ elim (m.frames h) [
        | none ↦ faults
        | some f ↦
            if f.done
            then after_resume meta h m'
            else then_run (resume fuel act h m') (after_resume meta h)
      ]
    ]
