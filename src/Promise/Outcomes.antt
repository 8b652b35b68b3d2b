-- ===== src/Promise/Outcomes.antt =====
-- What `get` says of a coroutine that has ended, for both kinds of task.
use cothread.Prelude.{ℕ, ◌-◌, ◌^◌, ◌≡◌, refl, true, none, some}
use cothread.Results.{
  Exception, std_exception, other, unknown_exception, Result, ok, err, Returned, returns, throws,
}
use cothread.Promise.{
  Promise, Outcome, Frames, return_value, unhandled_exception, safe_return_value, error_of,
  safe_unhandled_exception, get_result, Got, got, dangles, get, safe_get,
}

-- How a body ends, and what the compiler calls on the promise then.
pub data Ending (A : Type 0) : Type 0 where
  gives : A → Ending A
  fails : Exception → Ending A

abbrev pub complete : {A : Type 0} → Ending A → Promise (Outcome A) → Promise (Outcome A)
complete (gives v) p = return_value v p
complete (fails e) p = unhandled_exception e p

abbrev pub safe_complete : {A : Type 0} → Ending A → Promise (Result A) → Promise (Result A)
safe_complete (gives v) p = safe_return_value v p
safe_complete (fails e) p = safe_unhandled_exception e p

-- A thrown exception as an error: of a std::exception the code -3 and its own text, of any other one the
-- code -4 and a fixed text.
abbrev pub as_result : {A : Type 0} → Got (Returned A) → Got (Result A)
as_result (got (returns v)) = got (ok v)
as_result (got (throws (std_exception m))) = got (err (record { code = 2 ^ 32 - 3; message = m }))
as_result (got (throws (other n))) =
    got (err (record { code = 2 ^ 32 - 4; message = unknown_exception }))
as_result dangles = dangles

-- Of a coroutine that ended, whose promise held no exception before, `get` gives through a SafeTask what it gives through a Task: the value that the
-- body returned or, where `get` of the Task throws, an error, with the code -3 and the exception's text
-- for a std::exception, and with the code -4 for anything else.
pub safe_get-get :
    {A : Type 0} (h : ℕ) (ending : Ending A) (p : Promise (Outcome A)) (q : Promise (Result A))
    (frames : Frames (Outcome A)) (safe_frames : Frames (Result A))
    → p.outcome.exception ≡ none
    → frames h ≡ some (record { done = true; promise = complete ending p })
    → safe_frames h ≡ some (record { done = true; promise = safe_complete ending q })
    → safe_get (some h) safe_frames ≡ as_result (get (some h) frames)
unfolding get safe_get get_result return_value unhandled_exception safe_return_value
    safe_unhandled_exception error_of
safe_get-get h (gives v) p q frames safe_frames n e f =
    rw (e, get) (rw (f, safe_get) (rw (n, get_result) refl))
safe_get-get h (fails (std_exception m)) p q frames safe_frames n e f =
    rw (e, get) (rw (f, safe_get) refl)
safe_get-get h (fails (other k)) p q frames safe_frames n e f = rw (e, get) (rw (f, safe_get) refl)
