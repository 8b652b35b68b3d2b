-- ===== src/Once.antt =====
-- src/bthread/api/once.cpp: bthread_once, which has one flag for all controls. call_once runs the routine if
-- its flag was not used before.
use cothread.Prelude.{ℕ, ◌≡◌, refl, ap, Bool, true, false, not, List, [], ◌∷◌, if◌then◌else◌}

-- Whether the routine runs, and the flag after the call.
unfoldable pub once : ℕ → ℕ → Bool → Bool × Bool
once control routine flag = (not flag, true)

-- The routines that a sequence of calls runs, each call a control with a routine.
unfoldable pub run_calls : List (ℕ × ℕ) → Bool → List ℕ
run_calls [] flag = []
run_calls ((control, routine) ∷ calls) flag =
    let rest = run_calls calls (once control routine flag).1 in
    if (once control routine flag).0 then routine ∷ rest else rest

nothing_runs : (calls : List (ℕ × ℕ)) → run_calls calls true ≡ []
unfolding run_calls once
nothing_runs [] = refl
nothing_runs ((control, routine) ∷ calls) = nothing_runs calls

-- Of all calls of bthread_once in a program only the first runs its routine: the routine of every other
-- control is never run.
run_calls-first :
    (control routine : ℕ) (calls : List (ℕ × ℕ))
    → run_calls ((control, routine) ∷ calls) false ≡ routine ∷ []
unfolding run_calls once
run_calls-first control routine calls = ap (◌∷◌ routine) (nothing_runs calls)
