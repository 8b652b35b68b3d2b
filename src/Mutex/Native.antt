-- ===== src/Mutex/Native.antt =====
-- lock, try_lock and unlock by a thread that is no worker: the native mutex beside the state word.
use cothread.Prelude.{ℕ, ◌+◌, Bool, true, false, Option, none, some, if◌then◌else◌}
use cothread.Mutex.{Mutex, goes, woken, unlocked}

-- The mutex with the native one beside it, which a thread that is no worker locks.
pub record NativeMutex : Type 0 where
  pub mutex : Mutex
  pub native_held : Bool

-- `lock_pthread`, as the thread leaves it; `none` while it blocks.
unfoldable pub lock_pthread : NativeMutex → Option NativeMutex
lock_pthread n =
    if n.native_held
    then none
    else some (record {
      mutex = record n.mutex { word = record n.mutex.word { locked = true } };
      native_held = true;
    })

-- The native branch of try_lock.
unfoldable pub try_lock_pthread : NativeMutex → Bool × NativeMutex
try_lock_pthread n = if n.native_held then (false, n) else (true, record n { native_held = true })

-- `Wake(1)`, for the sleeper that it finds, if it finds one.
abbrev pub wake_sleeper : Option ℕ → Mutex → Mutex
wake_sleeper none m = m
wake_sleeper (some s) m = goes s woken m

-- `unlock_pthread`.
unfoldable pub unlock_pthread : Option ℕ → NativeMutex → NativeMutex
unlock_pthread sleeper n =
    let m = unlocked n.mutex in
    record {
      mutex =
          if n.mutex.word.has_waiters
          then elim m.value [
            | none ↦ m
            | some v ↦ wake_sleeper sleeper (record m { value = some (v + 1) })
          ]
          else m;
      native_held = false;
    }
