-- ===== src/Results.antt =====
-- include/coro/result.h and include/coro/cancel.h: results of coroutines that do not throw, and the
-- flag by which a coroutine is asked to stop. A message is named by where it comes from, and an int
-- is its bit pattern.
use cothread.Prelude.{ℕ, ◌-◌, ◌%◌, ◌^◌, Bool, true, false, update}

pub data Message : Type 0 where
  no_handle : Message
  not_completed : Message
  what : ℕ → Message
  unknown_exception : Message
  uninitialized : Message
  contains_error : Message
  contains_value : Message
  not_coroutine : Message
  not_implemented : Message

-- What a body throws: a std::exception with its text, or something else.
pub data Exception : Type 0 where
  std_exception : Message → Exception
  other : ℕ → Exception

pub record Error : Type 0 where
  pub code : ℕ
  pub message : Message

-- The int -k.
abbrev pub minus : ℕ → ℕ
minus k = (2 ^ 32 - k) % 2 ^ 32

pub data Result {ℓ} (A : Type ℓ) : Type ℓ where
  ok : A → Result A
  err : Error → Result A

-- What a call ends with: a value, or an exception.
pub data Returned {ℓ} (A : Type ℓ) : Type ℓ where
  returns : A → Returned A
  throws : Exception → Returned A

-- `Result()`; that of Result<void> is a success.
unfoldable pub default_result {ℓ} : {A : Type ℓ} → Result A
default_result = err (record { code = minus 1; message = uninitialized })

unfoldable pub is_ok {ℓ} : {A : Type ℓ} → Result A → Bool
is_ok (ok a) = true
is_ok (err e) = false

unfoldable pub is_err {ℓ} : {A : Type ℓ} → Result A → Bool
is_err (ok a) = false
is_err (err e) = true

unfoldable pub value {ℓ} : {A : Type ℓ} → Result A → Returned A
value (ok a) = returns a
value (err e) = throws (std_exception contains_error)

unfoldable pub error {ℓ} : {A : Type ℓ} → Result A → Returned Error
error (ok a) = throws (std_exception contains_value)
error (err e) = returns e

-- The flag of a CancelSource by its address; a token is that address.
abbrev pub Flags : Type 0
Flags = ℕ → Bool

unfoldable pub cancel_source : ℕ → Flags → Flags
cancel_source source flags = update flags source false

unfoldable pub cancel : ℕ → Flags → Flags
cancel source flags = update flags source true

unfoldable pub reset_source : ℕ → Flags → Flags
reset_source source flags = update flags source false

unfoldable pub token : ℕ → ℕ
token source = source

-- `is_cancelled`, and what `check_cancel` resumes with.
unfoldable pub is_cancelled : ℕ → Flags → Bool
is_cancelled flag flags = flags flag
