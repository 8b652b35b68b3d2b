-- ===== src/StealQueue/Ring.antt =====
-- The ring as a list of tasks, oldest first.
use cothread.Prelude.{
  ℕ, ◌+◌, ◌-◌, ◌%◌, ◌^◌, ◌≤◌, ◌<◌, ◌≡◌, refl, ◌∙◌, Option, some, List, [], ◌∷◌, ◌++◌, arith, length,
  update, update_ne, u32,
}
use cothread.StealQueue.{StealQueue, capacity, extract_index, extract_version, make_val, bump, init}

-- The tasks stand in the cells from `i` on, around the ring.
abbrev pub Window : (ℕ → Option ℕ) → ℕ → List ℕ → Type 0
Window buffer i [] = Unit
Window buffer i (x ∷ xs) = (buffer i ≡ some x) × Window buffer ((i + 1) % capacity) xs

-- The queue holds these tasks; fewer than the capacity, since equal indices mean an empty queue.
pub record Holds (q : StealQueue) (xs : List ℕ) : Type 0 where
  pub inside : extract_index q.head < capacity
  pub ends : extract_index q.tail ≡ (extract_index q.head + length xs) % capacity
  pub room : length xs < capacity
  pub window : Window q.buffer (extract_index q.head) xs

index-make_val : (ver idx : ℕ) → idx < 2 ^ 32 → extract_index (make_val ver idx) ≡ idx
unfolding extract_index make_val
index-make_val ver idx h = omega arith

-- Every store counts the version up by one, modulo 2^32.
version-make_val : (ver idx : ℕ) → idx < 2 ^ 32 → extract_version (make_val ver idx) ≡ u32 ver
unfolding extract_version make_val
version-make_val ver idx h = omega arith

pub index-bump : (v i : ℕ) → extract_index (bump v (i % capacity)) ≡ i % capacity
index-bump v i = index-make_val (extract_version v + 1) (i % capacity) (omega arith)

pub init-Holds : Holds init []
unfolding init extract_index
init-Holds = record { inside = omega arith; ends = refl; room = omega arith; window = tt }

-- A write to the cell `d` places on, past the window's end, leaves the window.
pub Window-update :
    (buffer : ℕ → Option ℕ) (i d : ℕ) (v : Option ℕ) (xs : List ℕ)
    → i < capacity
    → d < capacity
    → length xs ≤ d
    → Window buffer i xs
    → Window (update buffer ((i + d) % capacity) v) i xs
Window-update buffer i d v [] hi hd far w = tt
Window-update buffer i d v (x ∷ xs) hi hd far w =
    let same : ((i + 1) % capacity + (d - 1)) % capacity ≡ (i + d) % capacity = omega arith in
    let ih =
      Window-update buffer ((i + 1) % capacity) (d - 1) v xs (omega arith) (omega arith)
        (omega arith) w.1 in
    (update_ne buffer _ i v (omega arith) ∙ w.0, rw same at ih)

-- The entry at the far end of a window.
pub Window-append :
    (buffer : ℕ → Option ℕ) (i : ℕ) (xs : List ℕ) (x : ℕ)
    → i < capacity
    → buffer ((i + length xs) % capacity) ≡ some x
    → Window buffer i xs
    → Window buffer i (xs ++ x ∷ [])
Window-append buffer i [] x h e w = (ground arith, tt)
Window-append buffer i (y ∷ xs) x h e w =
    (w.0, Window-append buffer ((i + 1) % capacity) xs x (omega arith) (ground arith) w.1)

pub Window-append_inv :
    (buffer : ℕ → Option ℕ) (i : ℕ) (xs : List ℕ) (x : ℕ)
    → i < capacity
    → Window buffer i (xs ++ x ∷ [])
    → (buffer ((i + length xs) % capacity) ≡ some x) × Window buffer i xs
Window-append_inv buffer i [] x h w = (ground arith, tt)
Window-append_inv buffer i (y ∷ xs) x h w =
    let ih = Window-append_inv buffer ((i + 1) % capacity) xs x (omega arith) w.1 in
    (ground arith, (w.0, ih.1))
