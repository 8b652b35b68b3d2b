-- ===== src/TaskGroup/Valid.antt =====
-- The well-formedness invariant of the task group, and its start.
use cothread.Prelude.{
  ℕ, zero, suc, ◌+◌, ◌^◌, ◌<◌, ◌≡◌, refl, List, [], ◌∷◌, some, arith, All, Fresh, Distinct, Chain,
}
use cothread.Task.{TaskMeta}
use cothread.TaskGroup.{TaskGroup, pool_size, init}

-- `free` are the free slots in the order of the list: each once, each below the pool's size. A
-- TaskMeta knows its slot, and carries the slot's present generation.
pub record IsValid (g : TaskGroup) (free : List ℕ) : Type 0 where
  pub chain : Chain g.free_slots g.free_head free
  pub distinct : Distinct free
  pub bounded : All (λ s. s < pool_size) free
  pub synced :
      (s : ℕ) (m : TaskMeta)
      → g.task_pool s ≡ some m
      → (m.slot_index ≡ s) × (m.generation ≡ g.generations s)
  pub words : (s : ℕ) → g.generations s < 2 ^ 32

-- k slots from slot i on
slots_from : ℕ → ℕ → List ℕ
slots_from zero i = []
slots_from (suc k) i = i ∷ slots_from k (suc i)

slots_from-Fresh : (k i j : ℕ) → i < j → Fresh i (slots_from k j)
unfolding slots_from
slots_from-Fresh zero i j h = tt
slots_from-Fresh (suc k) i j h = (omega arith, slots_from-Fresh k i (suc j) (omega arith))

slots_from-Distinct : (k i : ℕ) → Distinct (slots_from k i)
unfolding slots_from
slots_from-Distinct zero i = tt
slots_from-Distinct (suc k) i =
    (slots_from-Fresh k i (suc i) (omega arith), slots_from-Distinct k (suc i))

slots_from-bounded : (k i n : ℕ) → i + k ≡ n → All (λ s. s < n) (slots_from k i)
unfolding slots_from
slots_from-bounded zero i n h = tt
slots_from-bounded (suc k) i n h = (omega arith, slots_from-bounded k (suc i) n (omega arith))

init-Chain :
    (k i : ℕ) → suc k + i ≡ pool_size → Chain init.free_slots (some i) (slots_from (suc k) i)
unfolding init slots_from
init-Chain zero i h = (refl, ground arith)
init-Chain (suc k) i h = (refl, ground (arith, init-Chain k (suc i)))

init-IsValid_of : (n : ℕ) → suc n ≡ pool_size → IsValid init (slots_from (suc n) 0)
unfolding init
init-IsValid_of n h = record {
  chain = init-Chain n 0 (omega arith);
  distinct = slots_from-Distinct (suc n) 0;
  bounded = slots_from-bounded (suc n) 0 pool_size (omega arith);
  synced = λ s m e. cc;
  words = λ s. omega arith;
}

-- The constructor's group is well formed, and its free list holds each slot of the pool once, in
-- ascending order.
init-IsValid : IsValid init (slots_from pool_size 0)
init-IsValid = init-IsValid_of 16383 refl
