-- ===== src/TaskGroup/Ids.antt =====
-- Ids: which bthread_t a group accepts.
use cothread.Prelude.{
  ℕ, ◌/◌, ◌%◌, ◌^◌, ◌<◌, ◌≡◌, inl, inr, none, some, List, arith, ◌==◌, if◌then◌else◌, Option-cases,
}
use cothread.Task.{TaskMeta}
use cothread.TaskGroup.{TaskGroup, pool_size, encode_id, decode_id}
use cothread.TaskGroup.Valid.{IsValid}

pub encode_id_parts :
    (slot gen : ℕ)
    → slot < 2 ^ 32
    → (encode_id slot gen % 2 ^ 32 ≡ slot) × (encode_id slot gen / 2 ^ 32 ≡ gen)
unfolding encode_id
encode_id_parts slot gen h = omega arith

pub decode_id-encode_id :
    (g : TaskGroup) (slot gen : ℕ) (m : TaskMeta)
    → slot < pool_size
    → g.task_pool slot ≡ some m
    → decode_id (encode_id slot gen) g ≡ (if m.generation == gen then some slot else none)
unfolding decode_id
decode_id-encode_id g slot gen m h e = ground (arith, encode_id_parts slot gen)

-- Two groups with the same cell for a slot accept the same ids of that slot.
pub decode_id_cong :
    (slot gen : ℕ) (g h : TaskGroup)
    → slot < 2 ^ 32
    → g.task_pool slot ≡ h.task_pool slot
    → decode_id (encode_id slot gen) g ≡ decode_id (encode_id slot gen) h
unfolding decode_id
decode_id_cong slot gen g h p e = ground (arith, encode_id_parts slot gen)

-- A group accepts at most one id for each slot: the one of the slot's present generation.
decode_id_unique :
    (g : TaskGroup) (free : List ℕ) (tid slot : ℕ)
    → IsValid g free
    → decode_id tid g ≡ some slot
    → (tid ≡ encode_id slot (g.generations slot)) × (slot < pool_size)
unfolding decode_id encode_id
decode_id_unique g free tid slot v e = elim (Option-cases (g.task_pool (tid % 2 ^ 32))) [
  | inl gone ↦ absurd (ground (arith))
  | inr (m, there) ↦ ground (arith, v.synced (tid % 2 ^ 32) m there)
]
