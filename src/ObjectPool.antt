-- ===== src/ObjectPool.antt =====
-- include/bthread/pool/object_pool.hpp: the pool as a stack linked through `pool_next`. An object is
-- its address; `new T()` gives the address `fresh`, which no earlier call gave, and a deleted address
-- is not given again. Each operation runs by itself, so a compare-exchange succeeds at once.
pub mod Stack
use cothread.Prelude.{ℕ, suc, ◌+◌, ◌-◌, ◌^◌, Option, none, some, leb, if◌then◌else◌, update, u64}

pub record ObjectPool : Type 0 where
  pub max_size : ℕ
  pub head : Option ℕ
  pub count : ℕ
  pub pool_next : ℕ → Option ℕ
  pub fresh : ℕ

unfoldable pub init : ℕ → ObjectPool
init max_size = record {
  max_size = max_size;
  head = none;
  count = 0;
  pool_next = λ _. none;
  fresh = 0;
}

unfoldable pub acquire : ObjectPool → ℕ × ObjectPool
acquire p = elim p.head [
  | none ↦ (p.fresh, record p { pool_next = update p.pool_next p.fresh none; fresh = suc p.fresh })
  | some obj ↦ (
    obj,
    record p {
      head = p.pool_next obj;
      count = u64 (p.count + 2 ^ 64 - 1);
      pool_next = update p.pool_next obj none;
    },
  )
]

-- `none` is the null pointer. A full pool deletes the object.
unfoldable pub release : Option ℕ → ObjectPool → ObjectPool
release none p = p
release (some obj) p = if leb p.max_size p.count then p else record p {
  head = some obj;
  count = u64 (p.count + 1);
  pool_next = update p.pool_next obj p.head;
}

unfoldable pub size : ObjectPool → ℕ
size p = p.count
