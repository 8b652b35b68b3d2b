-- ===== src/Timer.antt =====
-- The timer thread: src/bthread/detail/timer_thread.cpp and include/bthread/detail/timer_thread.hpp.
pub mod Heap
pub mod Shard
pub mod Thread
