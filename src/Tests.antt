-- ===== src/Tests.antt =====
-- Runs on concrete inputs, one for each theorem that has conditions.
mod TimerTests
mod QueueTests
mod TaskGroupTests
mod SyncTests
mod ButexTests
mod MutexTests
mod SchedulerTests
mod ApiTests
mod PlatformTests
mod PromiseTests
mod RunTests
mod HandleTests
