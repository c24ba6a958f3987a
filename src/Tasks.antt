-- ===== src/Tasks.antt =====
-- Processes: the linked rings of kernel/lib/list/list.h, and the signals and the scheduler of
-- kernel/multitasking.
pub mod Ring
pub mod Process
pub mod Signal
pub mod Sched
pub mod Create
mod Tests
