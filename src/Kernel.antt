-- ===== src/Kernel.antt =====
-- kernel/: tasks, the scheduler, signals, pipes, system calls.
pub mod State
pub mod Sched
pub mod Thread
pub mod Pipe
pub mod Signal
pub mod Syscall
pub mod Spinlock
pub mod Irq
pub mod Ipc
pub mod Fork
