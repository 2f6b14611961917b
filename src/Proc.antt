-- ===== src/Proc.antt =====
-- xv6_lab3/proc.c, proc.h: the process table and the scheduler.
pub mod Table
pub mod Sched
pub mod Life
pub mod Signal
pub mod Invariant
pub mod System
pub mod Samples
