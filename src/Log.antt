-- ===== src/Log.antt =====
-- xv6_lab3/log.c: the write-ahead log of the file system.
pub mod Disk
pub mod Admission
