-- ===== src/Userprog.antt =====
-- User processes and system calls: userprog/ and lib/user/syscall.c.
pub mod Tss
pub mod Process
pub mod Syscall
