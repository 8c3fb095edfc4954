-- ===== src/Userprog/Syscall.antt =====
-- lib/user/syscall.c: the system calls as a user program makes them, and userprog/syscall_init.c:
-- the table that they go through. A function is its address. Between them stands `syscall_handler`
-- of kernel/kernel.s, which calls the entry of the table that EAX selects with EBX, ECX and EDX.
pub mod Calls
use winux_os.Base.{ℕ, ◌==◌, if◌then◌else◌, update}
use winux_os.Thread.Start.{Tasks}

-- enum SYSCALL_NR
abbrev pub sys_getpid_nr : ℕ
sys_getpid_nr = 0

abbrev pub sys_write_nr : ℕ
sys_write_nr = 1

abbrev pub sys_malloc_nr : ℕ
sys_malloc_nr = 2

abbrev pub sys_free_nr : ℕ
sys_free_nr = 3

-- The addresses of the functions in the kernel.
pub record Services : Type 0 where
  pub sys_getpid : ℕ
  pub sys_write : ℕ
  pub sys_malloc : ℕ
  pub sys_free : ℕ

unfoldable pub syscall_init : Services → (ℕ → ℕ) → ℕ → ℕ
syscall_init k table =
    update
      (update (update (update table sys_getpid_nr k.sys_getpid) sys_write_nr k.sys_write)
        sys_malloc_nr k.sys_malloc)
      sys_free_nr k.sys_free

-- The pid of the running thread.
unfoldable pub sys_getpid : Tasks → ℕ → ℕ
sys_getpid s running_thread = (s.pcbs running_thread).pid

-- The registers at `int $0x80`; the calls leave those that they do not name.
pub record Registers : Type 0 where
  pub eax : ℕ
  pub ebx : ℕ
  pub ecx : ℕ
  pub edx : ℕ

abbrev pub syscall0 : ℕ → Registers → Registers
syscall0 number r = record r { eax = number }

abbrev pub syscall1 : ℕ → ℕ → Registers → Registers
syscall1 number arg1 r = record r { eax = number; ebx = arg1 }

abbrev pub syscall3 : ℕ → ℕ → ℕ → ℕ → Registers → Registers
syscall3 number arg1 arg2 arg3 r = record { eax = number; ebx = arg1; ecx = arg2; edx = arg3 }

unfoldable pub getpid : Registers → Registers
getpid r = syscall0 sys_getpid_nr r

unfoldable pub write : ℕ → ℕ → ℕ → Registers → Registers
write fd buf count r = syscall3 sys_write_nr fd buf count r

unfoldable pub malloc : ℕ → Registers → Registers
malloc size r = syscall1 sys_malloc_nr size r

unfoldable pub free : ℕ → Registers → Registers
free ptr r = syscall1 sys_free_nr ptr r
