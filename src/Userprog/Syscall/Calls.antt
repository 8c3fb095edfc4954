-- ===== src/Userprog/Syscall/Calls.antt =====
-- Which function of the kernel a system call reaches, and with which arguments.
use winux_os.Base.{ℕ, ◌≤◌, ◌≡◌, refl, arith}
use winux_os.Userprog.Syscall.{Services, Registers, syscall_init, getpid, write, malloc, free}

-- `call [syscall_table + eax*4]`, with the three arguments on the stack.
pub record Call : Type 0 where
  pub function : ℕ
  pub arg1 : ℕ
  pub arg2 : ℕ
  pub arg3 : ℕ

abbrev pub syscall_handler : (ℕ → ℕ) → Registers → Call
syscall_handler table r = record {
  function = table r.eax;
  arg1 = r.ebx;
  arg2 = r.ecx;
  arg3 = r.edx;
}

-- After `syscall_init` each of the four calls reaches its own function with its arguments.
pub syscall_init_lem :
    (k : Services) (table : ℕ → ℕ) (r : Registers) (fd buf count size ptr : ℕ)
    → let handle = syscall_handler (syscall_init k table) in
      ((handle (getpid r)).function ≡ k.sys_getpid)
      × (handle (write fd buf count r)
          ≡ record { function = k.sys_write; arg1 = fd; arg2 = buf; arg3 = count })
      × ((handle (malloc size r)).function ≡ k.sys_malloc)
      × ((handle (malloc size r)).arg1 ≡ size)
      × ((handle (free ptr r)).function ≡ k.sys_free)
      × ((handle (free ptr r)).arg1 ≡ ptr)
unfolding syscall_init getpid write malloc free
syscall_init_lem k table r fd buf count size ptr = (refl, refl, refl, refl, refl, refl)

-- No number is refused: from 4 on the call goes to whatever the table holds there.
pub unchecked :
    (k : Services) (table : ℕ → ℕ) (r : Registers)
    → 4 ≤ r.eax
    → (syscall_handler (syscall_init k table) r).function ≡ table r.eax
unfolding syscall_init
unchecked k table r h = ground arith
