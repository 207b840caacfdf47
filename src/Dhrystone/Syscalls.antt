-- ===== src/Dhrystone/Syscalls.antt =====
-- dhrystone/syscalls.c, of which the scripts have identical copies.
pub mod Laws
use picorv.Base.{ℕ, zero, suc, ◌+◌, ◌-◌, ◌^◌, ◌%◌, List, [], ◌∷◌, ◌==◌, if◌then◌else◌}
use picorv.Base.Text.{Bytes, codes}
use picorv.Console.{Io, ◌>>=◌, ◌>>◌, pure, put, ebreak, fault}

-- `while (*p) *(volatile int*)0x10000000 = *(p++)`; the end of the list is the NUL.
unfoldable pub write_text : Bytes → Io (Unit {0})
write_text [] = pure tt
write_text (c ∷ p) = let rest = put c >> write_text p in if c == 0 then pure tt else rest

unfoldable pub unimplemented_syscall : Io (Unit {0})
unfolding write_text
unimplemented_syscall = do write_text (codes "Unimplemented system call called!\n"); ebreak

-- Always end of file.
unfoldable pub sys_read : ℕ → ℕ → Io ℕ
sys_read file len = pure 0

-- The loop of `_write` with `eptr - ptr` rounds to go. A read past the object is undefined.
write_bytes : ℕ → Bytes → Io (Unit {0})
write_bytes zero ptr = pure tt
write_bytes (suc n) [] = fault
write_bytes (suc n) (c ∷ ptr) = do put c; write_bytes n ptr

unfoldable pub sys_write : ℕ → Bytes → ℕ → Io ℕ
unfolding write_bytes
sys_write file ptr len = do write_bytes len ptr; pure len

-- The static `heap_end`, and the address of the linker's `_end`. A break past 2 ^ 32 wraps.
unfoldable pub sys_sbrk : ℕ → ℕ → ℕ → record { result : ℕ; heap_end : ℕ }
sys_sbrk end_symbol heap_end incr =
    let start = if heap_end == 0 then end_symbol else heap_end in
    record { result = start; heap_end = (start + incr) % 2 ^ 32 }

unfoldable pub sys_exit : ℕ → Io (Unit {0})
sys_exit status = ebreak

-- Nothing to do.
abbrev sys_close : ℕ → Io ℕ
sys_close file = pure 0

-- `errno` and the result -1 as a word; `enoent` is the value of ENOENT in errno.h.
abbrev sys_fstat : ℕ → ℕ → Io record { result : ℕ; errno : ℕ }
sys_fstat enoent file = pure (record { result = 2 ^ 32 - 1; errno = enoent })
