-- ===== src/Dhrystone/Syscalls/Laws.antt =====
-- What the system calls of dhrystone/syscalls.c do.
use picorv.Base.{
  ℕ, zero, suc, ◌+◌, ◌^◌, ◌≤◌, ◌<◌, ◌≡◌, arith, sym, ap, ◌∙◌, [], ◌∷◌, ◌++◌, append-nil,
  append_assoc,
}
use picorv.Base.{take, length, ◌==◌, if◌then◌else◌}
use picorv.Base.Text.{Bytes}
use picorv.Console.{done}
use picorv.Dhrystone.Syscalls.{sys_write, write_bytes, sys_sbrk}

write_bytes-Writes :
    (n : ℕ) (ptr out : Bytes) → n ≤ length ptr → write_bytes n ptr out ≡ done tt (out ++ take n ptr)
unfolding write_bytes
write_bytes-Writes zero ptr out h = ap (done tt) (sym (append-nil out))
write_bytes-Writes (suc n) [] out h = absurd (omega arith)
write_bytes-Writes (suc n) (c ∷ ptr) out h =
    write_bytes-Writes n ptr (out ++ c ∷ []) (omega arith)
    ∙ ap (done tt) (append_assoc out (c ∷ []) (take n ptr))

-- `_write` puts out exactly the first `len` bytes of its object, and returns `len`.
pub sys_write-done :
    (file len : ℕ) (ptr out : Bytes)
    → len ≤ length ptr
    → sys_write file ptr len out ≡ done len (out ++ take len ptr)
unfolding sys_write
sys_write-done file len ptr out h = rw (write_bytes-Writes len ptr out h)

-- Two calls of `_sbrk` in a row: the second block begins where the first, of `a` bytes, ends, as
-- long as the break stays below 2 ^ 32; the first block of a run begins at `_end`.
pub sbrk-sbrk :
    (end_symbol heap_end a b : ℕ)
    → 0 < end_symbol
    → end_symbol + a < 2 ^ 32
    → heap_end + a < 2 ^ 32
    → let first = sys_sbrk end_symbol heap_end a in
      let second = sys_sbrk end_symbol first.heap_end b in
      (first.result ≡ (if heap_end == 0 then end_symbol else heap_end))
      × (second.result ≡ first.result + a)
unfolding sys_sbrk
sbrk-sbrk end_symbol heap_end a b pos fits fits' = ground arith
