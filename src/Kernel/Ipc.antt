-- ===== src/Kernel/Ipc.antt =====
-- kernel/ipc.c: the making of a pipe, and the shared pages of a task.
pub mod Ends
mod Tests
use relis.Prelude.{
  ℕ, zero, suc, ◌+◌, ◌-◌, ◌*◌, ◌/◌, ◌%◌, ◌^◌, ◌≤◌, ◌<◌, min, bit_and, bit_or, bit_xor, ◌≡◌, refl,
  sym, ap, ◌∙◌, subst, ◌≢◌, ◌↔◌, ◌⊎◌, inl, inr, Bool, true, false, not, ◌&&◌, ◌||◌, Option, none,
  some, List, [], ◌∷◌, ◌++◌, map, append_assoc, append-nil, arith, ltb, leb, ◌==◌, if◌then◌else◌,
  ltb→lt, lt→ltb, leb→le, ==_iff, tests, Bool-cases, Option-cases, if_lem, length, get_elem?,
  get_or, set, take, drop, replicate, length-append, length-set, get_or-set_self, get_or-set_ne,
  length-take, length-drop, take-append-drop, length-replicate, get_or-replicate, update,
  update_self, update_ne, test_bit, not64, bit_and_step, bit_or_step, test_bit-and, test_bit-or,
  test_bit-pow, test_bit-not64, bit_and-zero, bit_and-pow, bit_or-lt, bit_and-le, pow-lt,
  bit_and-ones, test_bit-zero, bit_and_align, bit_and_high, bit_and_mask, bit_or_field,
  bit_or-zero_left, bit_or-zero_right, ℤ, pos, negsuc, minus_one, sub_ℕ,
}
use relis.Mm.PageAlloc.{page_size}
use relis.Mm.Paging.{alloc, arch_map_page, pte_writable, pte_user}
use relis.Kernel.State.{Kernel, Task, File, Inode, Pipe, Fop, set_task, current}
use relis.Kernel.Thread.{zeroed_block, sizeof_file, sizeof_inode, ◌>>=◌}
use relis.Kernel.Pipe.{empty_pipe}
use relis.Kernel.Syscall.{place_ends}

-- 4096 bytes and three 32-bit fields
abbrev pub sizeof_pipe : ℕ
sizeof_pipe = 4108

-- the stores into a file and its inode, for the pipe at `p`
unfoldable pub store_end : ℕ → ℕ → Fop → ℕ → Kernel → Kernel
store_end f i fop p k = record k {
  files = update k.files f (record { f_inode = i; f_pos = 0 });
  inodes = update k.inodes i (record { i_private = p; i_fop = fop });
}

-- one of the two files of sys_pipe
unfoldable pub pipe_end : Fop → ℕ → Kernel → Option (ℕ × Kernel)
pipe_end fop p k = do
  (f, k₁) ← zeroed_block sizeof_file k
  (i, k₂) ← zeroed_block sizeof_inode k₁
  some (f, store_end f i fop p k₂)

-- `files` of the current task
unfoldable pub set_files : (ℕ → ℕ) → Kernel → Kernel
set_files files k = set_task k.current_task (record (current k) { files = files }) k

-- The result, and `fds` if it is 0; `none` is a store through a null pointer.
unfoldable pub sys_pipe : Kernel → Option (ℤ × Option (ℕ × ℕ) × Kernel)
sys_pipe k = do
  (p, k₁) ← zeroed_block sizeof_pipe k
  let k₂ = record k₁ { pipes = update k₁.pipes p empty_pipe }
  (read_end, k₃) ← pipe_end Fop.pipe_read_end p k₂
  (write_end, k₄) ← pipe_end Fop.pipe_write_end p k₃
  let (files, fds) = place_ends read_end write_end (current k₄).files
  some (elim fds [ none ↦ minus_one | some both ↦ pos 0 ], fds, set_files files k₄)

abbrev pub max_shm_regions : ℕ
max_shm_regions = 4

abbrev pub shm_vaddr_start : ℕ
shm_vaddr_start = 0x60000000

-- `none` is the halt of the page allocator. The size is not used.
unfoldable pub sys_shmget : Kernel → Option (ℤ × Kernel)
sys_shmget k =
    let t = current k in
    let taken : Option (ℤ × Kernel) = elim (alloc k.mmu) [
      | none ↦ none
      | some (phys, m) ↦ some (
        pos t.shm_count,
        set_task k.current_task
            (record t {
              shm_count = t.shm_count + 1;
              shm_pages = update t.shm_pages t.shm_count phys;
            })
            (record k { mmu = m }),
      )
    ] in
    if leb max_shm_regions t.shm_count then some (minus_one, k) else taken

-- the address of the region with the number
abbrev pub shm_address : ℕ → ℕ
shm_address id = shm_vaddr_start + id * page_size

unfoldable pub sys_shmat : ℤ → Kernel → Option (ℤ × Kernel)
sys_shmat (negsuc n) k = some (minus_one, k)
sys_shmat (pos id) k =
    let t = current k in
    let flags = bit_or pte_writable pte_user in
    let mapped : Option (ℤ × Kernel) =
      elim (arch_map_page (shm_address id) (t.shm_pages id) flags k.mmu) [
        | none ↦ none
        | some m ↦ some (pos (shm_address id), record k { mmu = m })
      ] in
    if leb t.shm_count id then some (minus_one, k) else mapped
