-- ===== src/Fs/Elf.antt =====
-- fs/exec.c and fs/binfmt_elf.c: how the segments of an ELF file get into memory. The file is a function
-- from offsets to bytes, which the kernel does not write meanwhile; its offsets do not wrap.
pub mod Bytes
mod Tests
use relis.Prelude.{
  ℕ, zero, suc, ◌+◌, ◌-◌, ◌*◌, ◌/◌, ◌%◌, ◌^◌, ◌≤◌, ◌<◌, min, bit_and, bit_or, bit_xor, ◌≡◌, refl,
  sym, ap, ◌∙◌, subst, ◌≢◌, ◌↔◌, ◌⊎◌, inl, inr, Bool, true, false, not, ◌&&◌, ◌||◌, Option, none,
  some, List, [], ◌∷◌, ◌++◌, map, append_assoc, append-nil, arith, ltb, leb, ◌==◌, if◌then◌else◌,
  ltb→lt, lt→ltb, leb→le, ==_iff, tests, Bool-cases, Option-cases, if_lem, length, get_elem?,
  get_or, set, take, drop, replicate, length-append, length-set, get_or-set_self, get_or-set_ne,
  length-take, length-drop, take-append-drop, length-replicate, get_or-replicate, update,
  update_self, update_ne, test_bit, not64, bit_and_step, bit_or_step, test_bit-and, test_bit-or,
  test_bit-pow, test_bit-not64, bit_and-zero, bit_and-pow, bit_or-lt, bit_and-le, pow-lt,
  bit_and-ones, test_bit-zero, bit_and_align, bit_and_high, bit_and_mask, bit_or_field,
  bit_or-zero_left, bit_or-zero_right, ℤ, pos, negsuc, minus_one, sub_ℕ,
}
use relis.Mm.PageAlloc.{page_size}
use relis.Mm.Paging.{
  Mmu, alloc, read, write, arch_map_page, create_new_address_space, switch_address_space,
  pte_writable, pte_user, pte_global, ◌>>=◌,
}
use relis.Kernel.State.{Kernel, set_task, current}

abbrev pub elf_magic : ℕ
elf_magic = 0x464c457f

abbrev pub pt_load : ℕ
pt_load = 1

-- The number in `n` bytes from an offset on, the lowest first.
unfoldable pub read_number : ℕ → ℕ → (ℕ → ℕ) → ℕ
read_number zero at elf_data = 0
read_number (suc n) at elf_data = elf_data at + read_number n (at + 1) elf_data * 2 ^ 8

-- the fields of elf64_hdr_t that the loaders read
pub record Header : Type 0 where
  pub e_magic : ℕ
  pub e_entry : ℕ
  pub e_phoff : ℕ
  pub e_phnum : ℕ

unfoldable pub read_header : (ℕ → ℕ) → Header
unfolding read_number
read_header elf_data = record {
  e_magic = read_number 4 0 elf_data;
  e_entry = read_number 8 24 elf_data;
  e_phoff = read_number 8 32 elf_data;
  e_phnum = read_number 2 56 elf_data;
}

-- the fields of elf64_phdr_t that they read
pub record Segment : Type 0 where
  pub p_type : ℕ
  pub p_offset : ℕ
  pub p_vaddr : ℕ
  pub p_filesz : ℕ
  pub p_memsz : ℕ

-- `phdr[i]`, of 56 bytes
unfoldable pub read_segment : ℕ → ℕ → (ℕ → ℕ) → Segment
unfolding read_number
read_segment e_phoff i elf_data =
    let at = e_phoff + i * 56 in
    record {
      p_type = read_number 4 at elf_data;
      p_offset = read_number 8 (at + 8) elf_data;
      p_vaddr = read_number 8 (at + 16) elf_data;
      p_filesz = read_number 8 (at + 32) elf_data;
      p_memsz = read_number 8 (at + 40) elf_data;
    }

-- byte `i` of a word, and the word with another byte there
unfoldable pub byte_of : ℕ → ℕ → ℕ
byte_of zero w = w % 2 ^ 8
byte_of (suc i) w = byte_of i (w / 2 ^ 8)

unfoldable pub put_byte : ℕ → ℕ → ℕ → ℕ
put_byte zero b w = w / 2 ^ 8 * 2 ^ 8 + b
put_byte (suc i) b w = put_byte i b (w / 2 ^ 8) * 2 ^ 8 + w % 2 ^ 8

-- A store of one byte at a physical address, into its word.
unfoldable pub store_byte : ℕ → ℕ → Mmu → Mmu
unfolding put_byte
store_byte phys b m = write (phys / 8) (put_byte (phys % 8) b (read (phys / 8) m)) m

-- `n` bytes of the file from offset `src` on, to the physical address `dst`
unfoldable pub copy_bytes : ℕ → ℕ → ℕ → (ℕ → ℕ) → Mmu → Mmu
unfolding store_byte
copy_bytes zero dst src elf_data m = m
copy_bytes (suc n) dst src elf_data m =
    copy_bytes n (dst + 1) (src + 1) elf_data (store_byte dst (elf_data src) m)

-- `copy_len` for a page of the segment at `offset`, 0 where nothing is copied
unfoldable pub copy_len : ℕ → ℕ → ℕ
copy_len offset filesz =
    if ltb offset filesz
    then (if ltb filesz (offset + page_size) then filesz - offset else page_size)
    else 0

-- The loop over the pages of a segment from page `j` on, `n` of them; `none` is the halt of the page
-- allocator.
unfoldable pub load_pages : ℕ → ℕ → Segment → (ℕ → ℕ) → Mmu → Option Mmu
unfolding copy_bytes copy_len
load_pages zero j s elf_data m = some m
load_pages (suc n) j s elf_data m = do
  (phys, m₁) ← alloc m
  let offset = j * page_size
  let flags = bit_or pte_writable pte_user
  m₂ ← arch_map_page ((s.p_vaddr + offset) % 2 ^ 64) phys flags m₁
  load_pages n (j + 1) s elf_data
      (copy_bytes (copy_len offset s.p_filesz) phys (s.p_offset + offset) elf_data m₂)

-- the number of pages that a segment takes
unfoldable pub pages_of : Segment → ℕ
pages_of s = (s.p_memsz + page_size - 1) % 2 ^ 64 / page_size

-- The loop over the segments from number `i` on, `n` of them.
unfoldable pub load_segments : ℕ → ℕ → ℕ → (ℕ → ℕ) → Mmu → Option Mmu
unfolding read_segment load_pages pages_of
load_segments zero i e_phoff elf_data m = some m
load_segments (suc n) i e_phoff elf_data m =
    let s = read_segment e_phoff i elf_data in
    let loaded : Option Mmu =
      if s.p_type == pt_load then load_pages (pages_of s) 0 s elf_data m else some m in
    loaded >>= load_segments n (i + 1) e_phoff elf_data

-- The entry point, 0 for a file that is none.
unfoldable pub load_elf : (ℕ → ℕ) → Mmu → Option (ℕ × Mmu)
unfolding read_header load_segments
load_elf elf_data m =
    let h = read_header elf_data in
    if h.e_magic == elf_magic
    then (load_segments h.e_phnum 0 h.e_phoff elf_data m >>= λ r. some (h.e_entry, r))
    else some (0, m)

abbrev pub user_stack : ℕ
user_stack = 0x40000000

abbrev pub screen_base : ℕ
screen_base = 0xb8000

-- The part of exec_user_program up to the task: a new address space with the screen and the segments.
unfoldable pub load_program : Header → (ℕ → ℕ) → Mmu → Option (ℕ × Mmu)
unfolding load_segments
load_program h elf_data m = do
  (new_cr3, m₁) ← create_new_address_space m
  m₂ ←
      arch_map_page screen_base screen_base (bit_or pte_writable pte_global)
        (switch_address_space new_cr3 m₁)
  m₃ ← load_segments h.e_phnum 0 h.e_phoff elf_data m₂
  some (new_cr3, m₃)

-- The stores into the task: the bounds of its stack and its address space.
unfoldable pub start_program : ℕ × Mmu → Kernel → Kernel
start_program (new_cr3, m) k =
    set_task k.current_task
      (record (current k) {
        stack_start = user_stack - 4 * page_size;
        stack_end = user_stack;
        cr3 = new_cr3;
      })
      (record k { mmu = m })

-- Where drop_to_user gets the stack pointer and the entry point, if the file is a program.
unfoldable pub exec_user_program : (ℕ → ℕ) → Kernel → Option (Option (ℕ × ℕ) × Kernel)
unfolding read_header load_program start_program
exec_user_program elf_data k =
    let h = read_header elf_data in
    if h.e_magic == elf_magic
    then (load_program h elf_data k.mmu >>= λ r.
        some (some (user_stack - 16, h.e_entry), start_program r k))
    else some (none, k)
