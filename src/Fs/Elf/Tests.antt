-- ===== src/Fs/Elf/Tests.antt =====
-- A small ELF file is loaded: its bytes, and the entries of its two pages; and a copy into memory.
use relis.Fs.Elf.Bytes.{byte_at, copy_bytes_lem}
use relis.Fs.Elf.{
  load_elf, read_number, read_header, read_segment, copy_bytes, load_pages, load_segments, pages_of,
  store_byte, copy_len,
}
use relis.Mm.Paging.{
  Mmu, alloc, arch_map_page, ensure_table, set_entry, walk_page_table, read, ◌>>=◌,
}
use relis.Mm.PageAlloc.{alloc_page, scan, take_page, set_page, zero_page}
use relis.Prelude.{
  ℕ, ◌+◌, ◌%◌, ◌^◌, ◌≤◌, ◌<◌, ◌≡◌, refl, ◌⊎◌, Option, some, [], ◌∷◌, ◌++◌, arith, get_or, replicate,
}

-- one segment of 3 bytes, which takes 5000 bytes from 0x400000 on
abbrev tiny : ℕ → ℕ
tiny i =
    get_or
      ((0x7f ∷ 0x45 ∷ 0x4c ∷ 0x46 ∷ [])
        ++ replicate 20 0
        ++ (2 ∷ 0 ∷ 0x40 ∷ [])
        ++ replicate 5 0
        ++ (64 ∷ [])
        ++ replicate 23 0
        ++ (1 ∷ [])
        ++ replicate 7 0
        ++ (1 ∷ [])
        ++ replicate 7 0
        ++ (120 ∷ [])
        ++ replicate 7 0
        ++ (0 ∷ 0 ∷ 0x40 ∷ [])
        ++ replicate 13 0
        ++ (3 ∷ [])
        ++ replicate 7 0
        ++ (0x88 ∷ 0x13 ∷ [])
        ++ replicate 14 0
        ++ (0x90 ∷ 0xeb ∷ 0xfe ∷ []))
      i 0

-- eight free pages, with an empty table in the last
abbrev memory : Mmu
memory = record {
  pmm = record {
    bitmap = λ _. 0;
    pages_total = 8;
    pages_free = 8;
    next_free_page = 0;
    mem = λ _. 0;
  };
  cr3 = 28672;
  current_pgd = some 28672;
}

-- the entry point, the first word of the first page, and the entries for both pages
abbrev seen : ℕ × Mmu → Option (ℕ × ℕ × ℕ × ℕ)
seen (e, m) = do
  first ← walk_page_table 0x400000 m
  second ← walk_page_table 0x401000 m
  some (e, read 0 m, read first m, read second m)

load_elf-tiny : (load_elf tiny memory >>= seen) ≡ some (0x400002, 0xfeeb90, 7, 0x4007)
unfolding load_elf read_number read_header read_segment copy_bytes load_pages load_segments pages_of
    store_byte copy_len alloc arch_map_page ensure_table set_entry walk_page_table alloc_page scan
    take_page set_page zero_page
load_elf-tiny = refl

abbrev counted : ℕ → ℕ
counted j = j % 2 ^ 8

copy_bytes_lem_example :
    ((i : ℕ)
      → i < 5
      → byte_at (4093 + i) (copy_bytes 5 4093 254 counted memory) ≡ counted (254 + i))
    × ((a : ℕ)
        → (a < 4093) ⊎ (4093 + 5 ≤ a)
        → byte_at a (copy_bytes 5 4093 254 counted memory) ≡ byte_at a memory)
copy_bytes_lem_example = copy_bytes_lem 5 4093 254 counted memory (λ j. omega arith)
