-- ===== src/Fs/Elf/Bytes.antt =====
-- What the loops of fs/exec.c and fs/binfmt_elf.c that copy a part of a segment leave in physical memory.
use relis.Mm.Paging.{Mmu, read}
use relis.Fs.Elf.{byte_of, put_byte, store_byte, copy_bytes}
use relis.Prelude.{
  ℕ, zero, suc, ◌+◌, ◌/◌, ◌%◌, ◌^◌, ◌≤◌, ◌<◌, ◌≡◌, refl, sym, ap, ◌∙◌, ◌≢◌, ◌⊎◌, inl, inr, arith,
  ◌==◌, ==_iff, Bool-cases, update, update_self, update_ne,
}

byte_of-put_byte : (i b w : ℕ) → b < 2 ^ 8 → byte_of i (put_byte i b w) ≡ b
unfolding byte_of put_byte
byte_of-put_byte zero b w h = omega arith
byte_of-put_byte (suc i) b w h = ap (byte_of i) (omega arith) ∙ byte_of-put_byte i b (w / 2 ^ 8) h

byte_of-put_byte_ne : (i j b w : ℕ) → b < 2 ^ 8 → j ≢ i → byte_of j (put_byte i b w) ≡ byte_of j w
unfolding byte_of put_byte
byte_of-put_byte_ne zero zero b w h n = absurd (n refl)
byte_of-put_byte_ne zero (suc j) b w h n = ap (byte_of j) (omega arith)
byte_of-put_byte_ne (suc i) zero b w h n = omega arith
byte_of-put_byte_ne (suc i) (suc j) b w h n =
    ap (byte_of j) (omega arith)
    ∙ byte_of-put_byte_ne i j b (w / 2 ^ 8) h (λ e. n (ap (λ (x : ℕ). suc x) e))

-- the byte at a physical address
abbrev pub byte_at : ℕ → Mmu → ℕ
byte_at a m = byte_of (a % 8) (read (a / 8) m)

byte_at-store_byte : (a b : ℕ) (m : Mmu) → b < 2 ^ 8 → byte_at a (store_byte a b m) ≡ b
unfolding store_byte
byte_at-store_byte a b m h =
    let w = put_byte (a % 8) b (read (a / 8) m) in
    ap (byte_of (a % 8)) (update_self m.pmm.mem (a / 8) w)
    ∙ byte_of-put_byte (a % 8) b (read (a / 8) m) h

byte_at-store_byte_ne :
    (a c b : ℕ) (m : Mmu) → b < 2 ^ 8 → c ≢ a → byte_at c (store_byte a b m) ≡ byte_at c m
unfolding store_byte
byte_at-store_byte_ne a c b m h n =
    let w = put_byte (a % 8) b (read (a / 8) m) in
    elim (Bool-cases (c / 8 == a / 8)) [
      | inl e ↦
          let same = (==_iff (c / 8) (a / 8)).0 e in
          ap (λ (k : ℕ). byte_of (c % 8) (update m.pmm.mem (a / 8) w k)) same
          ∙ ap (byte_of (c % 8)) (update_self m.pmm.mem (a / 8) w)
          ∙ byte_of-put_byte_ne (a % 8) (c % 8) b (read (a / 8) m) h
              (λ x. n (omega (arith, same, x)))
          ∙ ap (λ (k : ℕ). byte_of (c % 8) (read k m)) (sym same)
      | inr e ↦
          ap (byte_of (c % 8))
            (update_ne m.pmm.mem (a / 8) (c / 8) w (λ x. absurd (ground (arith, e, x))))
    ]

copy_bytes-outside :
    (n dst src : ℕ) (elf_data : ℕ → ℕ) (m : Mmu) (a : ℕ)
    → ((j : ℕ) → elf_data j < 2 ^ 8)
    → (a < dst) ⊎ (dst + n ≤ a)
    → byte_at a (copy_bytes n dst src elf_data m) ≡ byte_at a m
unfolding copy_bytes
copy_bytes-outside zero dst src elf_data m a h o = refl
copy_bytes-outside (suc n) dst src elf_data m a h o =
    copy_bytes-outside n (dst + 1) (src + 1) elf_data (store_byte dst (elf_data src) m) a h
      (elim o [ inl l ↦ inl (omega arith) | inr l ↦ inr (omega arith) ])
    ∙ byte_at-store_byte_ne dst a (elf_data src) m (h src)
        (λ e. elim o [ inl l ↦ absurd (omega arith) | inr l ↦ absurd (omega arith) ])

copy_bytes-inside :
    (n dst src i : ℕ) (elf_data : ℕ → ℕ) (m : Mmu)
    → ((j : ℕ) → elf_data j < 2 ^ 8)
    → i < n
    → byte_at (dst + i) (copy_bytes n dst src elf_data m) ≡ elf_data (src + i)
unfolding copy_bytes
copy_bytes-inside zero dst src i elf_data m h l = absurd (omega arith)
copy_bytes-inside (suc n) dst src zero elf_data m h l =
    let m₁ = store_byte dst (elf_data src) m in
    ap (λ (a : ℕ). byte_at a (copy_bytes n (dst + 1) (src + 1) elf_data m₁)) (omega arith)
    ∙ copy_bytes-outside n (dst + 1) (src + 1) elf_data m₁ dst h (inl (omega arith))
    ∙ byte_at-store_byte dst (elf_data src) m (h src)
    ∙ ap elf_data (omega arith)
copy_bytes-inside (suc n) dst src (suc i) elf_data m h l =
    let m₁ = store_byte dst (elf_data src) m in
    ap (λ (a : ℕ). byte_at a (copy_bytes n (dst + 1) (src + 1) elf_data m₁)) (omega arith)
    ∙ copy_bytes-inside n (dst + 1) (src + 1) i elf_data m₁ h (omega arith)
    ∙ ap elf_data (omega arith)

-- For a file of bytes, the loop leaves its `n` bytes from offset `src` on at the physical addresses
-- from `dst` on, and every other byte of memory as it was.
pub copy_bytes_lem :
    (n dst src : ℕ) (elf_data : ℕ → ℕ) (m : Mmu)
    → ((j : ℕ) → elf_data j < 2 ^ 8)
    → ((i : ℕ) → i < n → byte_at (dst + i) (copy_bytes n dst src elf_data m) ≡ elf_data (src + i))
      × ((a : ℕ)
          → (a < dst) ⊎ (dst + n ≤ a)
          → byte_at a (copy_bytes n dst src elf_data m) ≡ byte_at a m)
copy_bytes_lem n dst src elf_data m h = (
  λ i. copy_bytes-inside n dst src i elf_data m h,
  λ a. copy_bytes-outside n dst src elf_data m a h,
)
