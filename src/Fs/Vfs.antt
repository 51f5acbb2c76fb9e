-- ===== src/Fs/Vfs.antt =====
-- fs/vfs.c and include/relis/fs.h: the tree of directory entries and how a path is followed in it.
-- A string is the list of its bytes in front of the final 0.
pub mod Paths
pub mod Leads
mod Tests
use relis.Prelude.{
  ℕ, zero, suc, ◌+◌, ◌-◌, ◌*◌, ◌/◌, ◌%◌, ◌^◌, ◌≤◌, ◌<◌, min, bit_and, bit_or, bit_xor, ◌≡◌, refl,
  sym, ap, ◌∙◌, subst, ◌≢◌, ◌↔◌, ◌⊎◌, inl, inr, Bool, true, false, not, ◌&&◌, ◌||◌, Option, none,
  some, List, [], ◌∷◌, ◌++◌, map, append_assoc, append-nil, arith, ltb, leb, ◌==◌, if◌then◌else◌,
  ltb→lt, lt→ltb, leb→le, ==_iff, tests, Bool-cases, Option-cases, if_lem, length, get_elem?,
  get_or, set, take, drop, replicate, length-append, length-set, get_or-set_self, get_or-set_ne,
  length-take, length-drop, take-append-drop, length-replicate, get_or-replicate, update,
  update_self, update_ne, test_bit, not64, bit_and_step, bit_or_step, test_bit-and, test_bit-or,
  test_bit-pow, test_bit-not64, bit_and-zero, bit_and-pow, bit_or-lt, bit_and-le, pow-lt,
  bit_and-ones, test_bit-zero, bit_and_align, bit_and_high, bit_and_mask, bit_or_field,
  bit_or-zero_left, bit_or-zero_right, ℤ, pos, negsuc, minus_one, sub_ℕ,
}
use relis.Kernel.State.{Kernel, File, Fop, null}
use relis.Kernel.Thread.{new_block, sizeof_file}

-- `struct dentry`, at an address; its two counters are the lengths of the lists. Nothing reads
-- `d_parent`.
pub record Dentry : Type 0 where
  pub d_name : List ℕ
  pub d_inode : ℕ
  pub d_children : List ℕ

-- the entries, by address, and `root_dentry`
pub record Vfs : Type 0 where
  pub dentries : ℕ → Dentry
  pub root_dentry : ℕ

abbrev pub slash : ℕ
slash = 0x2f

-- the size of the buffer for one name of a path
abbrev pub name_size : ℕ
name_size = 64

-- `kstrcmp(a, b) == 0`
unfoldable pub same_name : List ℕ → List ℕ → Bool
same_name [] [] = true
same_name [] (y ∷ b) = false
same_name (x ∷ a) [] = false
same_name (x ∷ a) (y ∷ b) = let rest = same_name a b in if x == y then rest else false

-- the loop over the children of an entry: the first that has the name
unfoldable pub find_child : List ℕ → List ℕ → (ℕ → Dentry) → Option ℕ
unfolding same_name
find_child name [] dentries = none
find_child name (c ∷ children) dentries =
    let rest = find_child name children dentries in
    if same_name (dentries c).d_name name then some c else rest

-- How a walk ends: at an entry, with NULL, or with a write behind the buffer of the name.
pub data Walk : Type 0 where
  found : ℕ → Walk
  missing overrun : Walk

-- what the source does at a slash and at the end of the path with the name that it has collected
unfoldable pub enter_child : List ℕ → ℕ → (ℕ → Dentry) → Option ℕ
unfolding find_child
enter_child [] d dentries = some d
enter_child (c ∷ name) d dentries = find_child (c ∷ name) (dentries d).d_children dentries

-- `if (!found) return NULL`
unfoldable pub descend : Option ℕ → (ℕ → Walk) → Walk
descend none next = missing
descend (some e) next = next e

-- The loop of vfs_open behind the leading slash; `name` is the buffer up to `i`.
unfoldable pub walk : List ℕ → List ℕ → ℕ → (ℕ → Dentry) → Walk
unfolding enter_child descend
walk [] name d dentries =
    if ltb (length name) name_size then descend (enter_child name d dentries) found else overrun
walk (c ∷ path) name d dentries =
    let longer = walk path (name ++ c ∷ []) d dentries in
    let below = descend (enter_child name d dentries) (λ e. walk path [] e dentries) in
    if ltb (length name) name_size then (if c == slash then below else longer) else overrun

-- what vfs_open does: it returns NULL, opens a file, or writes where it must not
pub data Opened : Type 0 where
  refused : Opened
  opened : ℕ → Kernel → Opened
  corrupted : Opened

-- The end of vfs_open, which does not look at what kmalloc returned.
unfoldable pub open_file : Walk → Vfs → Kernel → Opened
open_file missing vfs k = refused
open_file overrun vfs k = corrupted
open_file (found d) vfs k =
    let (file, k₁) = new_block sizeof_file k in
    elim file [
      | none ↦ corrupted
      | some f ↦ opened f (record k₁ {
        files = update k₁.files f (record { f_inode = (vfs.dentries d).d_inode; f_pos = 0 });
      })
    ]

-- the path without its leading slash
unfoldable pub skip_slash : List ℕ → Option (List ℕ)
skip_slash [] = none
skip_slash (c ∷ path) = if c == slash then some path else none

unfoldable pub vfs_open : List ℕ → Vfs → Kernel → Opened
unfolding walk open_file skip_slash
vfs_open path vfs k = if vfs.root_dentry == 0 then refused else elim (skip_slash path) [
  | none ↦ refused
  | some rest ↦ open_file (walk rest [] vfs.root_dentry vfs.dentries) vfs k
]
