-- ===== src/Fs/Vfs/Leads.antt =====
-- Where a path leads in the tree of entries, said without the loops of vfs_open in fs/vfs.c.
use relis.Prelude.{
  ℕ, ◌+◌, ◌≤◌, ◌<◌, ◌≡◌, refl, sym, ap, ◌∙◌, subst, ◌≢◌, inl, inr, true, false, Option, none, some,
  List, [], ◌∷◌, ◌++◌, arith, ltb, ◌==◌, ltb→lt, ==_iff, Bool-cases, length, update, update_self,
  update_ne,
}
use relis.Mm.Slab.{align16, kernel_heap_size}
use relis.Kernel.State.{Kernel, File}
use relis.Kernel.Thread.{sizeof_file}
use relis.Kernel.Thread.Blocks.{top, advance, new_block_lem}
use relis.Fs.Vfs.{
  Dentry, Vfs, slash, name_size, same_name, find_child, enter_child, descend, Walk, found, missing,
  overrun, Opened, refused, opened, corrupted, open_file, skip_slash, vfs_open,
}
use relis.Fs.Vfs.Paths.{split, resolve, vfs_open-resolve}

-- none of the entries has the name
abbrev pub Nameless : (ℕ → Dentry) → List ℕ → List ℕ → Type 0
Nameless dentries name [] = Unit
Nameless dentries name (c ∷ cs) = ((dentries c).d_name ≢ name) × Nameless dentries name cs

-- How the walk over some names from an entry ends: an empty name stays, one of 64 bytes or more does not
-- fit, and otherwise the first child with the name is next, if there is one.
pub data Leads (dentries : ℕ → Dentry) : List (List ℕ) → ℕ → Walk → Type 0 where
  arrives : {d : ℕ} → Leads dentries [] d (found d)
  overflows :
      {n : List ℕ} {names : List (List ℕ)} {d : ℕ}
      → name_size ≤ length n
      → Leads dentries (n ∷ names) d overrun
  stays :
      {names : List (List ℕ)} {d : ℕ} {w : Walk}
      → Leads dentries names d w
      → Leads dentries ([] ∷ names) d w
  enters :
      {n : List ℕ} {names : List (List ℕ)} {d : ℕ} {w : Walk} (before behind : List ℕ) (e : ℕ)
      → length n < name_size
      → n ≢ []
      → (dentries d).d_children ≡ before ++ e ∷ behind
      → (dentries e).d_name ≡ n
      → Nameless dentries n before
      → Leads dentries names e w
      → Leads dentries (n ∷ names) d w
  lacks :
      {n : List ℕ} {names : List (List ℕ)} {d : ℕ}
      → length n < name_size
      → n ≢ []
      → Nameless dentries n (dentries d).d_children
      → Leads dentries (n ∷ names) d missing

same_name-true : (a b : List ℕ) → same_name a b ≡ true → a ≡ b
unfolding same_name
same_name-true [] [] h = refl
same_name-true [] (y ∷ b) h = absurd (ground (arith, h))
same_name-true (x ∷ a) [] h = absurd (ground (arith, h))
same_name-true (x ∷ a) (y ∷ b) h = elim (Bool-cases (x == y)) [
  | inl e ↦
      let head : x ≡ y = (==_iff x y).0 e in
      let tail = same_name-true a b (ground (arith, h, e)) in
      ap (λ (c : ℕ). c ∷ a) head ∙ ap (λ (c : List ℕ). y ∷ c) tail
  | inr e ↦ absurd (ground (arith, h, e))
]

same_name_refl : (a : List ℕ) → same_name a a ≡ true
unfolding same_name
same_name_refl [] = refl
same_name_refl (x ∷ a) = let rest = same_name_refl a in ground (arith, rest)

same_name-false : (a b : List ℕ) → same_name a b ≡ false → a ≢ b
same_name-false a b h e =
    let s : same_name a b ≡ true =
      subst (λ (c : List ℕ). same_name a c ≡ true) e (same_name_refl a) in
    absurd (ground (arith, h, s))

-- what the loop over the children finds
abbrev Finds : List ℕ → List ℕ → (ℕ → Dentry) → Option ℕ → Type 0
Finds name cs dentries none = Nameless dentries name cs
Finds name cs dentries (some e) =
    (before : List ℕ) × (behind : List ℕ) × (cs ≡ before ++ e ∷ behind)
    × ((dentries e).d_name ≡ name)
    × Nameless dentries name before

further :
    (name : List ℕ) (c : ℕ) (cs : List ℕ) (dentries : ℕ → Dentry) (r : Option ℕ)
    → (dentries c).d_name ≢ name
    → Finds name cs dentries r
    → Finds name (c ∷ cs) dentries r
further name c cs dentries none h f = (h, f)
further name c cs dentries (some e) h (before, behind, at, named, others) =
    (c ∷ before, behind, ap (λ (l : List ℕ). c ∷ l) at, named, (h, others))

find_child-Finds :
    (name cs : List ℕ) (dentries : ℕ → Dentry)
    → Finds name cs dentries (find_child name cs dentries)
unfolding find_child
find_child-Finds name [] dentries = tt
find_child-Finds name (c ∷ cs) dentries = elim (Bool-cases (same_name (dentries c).d_name name)) [
  | inl e ↦ rw e ([], cs, refl, same_name-true (dentries c).d_name name e, tt)
  | inr e ↦ rw e (
      further name c cs dentries (find_child name cs dentries)
        (same_name-false (dentries c).d_name name e) (find_child-Finds name cs dentries))
]

found-Leads :
    (n : List ℕ) (names : List (List ℕ)) (d : ℕ) (dentries : ℕ → Dentry) (r : Option ℕ)
    → length n < name_size
    → n ≢ []
    → Finds n (dentries d).d_children dentries r
    → ((e : ℕ) → Leads dentries names e (resolve names e dentries))
    → Leads dentries (n ∷ names) d (descend r (λ e. resolve names e dentries))
unfolding descend
found-Leads n names d dentries none h ne f rest = lacks h ne f
found-Leads n names d dentries (some e) h ne (before, behind, at, named, others) rest =
    enters before behind e h ne at named others (rest e)

not_empty : (c : ℕ) (n : List ℕ) → ◌≢◌ {A = List ℕ} (c ∷ n) []
not_empty c n e = absurd (omega (arith, ap (λ (l : List ℕ). length l) e))

resolve-Leads :
    (names : List (List ℕ)) (d : ℕ) (dentries : ℕ → Dentry)
    → Leads dentries names d (resolve names d dentries)
unfolding resolve enter_child
resolve-Leads [] d dentries = arrives
resolve-Leads ([] ∷ names) d dentries = stays (resolve-Leads names d dentries)
resolve-Leads ((c ∷ n) ∷ names) d dentries = elim (Bool-cases (ltb (length (c ∷ n)) name_size)) [
  | inl l ↦ rw l (
      found-Leads (c ∷ n) names d dentries (find_child (c ∷ n) (dentries d).d_children dentries)
        (ltb→lt (length (c ∷ n)) name_size l) (not_empty c n)
        (find_child-Finds (c ∷ n) (dentries d).d_children dentries)
        (λ e. resolve-Leads names e dentries))
  | inr l ↦ rw l (overflows (ground (arith, l)))
]

-- What vfs_open makes of the end of the walk: at an entry, a new file behind all that the heap had handed
-- out, at the start of the entry's inode; the other files stay.
abbrev pub Opens : Vfs → Kernel → Walk → Opened → Type 0
Opens vfs k missing o = o ≡ refused
Opens vfs k overrun o = o ≡ corrupted
Opens vfs k (found d) o =
    (k' : Kernel) × (o ≡ opened (top k) k')
    × (k'.files (top k) ≡ record { f_inode = (vfs.dentries d).d_inode; f_pos = 0 })
    × ((f : ℕ) → f ≢ top k → k'.files f ≡ k.files f)
    × (k'.heap.heap_ptr ≡ k.heap.heap_ptr + 32)

-- the file in its block
abbrev store : ℕ → Option ℕ × Kernel → Opened
store i r = elim r.0 [
  | none ↦ corrupted
  | some f ↦
      opened f (record r.1 { files = update r.1.files f (record { f_inode = i; f_pos = 0 }) })
]

open_file-Opens :
    (w : Walk) (vfs : Vfs) (k : Kernel)
    → k.heap.heap_ptr + sizeof_file ≤ kernel_heap_size
    → Opens vfs k w (open_file w vfs k)
unfolding open_file align16
open_file-Opens missing vfs k h = refl
open_file-Opens overrun vfs k h = refl
open_file-Opens (found d) vfs k h =
    let new : File = record { f_inode = (vfs.dentries d).d_inode; f_pos = 0 } in
    let k' = record (advance 32 k) { files = update k.files (top k) new } in
    let got = new_block_lem sizeof_file 32 k refl (omega arith) (omega arith) h in
    let e : open_file (found d) vfs k ≡ opened (top k) k' =
      ap (store (vfs.dentries d).d_inode) got in
    (
      k',
      e,
      update_self k.files (top k) new,
      λ f n. update_ne k.files (top k) f new (λ e. n (sym e)),
      refl,
    )

-- With room on the heap for a file, and whatever the entries and the path are: vfs_open refuses the empty
-- path, a path that does not start with a slash, and any without a root. Else the names between the
-- slashes lead from the root to an end, and vfs_open opens the entry there, refuses if a name is
-- missing, and writes behind its buffer if one does not fit.
pub vfs_open-Leads :
    (path : List ℕ) (vfs : Vfs) (k : Kernel)
    → k.heap.heap_ptr + sizeof_file ≤ kernel_heap_size
    → (vfs_open [] vfs k ≡ refused)
      × ((c : ℕ) → c ≢ slash → vfs_open (c ∷ path) vfs k ≡ refused)
      × (vfs.root_dentry ≡ 0 → vfs_open path vfs k ≡ refused)
      × (vfs.root_dentry ≢ 0
          → (w : Walk) × Leads vfs.dentries (split path) vfs.root_dentry w
            × Opens vfs k w (vfs_open (slash ∷ path) vfs k))
unfolding vfs_open skip_slash
vfs_open-Leads path vfs k h =
    let (rootless, other, walked) = vfs_open-resolve path vfs k in
    let w = resolve (split path) vfs.root_dentry vfs.dentries in
    (
      ground arith,
      other,
      rootless,
      λ r. (
        w,
        resolve-Leads (split path) vfs.root_dentry vfs.dentries,
        subst (Opens vfs k w) (sym (walked r)) (open_file-Opens w vfs k h),
      ),
    )
