-- ===== src/Fs/Vfs/Paths.antt =====
-- What the loop of vfs_open in fs/vfs.c computes: the path cut at its slashes, name by name.
use relis.Prelude.{
  ℕ, ◌≤◌, ◌<◌, ◌≡◌, refl, sym, ap, ◌∙◌, ◌≢◌, inl, inr, true, false, some, List, [], ◌∷◌, ◌++◌,
  append_assoc, append-nil, arith, ltb, ◌==◌, if◌then◌else◌, ltb→lt, Bool-cases, length,
  length-append,
}
use mathlib.Core.Path.{fun_ext}
use relis.Kernel.State.{Kernel}
use relis.Fs.Vfs.{
  Dentry, Vfs, slash, name_size, enter_child, descend, Walk, found, overrun, walk, refused,
  open_file, skip_slash, vfs_open,
}

-- `c` in front of the first name
unfoldable put : ℕ → List (List ℕ) → List (List ℕ)
put c [] = (c ∷ []) ∷ []
put c (n ∷ names) = (c ∷ n) ∷ names

-- the names between the slashes
unfoldable pub split : List ℕ → List (List ℕ)
unfolding put
split [] = [] ∷ []
split (c ∷ path) = if c == slash then [] ∷ split path else put c (split path)

-- One name after the other: empty ones stay where they are, long ones do not fit.
unfoldable pub resolve : List (List ℕ) → ℕ → (ℕ → Dentry) → Walk
unfolding enter_child descend
resolve [] d dentries = found d
resolve (n ∷ names) d dentries =
    let below = descend (enter_child n d dentries) (λ e. resolve names e dentries) in
    if ltb (length n) name_size then below else overrun

-- `name` in front of the first name
unfoldable extend : List ℕ → List (List ℕ) → List (List ℕ)
extend name [] = name ∷ []
extend name (n ∷ names) = (name ++ n) ∷ names

extend-put :
    (name : List ℕ) (c : ℕ) (names : List (List ℕ))
    → extend (name ++ c ∷ []) names ≡ extend name (put c names)
unfolding extend put
extend-put name c [] = refl
extend-put name c (n ∷ names) = ap (λ (m : List ℕ). m ∷ names) (append_assoc name (c ∷ []) n)

-- A name that no longer fits ends the walk, whatever follows.
long-overrun :
    (name : List ℕ) (names : List (List ℕ)) (d : ℕ) (dentries : ℕ → Dentry)
    → name_size ≤ length name
    → resolve (extend name names) d dentries ≡ overrun
unfolding extend resolve
long-overrun name [] d dentries h = ground arith
long-overrun name (n ∷ names) d dentries h = let l = length-append name n in ground arith

begin :
    (names : List (List ℕ)) (d : ℕ) (dentries : ℕ → Dentry)
    → resolve (extend [] names) d dentries ≡ resolve names d dentries
unfolding extend resolve enter_child descend
begin [] d dentries = refl
begin (n ∷ names) d dentries = refl

-- one round of each function
round-walk :
    (path name : List ℕ) (c d : ℕ) (dentries : ℕ → Dentry)
    → walk (c ∷ path) name d dentries ≡ (
        if ltb (length name) name_size
        then (if c == slash
            then descend (enter_child name d dentries) (λ e. walk path [] e dentries)
            else walk path (name ++ c ∷ []) d dentries)
        else overrun)
unfolding walk
round-walk path name c d dentries = refl

round-resolve :
    (names : List (List ℕ)) (name : List ℕ) (d : ℕ) (dentries : ℕ → Dentry)
    → length name < name_size
    → resolve (name ∷ names) d dentries
      ≡ descend (enter_child name d dentries) (λ e. resolve names e dentries)
unfolding resolve
round-resolve names name d dentries h = ground arith

at_slash :
    (c : ℕ) (path name : List ℕ)
    → (c == slash) ≡ true
    → extend name (split (c ∷ path)) ≡ name ∷ split path
unfolding split extend
at_slash c path name h = rw h (ap (λ (n : List ℕ). n ∷ split path) (append-nil name))

elsewhere :
    (c : ℕ) (path name : List ℕ)
    → (c == slash) ≡ false
    → extend name (split (c ∷ path)) ≡ extend (name ++ c ∷ []) (split path)
unfolding split
elsewhere c path name h = rw h (sym (extend-put name c (split path)))

at_end :
    (name : List ℕ) (d : ℕ) (dentries : ℕ → Dentry)
    → walk [] name d dentries ≡ resolve (extend name (split [])) d dentries
unfolding walk split resolve extend
at_end name d dentries =
    ap
      (λ (n : List ℕ).
        if ltb (length n) name_size then descend (enter_child n d dentries) found else overrun)
      (sym (append-nil name))

walk_lem :
    (path name : List ℕ) (d : ℕ) (dentries : ℕ → Dentry)
    → walk path name d dentries ≡ resolve (extend name (split path)) d dentries
walk_lem [] name d dentries = at_end name d dentries
walk_lem (c ∷ path) name d dentries =
    let rest : (e : ℕ) → walk path [] e dentries ≡ resolve (split path) e dentries =
      λ e. walk_lem path [] e dentries ∙ begin (split path) e dentries in
    let longer = walk_lem path (name ++ c ∷ []) d dentries in
    round-walk path name c d dentries ∙ elim (Bool-cases (ltb (length name) name_size)) [
      | inl l ↦ elim (Bool-cases (c == slash)) [
        | inl e ↦ rw l (
            rw e (
              ap (descend (enter_child name d dentries)) (fun_ext rest)
              ∙ sym (round-resolve (split path) name d dentries (ltb→lt (length name) name_size l))
              ∙ ap (λ ns. resolve ns d dentries) (sym (at_slash c path name e))))
        | inr e ↦
            rw l (rw e (longer ∙ ap (λ ns. resolve ns d dentries) (sym (elsewhere c path name e))))
      ]
      | inr l ↦ rw l (sym (long-overrun name (split (c ∷ path)) d dentries (ground (arith, l))))
    ]

-- the walk from an entry, with an empty buffer
pub walk-resolve :
    (path : List ℕ) (d : ℕ) (dentries : ℕ → Dentry)
    → walk path [] d dentries ≡ resolve (split path) d dentries
walk-resolve path d dentries = walk_lem path [] d dentries ∙ begin (split path) d dentries

-- a name that some child has
pub resolve_step :
    (n : List ℕ) (names : List (List ℕ)) (d e : ℕ) (dentries : ℕ → Dentry)
    → length n < name_size
    → enter_child n d dentries ≡ some e
    → resolve (n ∷ names) d dentries ≡ resolve names e dentries
unfolding descend
resolve_step n names d e dentries h c =
    round-resolve names n d dentries h ∙ ap (λ o. descend o (λ f. resolve names f dentries)) c

-- vfs_open, with the path cut at its slashes
pub vfs_open-resolve :
    (path : List ℕ) (vfs : Vfs) (k : Kernel)
    → (vfs.root_dentry ≡ 0 → vfs_open path vfs k ≡ refused)
      × ((c : ℕ) → c ≢ slash → vfs_open (c ∷ path) vfs k ≡ refused)
      × (vfs.root_dentry ≢ 0
          → vfs_open (slash ∷ path) vfs k
            ≡ open_file (resolve (split path) vfs.root_dentry vfs.dentries) vfs k)
unfolding vfs_open skip_slash
vfs_open-resolve path vfs k =
    let e = walk-resolve path vfs.root_dentry vfs.dentries in
    let found_here = ap (λ w. open_file w vfs k) e in
    (
      λ h. ground (arith, h),
      λ c h. ground (arith, h),
      λ h. elim (Bool-cases (vfs.root_dentry == 0)) [
        | inl z ↦ absurd (ground (arith, h, z))
        | inr z ↦ rw z found_here
      ],
    )
