-- ===== src/Kernel/Ipc/Ends.antt =====
-- What sys_pipe of kernel/ipc.c leaves in the table of the task and behind it.
use relis.Prelude.{
  ℕ, zero, suc, ◌+◌, ◌-◌, ◌≤◌, ◌<◌, ◌≡◌, refl, sym, ap, ◌∙◌, ◌≢◌, inl, inr, some, arith, ◌==◌,
  ==_iff, Bool-cases, update, update_self, update_ne, pos,
}
use relis.Mm.Slab.{align16, kernel_heap_size}
use relis.Kernel.State.{Kernel, Task, File, Inode, Fop, max_fds, current}
use relis.Kernel.Thread.{sizeof_file, sizeof_inode}
use relis.Kernel.Thread.Blocks.{advance, top, block, further, advance_twice}
use relis.Kernel.Pipe.{empty_pipe}
use relis.Kernel.Syscall.{first_free, place_ends}
use relis.Kernel.Ipc.{sizeof_pipe, store_end, pipe_end, set_files, sys_pipe}

-- The search finds a free descriptor that no lower one precedes.
first_free_lem :
    (n i j : ℕ) (files : ℕ → ℕ)
    → i ≤ j
    → j < i + n
    → files j ≡ 0
    → ((m : ℕ) → i ≤ m → m < j → files m ≢ 0)
    → first_free n i files ≡ some j
unfolding first_free
first_free_lem zero i j files a b h k = absurd (omega arith)
first_free_lem (suc n) i j files a b h k = elim (Bool-cases (i == j)) [
  | inl e ↦
      let same = (==_iff i j).0 e in
      let free : files i ≡ 0 = ap files same ∙ h in ground (arith, free, same)
  | inr e ↦
      let used : files i ≢ 0 = k i (omega arith) (ground (arith, a, e)) in
      let rest =
        first_free_lem n (i + 1) j files (ground (arith, a, e)) (omega arith) h
          (λ m l u. k m (omega arith) u) in
      ground (arith, used, rest)
]

-- `rfd` and `wfd` are the two lowest free descriptors of the table.
pub record TwoFree (rfd wfd : ℕ) (files : ℕ → ℕ) : Type 0 where
  pub order : rfd < wfd
  pub bound : wfd < max_fds
  pub first : files rfd ≡ 0
  pub second : files wfd ≡ 0
  pub taken : (m : ℕ) → m < wfd → m ≢ rfd → files m ≢ 0

place_ends_lem :
    (r w rfd wfd : ℕ) (files : ℕ → ℕ)
    → TwoFree rfd wfd files
    → place_ends r w files ≡ (update (update files rfd r) wfd w, some (rfd, wfd))
unfolding place_ends
place_ends_lem r w rfd wfd files t =
    let l = t.order in
    let b = t.bound in
    let one =
      first_free_lem max_fds 0 rfd files (omega arith) (omega arith) t.first
        (λ m x y. t.taken m (omega arith) (λ e. absurd (omega (arith, e, y)))) in
    let under : (m : ℕ) → rfd < m → update files rfd r m ≡ files m =
      λ m x. update_ne files rfd m r (λ e. absurd (omega (arith, e, x))) in
    let two =
      first_free_lem (max_fds - (rfd + 1)) (rfd + 1) wfd (update files rfd r) (omega arith)
        (omega arith) (under wfd l ∙ t.second)
        (λ m x y e.
          t.taken m y (λ q. absurd (omega (arith, q, x))) (sym (under m (omega arith)) ∙ e)) in
    rw (place_ends, one) (rw two refl)

pipe_end_lem :
    (fop : Fop) (p : ℕ) (k : Kernel)
    → k.heap.heap_ptr + 64 ≤ kernel_heap_size
    → pipe_end fop p k ≡ some (top k, store_end (top k) (top k + 32) fop p (advance 64 k))
unfolding pipe_end align16
pipe_end_lem fop p k h =
    rw
      (
        block sizeof_file 32 k refl (omega arith) (omega arith) (omega arith),
        block sizeof_inode 32 (advance 32 k) refl (omega arith) (omega arith) (omega arith),
      )
      (ap (λ (i : ℕ). some (top k, store_end (top k) i fop p (advance 32 (advance 32 k))))
          (further k.at.heap_base k.heap.heap_ptr 32)
        ∙ ap (λ (l : Kernel). some (top k, store_end (top k) (top k + 32) fop p l))
            (advance_twice 32 32 k))

-- Two descriptors of the current task that lead to the two ends of one pipe, which is empty and lies in
-- bytes that the heap `k` had not handed out and `k'` has.
pub record Connected (rfd wfd : ℕ) (k k' : Kernel) : Type 0 where
  pub pipe : ℕ
  pub reading :
      k'.inodes (k'.files ((current k').files rfd)).f_inode
      ≡ record { i_private = pipe; i_fop = Fop.pipe_read_end }
  pub writing :
      k'.inodes (k'.files ((current k').files wfd)).f_inode
      ≡ record { i_private = pipe; i_fop = Fop.pipe_write_end }
  pub empty : k'.pipes pipe ≡ empty_pipe
  pub behind : k.at.heap_base + k.heap.heap_ptr ≤ pipe
  pub reserved : pipe + sizeof_pipe ≤ k'.at.heap_base + k'.heap.heap_ptr
  pub same_pipes : (q : ℕ) → q ≢ pipe → k'.pipes q ≡ k.pipes q
  pub others : (m : ℕ) → m ≢ rfd → m ≢ wfd → (current k').files m ≡ (current k).files m

-- the states between the allocations
abbrev with_pipe : Kernel → Kernel
with_pipe k = record (advance 4112 k) { pipes = update k.pipes (top k) empty_pipe }

abbrev read_end : Kernel → ℕ
read_end k = top (with_pipe k)

abbrev with_read_end : Kernel → Kernel
with_read_end k =
    store_end (read_end k) (read_end k + 32) Fop.pipe_read_end (top k) (advance 64 (with_pipe k))

abbrev write_end : Kernel → ℕ
write_end k = k.at.heap_base + (k.heap.heap_ptr + 4112 + 64)

abbrev with_ends : Kernel → Kernel
with_ends k =
    store_end (write_end k) (write_end k + 32) Fop.pipe_write_end (top k)
      (advance 64 (with_read_end k))

abbrev table : ℕ → ℕ → Kernel → ℕ → ℕ
table rfd wfd k = update (update (current k).files rfd (read_end k)) wfd (write_end k)

sys_pipe_lem :
    (rfd wfd : ℕ) (k : Kernel)
    → TwoFree rfd wfd (current k).files
    → k.heap.heap_ptr + 4300 ≤ kernel_heap_size
    → sys_pipe k ≡ some (pos 0, some (rfd, wfd), set_files (table rfd wfd k) (with_ends k))
unfolding sys_pipe align16 store_end
sys_pipe_lem rfd wfd k t h =
    rw (block sizeof_pipe 4112 k refl (omega arith) (omega arith) (omega arith)) (
      rw (pipe_end_lem Fop.pipe_read_end (top k) (with_pipe k) (omega arith)) (
        rw (pipe_end_lem Fop.pipe_write_end (top k) (with_read_end k) (omega arith))
          (rw (place_ends_lem (read_end k) (write_end k) rfd wfd (current k).files t) refl)))

-- For a task whose two lowest free descriptors are `rfd` and `wfd`, and with room on the heap, sys_pipe
-- returns 0 and the two of them, in this order; they lead to the reading and the writing end of one
-- empty pipe, which lies behind all that the heap had handed out; the other pipes and the task's
-- other descriptors stay.
pub sys_pipe-Connected :
    (rfd wfd : ℕ) (k : Kernel)
    → TwoFree rfd wfd (current k).files
    → k.heap.heap_ptr + 4300 ≤ kernel_heap_size
    → (k' : Kernel) × (sys_pipe k ≡ some (pos 0, some (rfd, wfd), k')) × Connected rfd wfd k k'
unfolding set_files store_end
sys_pipe-Connected rfd wfd k t h =
    let k' = set_files (table rfd wfd k) (with_ends k) in
    let r = read_end k in
    let w = write_end k in
    let l = t.order in
    let mine : (current k').files ≡ table rfd wfd k =
      ap (λ (v : Task). v.files)
        (update_self k.tasks k.current_task (record (current k) { files = table rfd wfd k })) in
    let at_r : (current k').files rfd ≡ r =
      ap (λ (f : ℕ → ℕ). f rfd) mine
      ∙ update_ne (update (current k).files rfd r) wfd rfd w (λ e. absurd (omega (arith, e, l)))
      ∙ update_self (current k).files rfd r in
    let at_w : (current k').files wfd ≡ w =
      ap (λ (f : ℕ → ℕ). f wfd) mine ∙ update_self (update (current k).files rfd r) wfd w in
    let fr : File = record { f_inode = r + 32; f_pos = 0 } in
    let fw : File = record { f_inode = w + 32; f_pos = 0 } in
    let ir : Inode = record { i_private = top k; i_fop = Fop.pipe_read_end } in
    let iw : Inode = record { i_private = top k; i_fop = Fop.pipe_write_end } in
    let file_r : k'.files r ≡ fr =
      update_ne (update k.files r fr) w r fw (omega arith) ∙ update_self k.files r fr in
    let file_w : k'.files w ≡ fw = update_self (update k.files r fr) w fw in
    let inode_r : k'.inodes (r + 32) ≡ ir =
      update_ne (update k.inodes (r + 32) ir) (w + 32) (r + 32) iw (omega arith)
      ∙ update_self k.inodes (r + 32) ir in
    let inode_w : k'.inodes (w + 32) ≡ iw = update_self (update k.inodes (r + 32) ir) (w + 32) iw in
    (
      k',
      sys_pipe_lem rfd wfd k t h,
      record {
        pipe = top k;
        reading =
            ap (λ (a : ℕ). k'.inodes (k'.files a).f_inode) at_r
            ∙ ap (λ (f : File). k'.inodes f.f_inode) file_r
            ∙ inode_r;
        writing =
            ap (λ (a : ℕ). k'.inodes (k'.files a).f_inode) at_w
            ∙ ap (λ (f : File). k'.inodes f.f_inode) file_w
            ∙ inode_w;
        empty = update_self k.pipes (top k) empty_pipe;
        behind = omega arith;
        reserved = omega arith;
        same_pipes = λ q h. update_ne k.pipes (top k) q empty_pipe (λ e. h (sym e));
        others = λ m p q.
            ap (λ (f : ℕ → ℕ). f m) mine
            ∙ update_ne (update (current k).files rfd r) wfd m w (λ e. q (sym e))
            ∙ update_ne (current k).files rfd m r (λ e. p (sym e));
      },
    )
