-- ===== src/Kernel/Fork/Tests.antt =====
-- sys_fork in "init", which the scheduler runs after kernel_thread.
use relis.Kernel.State.{Kernel, fair, idle, current}
use relis.Mm.Paging.{Mmu, alloc, copy_words}
use relis.Mm.PageAlloc.{alloc_page, scan, take_page, set_page, zero_page}
use relis.Mm.Paging.Clone.{clone_address_space, clone_user}
use relis.Kernel.Sched.Enqueue.{joined}
use relis.Kernel.Thread.Create.{IsValid}
use relis.Kernel.Thread.Tests.{one, init_task, one-IsValid, heap-one, class-one}
use relis.Kernel.Fork.{sys_fork}
use relis.Kernel.Fork.Create.{told, IsChild, sys_fork-IsValid}
use relis.Prelude.{ℕ, ◌+◌, ◌≡◌, refl, sym, ◌∙◌, ◌≢◌, Option, none, some, [], ◌∷◌, arith, pos}

-- one free page, and tables without an entry
abbrev memory : Mmu
memory = record {
  pmm = record {
    bitmap = λ _. 0;
    pages_total = 1;
    pages_free = 1;
    next_free_page = 0;
    mem = λ _. 0;
  };
  cr3 = 8192;
  current_pgd = none;
}

abbrev copy_of : Option (ℕ × Mmu) → ℕ × Mmu
copy_of none = (0, memory)
copy_of (some r) = r

copied : clone_address_space memory ≡ some (copy_of (clone_address_space memory))
unfolding clone_address_space clone_user alloc alloc_page scan take_page set_page zero_page
    copy_words
copied = refl

-- "init" runs
abbrev running : Kernel
running = record one { current_task = init_task; mmu = memory }

running-IsValid : IsValid running (init_task ∷ []) [] (init_task ∷ 4096 ∷ [])
running-IsValid =
    let v = one-IsValid in record { queues = v.queues; heap = v.heap; unused = v.unused }

class-running : (current running).sched_class ≡ fair
class-running = class-one

fair-busy : fair ≢ idle
fair-busy e = ground (arith, e)

sys_fork-IsValid_example :
    let p = running.at.heap_base + running.heap.heap_ptr in
    let (cs', rs') = joined (current running).sched_class p (init_task ∷ []) [] in
    let (cr3, m) = copy_of (clone_address_space memory) in
    (k' : Kernel) × (sys_fork running ≡ some (pos running.next_pid, k'))
    × IsValid k' cs' rs' (p ∷ init_task ∷ 4096 ∷ [])
    × IsChild (current running) p running.next_pid cr3 (k'.tasks p)
    × (k'.tasks init_task ≡ told (current running))
sys_fork-IsValid_example =
    let r = copy_of (clone_address_space memory) in
    sys_fork-IsValid r.0 r.1 running (init_task ∷ []) [] (init_task ∷ 4096 ∷ []) running-IsValid
      refl (λ e. fair-busy (sym class-running ∙ e)) (omega (arith, heap-one)) copied
