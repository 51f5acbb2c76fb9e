-- ===== src/Kernel/Pipe/Tests.antt =====
-- Runs of the pipe of kernel/ipc.c, and its theorems at a concrete pipe.
use relis.Prelude.{ℕ, ◌+◌, ◌≤◌, ◌≡◌, List, [], ◌∷◌, ◌++◌, arith, length, length-replicate}
use relis.Kernel.Pipe.{pipe_size, empty_pipe, PipeOp, writes, reads, run_pipe}
use relis.Kernel.Pipe.Fifo.{IsValid, contents, run_pipe-fifo}

empty_pipe-IsValid : IsValid empty_pipe
empty_pipe-IsValid = record {
  size = length-replicate {A = ℕ} pipe_size 0;
  order = omega arith;
  bound = omega arith;
}

abbrev some_ops : List PipeOp
some_ops = writes (1 ∷ 2 ∷ []) ∷ reads 1 ∷ writes (3 ∷ []) ∷ reads 5 ∷ []

run_pipe-fifo_example :
    let (got, put, q) = run_pipe some_ops empty_pipe in
    (contents empty_pipe ++ put ≡ got ++ contents q)
    × (0 + length put ≡ q.write_pos)
    × (q.write_pos ≤ pipe_size)
    × IsValid q
run_pipe-fifo_example = run_pipe-fifo some_ops empty_pipe empty_pipe-IsValid
