-- ===== src/Fs/Proc/Tests.antt =====
-- The text of the processor in three reads.
use relis.Prelude.{ℕ, List, [], ◌∷◌}

abbrev sizes : List ℕ
sizes = 20 ∷ 0 ∷ 100 ∷ []
