-- ===== src/Printk/Numbers.antt =====
-- The numbers that printk prints read back as themselves.
use relis.Prelude.{ℕ, ◌+◌, ◌-◌, ◌*◌, List, [], ◌∷◌, ltb, if◌then◌else◌}

-- the number that the digits `cs` stand for, behind `v`
abbrev pub read_from : ℕ → (ℕ → ℕ) → ℕ → List ℕ → ℕ
read_from base value v [] = v
read_from base value v (c ∷ cs) = read_from base value (v * base + value c) cs

-- the value of a hexadecimal digit
abbrev pub hex_value : ℕ → ℕ
hex_value c = if ltb c 97 then c - 48 else c - 87
