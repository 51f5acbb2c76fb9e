-- ===== src/Arch.antt =====
-- arch/: the tables of the processor.
pub mod Idt
pub mod Gdt
