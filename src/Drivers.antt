-- ===== src/Drivers.antt =====
-- kernel/drivers/ and drivers/: the keyboard, the text screen, the PCI bus.
pub mod Keyboard
pub mod Vga
pub mod Pci
pub mod Ata
