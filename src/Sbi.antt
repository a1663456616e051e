-- ===== src/Sbi.antt =====
-- The machine-mode firmware, sbi/src: the UART buffer, the CLINT and the hart state machine.
pub mod Uart
pub mod Clint
pub mod Hart
pub mod Svrcall
