-- ===== src/Utils.antt =====
-- src/utils.c: memory, text and number routines of the kernel.
pub mod Memory
pub mod Text
pub mod Numbers
pub mod Digits
pub mod Strings
