-- ===== src/Uaccess.antt =====
-- Copies between the kernel and a process, src/uaccess.c. The page table of the process is the
-- translation that it makes: the address, or -1UL. Translated addresses are read as they are, since
-- the kernel maps its heap to itself. `size` and `copy_size` are 32-bit words, addresses 64-bit.
pub mod Pages
pub mod Scatter
mod Tests
use ducreu_os.Base.{ℕ, zero, suc, ◌+◌, ◌-◌, ◌%◌, ◌^◌, Option, none, some, ◌==◌, ltb, if◌then◌else◌}
use ducreu_os.Base.Memory.{Mem}
use ducreu_os.Utils.Memory.{memcpy}
use ducreu_os.Mmu.{not_mapped}

-- the bytes of a round: up to the end of the user's page
abbrev pub copy_size : ℕ → ℕ → ℕ
copy_size user_vaddr size =
    let rest = 4096 - user_vaddr % 4096 in if ltb size rest then size else rest

module _ (translate : ℕ → ℕ) where
  -- 0, or 1 at an address that is not mapped, and the memory; the rounds left come first
  pub copy_to_user : ℕ → Mem → ℕ → ℕ → ℕ → Option (ℕ × Mem)
  copy_to_user zero m os user size = none
  copy_to_user (suc n) m os user size =
      let paddr = translate user in
      let k = copy_size user size in
      let rest =
        copy_to_user n (memcpy m paddr os k) ((os + k) % 2 ^ 64) ((user + k) % 2 ^ 64) (size - k) in
      if size == 0 then some (0, m) else if paddr == not_mapped then some (1, m) else rest

  pub copy_to_os : ℕ → Mem → ℕ → ℕ → ℕ → Option (ℕ × Mem)
  copy_to_os zero m os user size = none
  copy_to_os (suc n) m os user size =
      let paddr = translate user in
      let k = copy_size user size in
      let rest =
        copy_to_os n (memcpy m os paddr k) ((os + k) % 2 ^ 64) ((user + k) % 2 ^ 64) (size - k) in
      if size == 0 then some (0, m) else if paddr == not_mapped then some (1, m) else rest
