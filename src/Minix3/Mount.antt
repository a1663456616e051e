-- ===== src/Minix3/Mount.antt =====
-- `minix3_init` of src/minix3.c, which looks for the device with the file system.
use ducreu_os.Base.{
  ℕ, zero, suc, ◌+◌, ◌<◌, ◌≡◌, ◌⊎◌, inl, inr, refl, subst, Bool-cases, ◌==◌, if◌then◌else◌, Option,
  none, some, arith,
}
use native.Mathlib.Decide.{dec_lt}
use ducreu_os.Base.Memory.{Mem}
use ducreu_os.Minix3.{get_superblock}

abbrev pub mx3_magic : ℕ
mx3_magic = 0x4d5a

-- the globals; `none` stands for the device number -1
pub record Mount : Type 0 where
  pub block_dev : Option ℕ
  pub fs_exists : ℕ
  pub fs_block_size : ℕ

-- from device `i` on, with `n` devices left
init_from : (ℕ → Mem) → ℕ → ℕ → Mount → Mount
init_from disks zero i m = record m { block_dev = none }
init_from disks (suc n) i m =
    let sb = get_superblock (disks i) in
    let rest = init_from disks n (i + 1) m in
    if sb.magic == mx3_magic
    then record { block_dev = some i; fs_exists = 1; fs_block_size = sb.block_size }
    else rest

unfoldable pub minix3_init : (ℕ → Mem) → ℕ → Mount → Mount
unfolding init_from
minix3_init disks num_block_devices m = init_from disks num_block_devices 0 m

abbrev HasMagic : Mem → Type 0
HasMagic disk = (get_superblock disk).magic ≡ mx3_magic

-- device `i` is the first of `n` with the file system
abbrev pub IsMounted : (ℕ → Mem) → ℕ → Mount → Mount → Type 0
IsMounted disks n m m' =
    ((i : ℕ) × (i < n)
      × HasMagic (disks i)
      × ((j : ℕ) → j < i → ¬ HasMagic (disks j))
      × (m' ≡ record {
        block_dev = some i;
        fs_exists = 1;
        fs_block_size = (get_superblock (disks i)).block_size;
      }))
    ⊎ (((j : ℕ) → j < n → ¬ HasMagic (disks j)) × (m' ≡ record m { block_dev = none }))

init_from-IsMounted :
    (disks : ℕ → Mem) (n i : ℕ) (m : Mount)
    → ((j : ℕ) → j < i → ¬ HasMagic (disks j))
    → IsMounted disks (i + n) m (init_from disks n i m)
unfolding init_from
init_from-IsMounted disks zero i m before = inr (λ j lt. before j (omega arith), refl)
init_from-IsMounted disks (suc n) i m before =
    elim (Bool-cases ((get_superblock (disks i)).magic == mx3_magic)) [
      | inl e ↦ inl (i, omega arith, ground arith, before, rw e refl)
      | inr e ↦
          let longer : i + suc n ≡ i + 1 + n = omega arith in
          rw longer (
            rw e (
              init_from-IsMounted disks n (i + 1) m (λ j lt magic. elim (dec_lt j i) [
                | yes p ↦ before j p magic
                | no p ↦
                    let same : j ≡ i = omega arith in
                    absurd (ground (arith, subst (λ d. HasMagic (disks d)) same magic))
              ])))
    ]

-- minix3_init takes the first device whose superblock has the magic number, with its block size; if
-- no device has it, the device number is -1 and nothing else changes.
pub minix3_init_lem :
    (disks : ℕ → Mem) (num_block_devices : ℕ) (m : Mount)
    → IsMounted disks num_block_devices m (minix3_init disks num_block_devices m)
unfolding minix3_init
minix3_init_lem disks n m =
    let whole : 0 + n ≡ n = omega arith in
    subst (λ k. IsMounted disks k m (init_from disks n 0 m)) whole
      (init_from-IsMounted disks n 0 m (λ j lt. absurd (omega arith)))
