-- ===== src/Uaccess/Tests.antt =====
-- A copy of two bytes across the border of two pages, and the conditions of the theorems there.
use ducreu_os.Base.{
  ℕ, zero, suc, ◌+◌, ◌-◌, ◌*◌, ◌%◌, ◌<◌, ◌≡◌, ◌≢◌, refl, some, [], ◌==◌, false, if◌then◌else◌,
  arith,
}
use ducreu_os.Base.Memory.{Mem, within}
use ducreu_os.Mmu.{Tables, mmu_translate, walk, not_mapped}
use ducreu_os.Uaccess.{copy_to_os, copy_to_user}
use ducreu_os.Uaccess.Pages.{Ready, copy_to_os-mmu_translate}
use ducreu_os.Uaccess.Scatter.{OneToOne, Scattered, copy_to_user-mmu_translate}

-- The pages at 0x10000 and 0x11000 are mapped to 0x8000 and 0xA000.
abbrev tables : Tables
tables = record {
  entries = λ a j.
      if a == 0x1000
      then 0x801
      else if a == 0x2000
      then 0xC01
      else if j == 16
      then 0x8 * 1024 + 7
      else if j == 17
      then 0xA * 1024 + 7
      else 0;
  pool = [];
  lock = 1;
}

abbrev user : ℕ
user = 0x10FFF

abbrev memory : Mem
memory a = a % 256

translations :
    (mmu_translate tables 0x1000 user ≡ 0x8FFF) × (mmu_translate tables 0x1000 (user + 1) ≡ 0xA000)
unfolding mmu_translate walk
translations = (refl, refl)

user-mapped : (j : ℕ) → j < 2 → mmu_translate tables 0x1000 (user + j) ≢ not_mapped
user-mapped zero lt = λ e. absurd (omega (arith, e, translations.0))
user-mapped (suc zero) lt = λ e. absurd (omega (arith, e, translations.1))
user-mapped (suc (suc j)) lt = absurd (omega arith)

user-apart : (j : ℕ) → j < 2 → within 0x500 2 (mmu_translate tables 0x1000 (user + j)) ≡ false
user-apart zero lt = ground (arith, translations.0)
user-apart (suc zero) lt = ground (arith, translations.1)
user-apart (suc (suc j)) lt = absurd (omega arith)

user-Ready : Ready (mmu_translate tables 0x1000) 0x500 user 2
user-Ready = record {
  mapped = user-mapped;
  apart = user-apart;
  os_room = omega arith;
  user_room = omega arith;
}

user-OneToOne : OneToOne (mmu_translate tables 0x1000) user 2
user-OneToOne zero zero hi hj e = refl
user-OneToOne zero (suc zero) hi hj e = absurd (omega (arith, e, translations.0, translations.1))
user-OneToOne (suc zero) zero hi hj e = absurd (omega (arith, e, translations.0, translations.1))
user-OneToOne (suc zero) (suc zero) hi hj e = refl
user-OneToOne (suc (suc i)) j hi hj e = absurd (omega arith)
user-OneToOne i (suc (suc j)) hi hj e = absurd (omega arith)

copy_to_os-mmu_translate_example :
    (m' : Mem) × (copy_to_os (mmu_translate tables 0x1000) 3 memory 0x500 user 2 ≡ some (0, m'))
    × ((a : ℕ)
        → m' a ≡ (
            if within 0x500 2 a
            then memory (mmu_translate tables 0x1000 (user + (a - 0x500)))
            else memory a))
copy_to_os-mmu_translate_example =
    copy_to_os-mmu_translate tables 0x1000 3 memory 0x500 user 2 user-Ready (omega arith)

copy_to_user-mmu_translate_example :
    (m' : Mem) × (copy_to_user (mmu_translate tables 0x1000) 3 memory 0x500 user 2 ≡ some (0, m'))
    × Scattered (mmu_translate tables 0x1000) memory 0x500 user 2 m'
copy_to_user-mmu_translate_example =
    copy_to_user-mmu_translate tables 0x1000 3 memory 0x500 user 2 user-Ready user-OneToOne
      (omega arith)
