-- ===== src/Sbi/Clint.antt =====
-- The timer and the software interrupts of the harts, as sbi/src/clint.c sets them in the CLINT's
-- memory. A hart's number is an `int` there, so the callers' numbers are below 2 ^ 31.
use ducreu_os.Base.{ℕ, ◌+◌, ◌%◌, ◌^◌, ◌==◌, leb, if◌then◌else◌}

abbrev pub max_supported_harts : ℕ
max_supported_harts = 8

-- `CLINT_MTIMECMP_INFINITE`
abbrev pub mtimecmp_infinite : ℕ
mtimecmp_infinite = 0x7FFFFFFFFFFFFFFF

pub record Clint : Type 0 where
  pub msip : ℕ → ℕ
  pub mtimecmp : ℕ → ℕ

abbrev pub at : (ℕ → ℕ) → ℕ → ℕ → ℕ → ℕ
at f i v j = if j == i then v else f j

unfoldable pub clint_set_msip : ℕ → Clint → Clint
clint_set_msip hart c =
    if leb max_supported_harts hart then c else record c { msip = at c.msip hart 1 }

unfoldable pub clint_clear_msip : ℕ → Clint → Clint
clint_clear_msip hart c =
    if leb max_supported_harts hart then c else record c { msip = at c.msip hart 0 }

unfoldable pub clint_set_mtimecmp : ℕ → ℕ → Clint → Clint
clint_set_mtimecmp hart val c =
    if leb max_supported_harts hart then c else record c { mtimecmp = at c.mtimecmp hart val }

-- `time` is what `clint_get_time` reads
unfoldable pub clint_add_mtimecmp : ℕ → ℕ → ℕ → Clint → Clint
unfolding clint_set_mtimecmp
clint_add_mtimecmp time hart val c =
    if leb max_supported_harts hart then c else clint_set_mtimecmp hart ((time + val) % 2 ^ 64) c
