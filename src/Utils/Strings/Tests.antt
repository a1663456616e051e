-- ===== src/Utils/Strings/Tests.antt =====
-- A run of `mstrtac` of src/utils.c, and the conditions of its theorem there.
use ducreu_os.Base.{ℕ, zero, suc, ◌+◌, ◌<◌, ◌≢◌, ◌==◌, if◌then◌else◌, arith}
use ducreu_os.Base.Memory.{Mem}

-- "x" at 16 and "yz" at 32
abbrev texts : Mem
texts c = if c == 16 then 120 else if c == 32 then 121 else if c == 33 then 122 else 0

x-chars : (i : ℕ) → i < 1 → texts (16 + i) ≢ 0
x-chars zero lt = λ e. absurd (ground arith)
x-chars (suc i) lt = absurd (omega arith)

yz-chars : (i : ℕ) → i < 2 → texts (32 + i) ≢ 0
yz-chars zero lt = λ e. absurd (ground arith)
yz-chars (suc zero) lt = λ e. absurd (ground arith)
yz-chars (suc (suc i)) lt = absurd (omega arith)
