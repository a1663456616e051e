-- ===== src/Utils/Memory/Tests.antt =====
-- Runs of the memory routines of src/utils.c on a memory that holds `a` at address `a`.
use ducreu_os.Base.{ℕ, zero, suc, ◌+◌, ◌≡◌, refl, List, [], ◌∷◌}
use ducreu_os.Base.Memory.{Mem}
use ducreu_os.Utils.Memory.{memset, memcpy}

abbrev ramp : Mem
ramp a = a

abbrev bytes : ℕ → Mem → ℕ → List ℕ
bytes zero m a = []
bytes (suc n) m a = m a ∷ bytes n m (a + 1)

fill_run : bytes 5 (memset ramp 3 7 11) 11 ≡ 7 ∷ 7 ∷ 7 ∷ 14 ∷ 15 ∷ []
unfolding memset
fill_run = refl

copy_run : bytes 5 (memcpy ramp 20 1 10) 27 ≡ 8 ∷ 9 ∷ 10 ∷ 30 ∷ 31 ∷ []
unfolding memcpy
copy_run = refl
