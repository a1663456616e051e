-- ===== src/Utils/Numbers/Tests.antt =====
-- Runs of the integer square root of src/utils.c, and the conditions of its theorem there.
use ducreu_os.Base.{◌≡◌, some, refl}
use ducreu_os.Utils.Numbers.{isqrt}

isqrt_99 : isqrt 11 99 ≡ some 9
unfolding isqrt
isqrt_99 = refl

isqrt_one : isqrt 1 1 ≡ some 0
unfolding isqrt
isqrt_one = refl
