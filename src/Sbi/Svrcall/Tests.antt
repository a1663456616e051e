-- ===== src/Sbi/Svrcall/Tests.antt =====
-- Runs of sbi/src/svrcall.c, and the conditions of its theorems there.
use ducreu_os.Base.{
  ℕ, ◌+◌, ◌^◌, ◌≡◌, refl, [], ◌∷◌, Option, some, false, ◌==◌, ◌>>=◌, if◌then◌else◌, arith,
}
use ducreu_os.Lock.{mutex_try}
use ducreu_os.Sbi.Hart.{hart_start, hart_stop, HartStatus}
use ducreu_os.Sbi.Svrcall.{World, svrcall_handle}
use ducreu_os.Sbi.Svrcall.Calls.{Answered, svrcall_handle_lem}

abbrev world : World
world = record {
  harts = record {
    hart_data = λ i. record { status = HartStatus.stopped; target_address = 0; process_frame = 0 };
    hart_lock = λ i. 1;
    clint = record { msip = λ i. 0; mtimecmp = λ i. 0 };
  };
  uart = record { buffer = 65 ∷ 66 ∷ []; start = 1; occupied = 1 };
  sent = [];
  powered_off = false;
  mip = 2 ^ 5 + 2;
}

abbrev saved : ℕ → ℕ → ℕ → ℕ
saved call arg r = if r == 17 then call else if r == 10 then arg else 0

-- the register `a0` behind a call
abbrev answer : ℕ → ℕ → Option ℕ
answer call arg = do (regs, w) ← svrcall_handle 1 99 (saved call arg) world; some (regs 10)

answers :
    (answer 2 3 ∷ answer 3 3 ∷ answer 4 0 ∷ answer 15 0 ∷ [])
    ≡ (some 0 ∷ some 2 ∷ some 1 ∷ some 99 ∷ [])
unfolding svrcall_handle hart_start hart_stop mutex_try
answers = refl

svrcall_handle_lem_example : Answered (saved 2 3) world (svrcall_handle 0 99 (saved 2 3) world)
svrcall_handle_lem_example = svrcall_handle_lem 0 99 (saved 2 3) world (omega arith) refl
