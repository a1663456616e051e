-- ===== src/Sbi/Uart/Tests.antt =====
-- The UART buffer of sbi/src/uart.c at a wrapped buffer.
use ducreu_os.Base.{ℕ, zero, suc, ◌≡◌, refl, List, [], ◌∷◌, ◌++◌, arith}
use ducreu_os.Sbi.Uart.{UartBuffer, init, pop}
use ducreu_os.Sbi.Uart.Buffer.{IsValid, contents, init-IsValid}

abbrev zeros : ℕ → List ℕ
zeros zero = []
zeros (suc n) = 0 ∷ zeros n

-- the newest of two characters stands in slot 0, the oldest in slot 31
abbrev wrapped : UartBuffer
wrapped = record { buffer = 66 ∷ (zeros 30 ++ (65 ∷ [])); start = 31; occupied = 2 }

wrapped-IsValid : IsValid wrapped
wrapped-IsValid = record { room = refl; start_in = omega arith; occupied_in = omega arith }

pop_order : (pop (pop wrapped).1).0 ≡ 66
unfolding pop
pop_order = refl

init-IsValid_example : IsValid (init wrapped) × (contents (init wrapped) ≡ [])
init-IsValid_example = init-IsValid wrapped refl
