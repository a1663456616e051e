-- ===== src/Utils/Digits/Tests.antt =====
-- Runs of `matox` and `matoi` of src/utils.c, and the conditions of their theorems there.
use ducreu_os.Base.{ℕ, ◌≡◌, refl, List, [], ◌∷◌}
use ducreu_os.Utils.Text.{mstrlen}
use ducreu_os.Utils.Digits.{matox, matoi}

-- "1Fa" and "407"
abbrev hex : List ℕ
hex = 49 ∷ 70 ∷ 97 ∷ []

abbrev plain : List ℕ
plain = 52 ∷ 48 ∷ 55 ∷ []

readings :
    (matox hex ∷ matoi plain ∷ matoi (45 ∷ 49 ∷ []) ∷ matoi hex ∷ [])
    ≡ (0x1FA ∷ 407 ∷ 0xFFFFFFFF ∷ 0 ∷ [])
unfolding matox matoi mstrlen
readings = refl
