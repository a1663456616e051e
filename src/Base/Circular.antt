-- ===== src/Base/Circular.antt =====
-- The readable part of a circular array: `n` elements from index `h` on, going round at `cap`.
use native.Mathlib.Nat.{mod-add-mod, mod-eq_of_lt, mod-eq-sub-mod}
use mathlib.Core.Path.{◌≡◌, refl, sym, ap, ap₂, subst}
use mathlib.Core.Logic.{◌≢◌}
use mathlib.Core.List.{List, [], ◌∷◌, ◌++◌}
use Prim.Native.Nat.{ℕ, zero, suc, ◌+◌, ◌-◌, ◌%◌, ◌≤◌, ◌<◌}
use native.Mathlib.Omega.{arith}
use native.Mathlib.Decide.{dec_lt}
use ducreu_os.Base.Lists.{length, get_or, set, length-append, get_or-set_self, get_or-set_ne}

-- Two different offsets below `cap` reach two different slots.
pub slot_ne : (cap h k j : ℕ) → h < cap → j < k → k < cap → (h + k) % cap ≢ (h + j) % cap
slot_ne cap h k j hh jk kc = elim (dec_lt (h + k) cap) [
  | yes p ↦ omega (
    arith,
    mod-eq_of_lt {n = h + k} {m = cap} p,
    mod-eq_of_lt {n = h + j} {m = cap} (omega arith),
  )
  | no p ↦ elim (dec_lt (h + j) cap) [
    | yes q ↦ omega (
      arith,
      mod-eq-sub-mod {n = h + k} {m = cap} (omega arith),
      mod-eq_of_lt {n = h + k - cap} {m = cap} (omega arith),
      mod-eq_of_lt {n = h + j} {m = cap} q,
    )
    | no q ↦ omega (
      arith,
      mod-eq-sub-mod {n = h + k} {m = cap} (omega arith),
      mod-eq_of_lt {n = h + k - cap} {m = cap} (omega arith),
      mod-eq-sub-mod {n = h + j} {m = cap} (omega arith),
      mod-eq_of_lt {n = h + j - cap} {m = cap} (omega arith),
    )
  ]
]

module _ {ℓ} {A : Type ℓ} (d : A) (cap : ℕ) where
  -- Built from the back: the element pushed last stands last.
  abbrev pub window : List A → ℕ → ℕ → List A
  window buf h zero = []
  window buf h (suc n) = window buf h n ++ (get_or buf ((h + n) % cap) d ∷ [])

  -- One slot on, the same slot is one step less away.
  next_slot : (from steps : ℕ) → ((from + 1) % cap + steps) % cap ≡ (from + suc steps) % cap
  next_slot from steps = rw mod-add-mod (ap (λ at. at % cap) (omega arith))

  pub length-window : (buf : List A) (h n : ℕ) → length (window buf h n) ≡ n
  length-window buf h zero = refl
  length-window buf h (suc n) = omega (
    arith,
    length-append (window buf h n) (get_or buf ((h + n) % cap) d ∷ []),
    length-window buf h n,
  )

  -- A write at offset `k` is not seen in a window of at most `k` elements.
  pub window-set_past :
      (buf : List A) (h k n : ℕ) (x : A)
      → h < cap
      → n ≤ k
      → k < cap
      → window (set buf ((h + k) % cap) x) h n ≡ window buf h n
  window-set_past buf h k zero x hh nk kc = refl
  window-set_past buf h k (suc n) x hh nk kc =
      ap₂ (λ xs y. xs ++ (y ∷ [])) (window-set_past buf h k n x hh (omega arith) kc)
        (get_or-set_ne buf ((h + k) % cap) ((h + n) % cap) x d (slot_ne cap h k n hh nk kc))

  -- Writing the slot behind a window extends it.
  pub window-set :
      (buf : List A) (h n : ℕ) (x : A)
      → cap ≤ length buf
      → h < cap
      → n < cap
      → window (set buf ((h + n) % cap) x) h (suc n) ≡ window buf h n ++ (x ∷ [])
  window-set buf h n x room hh nc =
      ap₂ (λ xs y. xs ++ (y ∷ [])) (window-set_past buf h n n x hh (omega arith) nc)
        (get_or-set_self buf ((h + n) % cap) x d (omega arith))

  -- A window is its first element and the window of one less from the next slot.
  pub window_front :
      (buf : List A) (h n : ℕ)
      → h < cap
      → window buf h (suc n) ≡ get_or buf h d ∷ window buf ((h + 1) % cap) n
  window_front buf h zero hh =
      ap (λ i. get_or buf i d ∷ []) (let e : h + 0 ≡ h = omega arith in rw e (mod-eq_of_lt hh))
  window_front buf h (suc n) hh =
      ap₂ ◌++◌ (window_front buf h n hh) (ap (λ i. get_or buf i d ∷ []) (sym (next_slot h n)))

  -- In a full array the write takes the place of the oldest element, and the window moves on.
  pub window_overwrite :
      (buf : List A) (h n : ℕ) (x : A)
      → cap ≡ suc n
      → cap ≤ length buf
      → h < cap
      → window (set buf ((h + suc n) % cap) x) ((h + 1) % cap) (suc n)
        ≡ window buf ((h + 1) % cap) n ++ (x ∷ [])
  window_overwrite buf h n x e room hh =
      subst
        (λ k.
          window (set buf k x) ((h + 1) % cap) (suc n) ≡ window buf ((h + 1) % cap) n ++ (x ∷ []))
        (next_slot h n) (window-set buf ((h + 1) % cap) n x room (omega arith) (omega arith))
