-- ===== src/Uaccess/Pages.antt =====
-- What the copies of src/uaccess.c do when every page of the user's range is mapped.
use ducreu_os.Base.{
  ℕ, zero, suc, ◌+◌, ◌-◌, ◌/◌, ◌%◌, ◌^◌, ◌≤◌, ◌<◌, ◌≡◌, ◌≢◌, refl, ap, ◌∙◌, inl, inr, Bool-cases,
  some, ◌==◌, leb, false, if◌then◌else◌, arith,
}
use ducreu_os.Base.Memory.{Mem, within}
use ducreu_os.Utils.Memory.{memcpy}
use ducreu_os.Utils.Memory.Copy.{Apart, memcpy-within}
use ducreu_os.Mmu.{Tables, mmu_translate, not_mapped}
use ducreu_os.Mmu.Offset.{mmu_translate_offset}
use ducreu_os.Uaccess.{copy_size, copy_to_os}

-- Inside a page a translation goes up with the address.
abbrev pub Paged : (ℕ → ℕ) → Type 0
Paged translate =
    (v j : ℕ) → v % 4096 + j < 4096 → translate v ≢ not_mapped → translate (v + j) ≡ translate v + j

-- the pages that the user's range touches
abbrev pub pages : ℕ → ℕ → ℕ
pages user size = if size == 0 then 0 else (user % 4096 + size + 4095) / 4096

-- The user's range is mapped, the kernel's holds none of its bytes, and neither wraps.
pub record Ready (translate : ℕ → ℕ) (os user size : ℕ) : Type 0 where
  pub mapped : (j : ℕ) → j < size → translate (user + j) ≢ not_mapped
  pub apart : (j : ℕ) → j < size → within os size (translate (user + j)) ≡ false
  pub os_room : os + size < 2 ^ 64
  pub user_room : user + size < 2 ^ 64

module _ (translate : ℕ → ℕ) (paged : Paged translate) where
  pub Ready-rest :
      (os user size k : ℕ)
      → Ready translate os user size
      → k ≤ size
      → Ready translate (os + k) (user + k) (size - k)
  Ready-rest os user size k r h = record {
    mapped = λ j lt.
        let e : user + k + j ≡ user + (k + j) = omega arith in
        rw e (r.mapped (k + j) (omega arith));
    apart = λ j lt.
        let e : user + k + j ≡ user + (k + j) = omega arith in
        rw e (ground (arith, r.apart (k + j)));
    os_room = omega (arith, r.os_room);
    user_room = omega (arith, r.user_room);
  }

  pub Ready-first :
      (os user size : ℕ) → Ready translate os user size → 0 < size → translate user ≢ not_mapped
  Ready-first os user size r pos z = r.mapped 0 pos (ap translate (omega arith) ∙ z)

  -- the part of the range in one page
  module _ (os user size k : ℕ) (r : Ready translate os user size) (page : user % 4096 + k ≤ 4096)
      (h : k ≤ size) where
    pub Ready-page : (j : ℕ) → j < k → translate (user + j) ≡ translate user + j
    Ready-page j lt = paged user j (omega arith) (Ready-first os user size r (omega arith))

    pub Ready-outside : (j : ℕ) → j < k → within os size (translate user + j) ≡ false
    Ready-outside j lt = rw⁻¹ (Ready-page j lt) (r.apart j (omega arith))

    Ready-Apart : Apart os (translate user) k
    Ready-Apart = elim (Bool-cases (leb (os + k) (translate user))) [
      | inl behind ↦ inl (ground arith)
      | inr not_behind ↦ elim (Bool-cases (leb (translate user + k) os)) [
        | inl before ↦ inr (ground arith)
        | inr not_before ↦
            absurd (ground (arith, Ready-outside (os - translate user), Ready-outside 0))
      ]
    ]

    -- the copy of one page
    page_copied :
        (m : Mem) (a : ℕ)
        → memcpy m os (translate user) k a
          ≡ (if within os k a then m (translate (user + (a - os))) else m a)
    page_copied m a =
        ground (arith, memcpy-within m os (translate user) k a Ready-Apart, Ready-page (a - os))

  copy_to_os-zero :
      (n : ℕ) (m : Mem) (os user : ℕ) → copy_to_os translate (suc n) m os user 0 ≡ some (0, m)
  unfolding copy_to_os
  copy_to_os-zero n m os user = refl

  copy_to_os_round :
      (n : ℕ) (m : Mem) (os user size : ℕ)
      → Ready translate os user size
      → 0 < size
      → copy_to_os translate (suc n) m os user size
        ≡ copy_to_os translate n
            (memcpy m os (translate user) (copy_size user size))
            (os + copy_size user size)
            (user + copy_size user size)
            (size - copy_size user size)
  unfolding copy_to_os
  copy_to_os_round n m os user size r pos =
      let some_left : (size == 0) ≡ false = ground arith in
      let found : (translate user == not_mapped) ≡ false =
        ground (arith, Ready-first os user size r pos) in
      let e₁ : (os + copy_size user size) % 2 ^ 64 ≡ os + copy_size user size =
        ground (arith, r.os_room) in
      let e₂ : (user + copy_size user size) % 2 ^ 64 ≡ user + copy_size user size =
        ground (arith, r.user_room) in
      rw (some_left, found, e₁, e₂) refl

  -- what a round copies, and the copy of the rest
  rest_copied :
      (m m₁ m' : Mem) (os user size k : ℕ)
      → Ready translate os user size
      → k ≤ size
      → ((a : ℕ) → m₁ a ≡ (if within os k a then m (translate (user + (a - os))) else m a))
      → ((a : ℕ)
          → m' a ≡ (
              if within (os + k) (size - k) a
              then m₁ (translate (user + k + (a - (os + k))))
              else m₁ a))
      → (a : ℕ) → m' a ≡ (if within os size a then m (translate (user + (a - os))) else m a)
  rest_copied m m₁ m' os user size k r h one rest a =
      elim (Bool-cases (within (os + k) (size - k) a)) [
        | inl late ↦
            let e : user + k + (a - (os + k)) ≡ user + (a - os) = ground arith in
            let source = translate (user + (a - os)) in
            let kept : m₁ source ≡ m source = ground (arith, one source, r.apart (a - os)) in
            ground (arith, rest a, ap (λ v. m₁ (translate v)) e, kept)
        | inr early ↦ ground (arith, rest a, one a)
      ]

  copy_to_os_lem :
      (n : ℕ) (m : Mem) (os user size : ℕ)
      → Ready translate os user size
      → pages user size < n
      → (m' : Mem) × (copy_to_os translate n m os user size ≡ some (0, m'))
        × ((a : ℕ) → m' a ≡ (if within os size a then m (translate (user + (a - os))) else m a))
  copy_to_os_lem zero m os user size r enough = absurd (omega arith)
  copy_to_os_lem (suc n) m os user zero r enough =
      (m, copy_to_os-zero n m os user, λ a. ground arith)
  copy_to_os_lem (suc n) m os user (suc size') r enough =
      let size = suc size' in
      let k = copy_size user size in
      let h : k ≤ size = ground arith in
      let page : user % 4096 + k ≤ 4096 = ground arith in
      let m₁ = memcpy m os (translate user) k in
      let (m', e, rest) =
        copy_to_os_lem n m₁ (os + k) (user + k) (size - k) (Ready-rest os user size k r h)
          (ground arith) in
      (
        m',
        copy_to_os_round n m os user size r (omega arith) ∙ e,
        rest_copied m m₁ m' os user size k r h (page_copied os user size k r page h m) rest,
      )

-- When the user's range is mapped and holds no byte of the kernel's, `copy_to_os` returns 0 with the
-- user's bytes in the kernel's range and every other byte as before. A round for each page of the
-- range and one are enough.
pub copy_to_os-mmu_translate :
    (s : Tables) (root n : ℕ) (m : Mem) (os user size : ℕ)
    → Ready (mmu_translate s root) os user size
    → pages user size < n
    → (m' : Mem) × (copy_to_os (mmu_translate s root) n m os user size ≡ some (0, m'))
      × ((a : ℕ)
          → m' a ≡ (if within os size a then m (mmu_translate s root (user + (a - os))) else m a))
copy_to_os-mmu_translate s root n m os user size r enough =
    copy_to_os_lem (mmu_translate s root) (λ v j h. mmu_translate_offset s root v j h) n m os user
      size r enough
