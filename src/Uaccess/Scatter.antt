-- ===== src/Uaccess/Scatter.antt =====
-- `copy_to_user` of src/uaccess.c: the kernel's bytes go to the pages of the user's range.
use ducreu_os.Base.{
  ℕ, zero, suc, ◌+◌, ◌-◌, ◌%◌, ◌^◌, ◌≤◌, ◌<◌, ◌≡◌, ◌≢◌, refl, sym, ap, ◌∙◌, inl, inr, Bool-cases,
  some, ◌==◌, leb, ltb, true, false, arith,
}
use ducreu_os.Base.Memory.{Mem, within}
use ducreu_os.Utils.Memory.{memcpy}
use ducreu_os.Utils.Memory.Copy.{Apart, memcpy-within}
use ducreu_os.Mmu.{Tables, mmu_translate, not_mapped}
use ducreu_os.Mmu.Offset.{mmu_translate_offset}
use ducreu_os.Uaccess.{copy_size, copy_to_user}
use ducreu_os.Uaccess.Pages.{
  Paged, Ready, pages, Ready-rest, Ready-first, Ready-page, Ready-outside,
}

-- No two addresses of the range lead to the same byte.
abbrev pub OneToOne : (ℕ → ℕ) → ℕ → ℕ → Type 0
OneToOne translate user size =
    (i j : ℕ) → i < size → j < size → translate (user + i) ≡ translate (user + j) → i ≡ j

-- The kernel's bytes stand in the user's range, and all other bytes are as before.
pub record Scattered (translate : ℕ → ℕ) (m : Mem) (os user size : ℕ) (m' : Mem) : Type 0 where
  pub there : (j : ℕ) → j < size → m' (translate (user + j)) ≡ m (os + j)
  pub elsewhere : (a : ℕ) → ((j : ℕ) → j < size → a ≢ translate (user + j)) → m' a ≡ m a

module _ (translate : ℕ → ℕ) (paged : Paged translate) where
  OneToOne-rest :
      (user size k : ℕ)
      → OneToOne translate user size
      → k ≤ size
      → OneToOne translate (user + k) (size - k)
  OneToOne-rest user size k one h i j hi hj e =
      let ei : user + k + i ≡ user + (k + i) = omega arith in
      let ej : user + k + j ≡ user + (k + j) = omega arith in
      omega (
        arith,
        one (k + i) (k + j) (omega arith) (omega arith)
            (ap translate (sym ei) ∙ e ∙ ap translate ej),
      )

  module _ (os user size k : ℕ) (r : Ready translate os user size)
      (one : OneToOne translate user size) (page : user % 4096 + k ≤ 4096) (h : k ≤ size)
      (m : Mem) where
    Apart-page : Apart (translate user) os k
    Apart-page = elim (Bool-cases (leb (os + k) (translate user))) [
      | inl behind ↦ inr (ground arith)
      | inr not_behind ↦ elim (Bool-cases (leb (translate user + k) os)) [
        | inl before ↦ inl (ground arith)
        | inr not_before ↦ absurd (
            ground (
              arith,
              Ready-outside translate paged os user size k r page h (os - translate user),
              Ready-outside translate paged os user size k r page h 0,
            ))
      ]
    ]

    written : (j : ℕ) → j < k → memcpy m (translate user) os k (translate (user + j)) ≡ m (os + j)
    written j lt =
        let e : translate user + j - translate user ≡ j = omega arith in
        rw (Ready-page translate paged os user size k r page h j lt) (
          ground (
            arith,
            memcpy-within m (translate user) os k (translate user + j) Apart-page,
            ap (λ i. m (os + i)) e,
          ))

    unwritten :
        (a : ℕ)
        → ((j : ℕ) → j < k → a ≢ translate (user + j))
        → memcpy m (translate user) os k a ≡ m a
    unwritten a apart = elim (Bool-cases (within (translate user) k a)) [
      | inl inside ↦
          let j = a - translate user in
          let lt : j < k = ground arith in
          absurd (
            apart j lt
              (sym (Ready-page translate paged os user size k r page h j lt ∙ ground arith)))
      | inr outside ↦ ground (arith, memcpy-within m (translate user) os k a Apart-page)
    ]

    -- the copy of one page, and the copy of the rest
    round-Scattered :
        (m' : Mem)
        → Scattered translate (memcpy m (translate user) os k) (os + k) (user + k) (size - k) m'
        → Scattered translate m os user size m'
    round-Scattered m' rest = record {
      there = λ j lt. elim (Bool-cases (ltb j k)) [
        | inl now ↦
            rest.elsewhere (translate (user + j)) (λ i hi e. absurd (
              omega (
                arith,
                one j (k + i) lt (omega arith) (e ∙ ap translate (omega arith)),
                later_ne j now,
              )))
            ∙ written j (ground arith)
        | inr later ↦
            let je : user + k + (j - k) ≡ user + j = ground arith in
            let oe : os + k + (j - k) ≡ os + j = ground arith in
            ap (λ v. m' (translate v)) (sym je)
            ∙ rest.there (j - k) (ground arith)
            ∙ ap (memcpy m (translate user) os k) oe
            ∙ unwritten (os + j) (λ i hi e. absurd (ground (arith, r.apart i, e)))
      ];
      elsewhere = λ a apart.
          rest.elsewhere a (λ i hi e. apart (k + i) (omega arith) (e ∙ ap translate (omega arith)))
          ∙ unwritten a (λ i hi. apart i (omega arith));
    }
      where
        later_ne : (j : ℕ) → ltb j k ≡ true → j < k
        later_ne j now = ground arith

  copy_to_user-zero :
      (n : ℕ) (m : Mem) (os user : ℕ) → copy_to_user translate (suc n) m os user 0 ≡ some (0, m)
  unfolding copy_to_user
  copy_to_user-zero n m os user = refl

  copy_to_user_round :
      (n : ℕ) (m : Mem) (os user size : ℕ)
      → Ready translate os user size
      → 0 < size
      → copy_to_user translate (suc n) m os user size
        ≡ copy_to_user translate n
            (memcpy m (translate user) os (copy_size user size))
            (os + copy_size user size)
            (user + copy_size user size)
            (size - copy_size user size)
  unfolding copy_to_user
  copy_to_user_round n m os user size r pos =
      let some_left : (size == 0) ≡ false = ground arith in
      let found : (translate user == not_mapped) ≡ false =
        ground (arith, Ready-first translate paged os user size r pos) in
      let e₁ : (os + copy_size user size) % 2 ^ 64 ≡ os + copy_size user size =
        ground (arith, r.os_room) in
      let e₂ : (user + copy_size user size) % 2 ^ 64 ≡ user + copy_size user size =
        ground (arith, r.user_room) in
      rw (some_left, found, e₁, e₂) refl

  copy_to_user_lem :
      (n : ℕ) (m : Mem) (os user size : ℕ)
      → Ready translate os user size
      → OneToOne translate user size
      → pages user size < n
      → (m' : Mem) × (copy_to_user translate n m os user size ≡ some (0, m'))
        × Scattered translate m os user size m'
  copy_to_user_lem zero m os user size r one enough = absurd (omega arith)
  copy_to_user_lem (suc n) m os user zero r one enough = (
    m,
    copy_to_user-zero n m os user,
    record { there = λ j lt. absurd (omega arith); elsewhere = λ a apart. refl },
  )
  copy_to_user_lem (suc n) m os user (suc size') r one enough =
      let size = suc size' in
      let k = copy_size user size in
      let h : k ≤ size = ground arith in
      let page : user % 4096 + k ≤ 4096 = ground arith in
      let (m', e, rest) =
        copy_to_user_lem n (memcpy m (translate user) os k) (os + k) (user + k) (size - k)
          (Ready-rest translate paged os user size k r h) (OneToOne-rest user size k one h)
          (ground arith) in
      (
        m',
        copy_to_user_round n m os user size r (omega arith) ∙ e,
        round-Scattered os user size k r one page h m m' rest,
      )

-- When the user's range is mapped, one to one, and holds no byte of the kernel's, `copy_to_user`
-- returns 0 with the kernel's bytes in the user's range and every other byte as before. A round for
-- each page of the range and one are enough.
pub copy_to_user-mmu_translate :
    (s : Tables) (root n : ℕ) (m : Mem) (os user size : ℕ)
    → Ready (mmu_translate s root) os user size
    → OneToOne (mmu_translate s root) user size
    → pages user size < n
    → (m' : Mem) × (copy_to_user (mmu_translate s root) n m os user size ≡ some (0, m'))
      × Scattered (mmu_translate s root) m os user size m'
copy_to_user-mmu_translate s root n m os user size r one enough =
    copy_to_user_lem (mmu_translate s root) (λ v j h. mmu_translate_offset s root v j h) n m os user
      size r one enough
