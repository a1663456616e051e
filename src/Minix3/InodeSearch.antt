-- ===== src/Minix3/InodeSearch.antt =====
-- The search of src/minix3.c for a free inode.
use native.Mathlib.Decide.{dec_lt}
use ducreu_os.Base.{
  ℕ, zero, suc, ◌+◌, ◌-◌, ◌*◌, ◌%◌, ◌^◌, ◌≤◌, ◌<◌, ◌≡◌, ◌≢◌, inl, inr, refl, sym, ◌∙◌, subst, true,
  false, Bool-cases, ◌==◌, if◌then◌else◌, Option, some, arith,
}
use ducreu_os.Base.Memory.{Mem}
use ducreu_os.Minix3.{get_superblock, is_inode_occupied, is_inode_in_range, get_available_inode}

module _ (bs : ℕ) (disk : Mem) where
  abbrev last : ℕ
  last = suc (get_superblock disk).num_inodes

  inode_in_range : (n : ℕ) → 0 < n → n ≤ last → is_inode_in_range bs disk n ≡ true
  unfolding is_inode_in_range
  inode_in_range n pos le = ground arith

  inode_past : (n : ℕ) → last < n → is_inode_in_range bs disk n ≡ false
  unfolding is_inode_in_range
  inode_past n lt = ground arith

  round_in :
      (fuel test : ℕ)
      → 0 < test
      → test ≤ last
      → last + 1 < 2 ^ 32
      → get_available_inode bs (suc fuel) disk test ≡ (
          if is_inode_occupied bs disk test == 0
          then some test
          else get_available_inode bs fuel disk (test + 1))
  unfolding get_available_inode
  round_in fuel test pos le word =
      let next : (test + 1) % 2 ^ 32 ≡ test + 1 = omega arith in
      rw (inode_in_range test pos le) (rw next refl)

  round_out :
      (fuel test : ℕ)
      → last < test
      → get_available_inode bs (suc fuel) disk test ≡ get_available_inode bs (suc fuel) disk 1
  unfolding get_available_inode
  round_out fuel test lt =
      rw (inode_past test lt) (rw (inode_in_range 1 (omega arith) (omega arith)) refl)

  -- an answer that is a free inode in range
  abbrev pub Found : Option ℕ → Type 0
  Found answer =
      (m : ℕ) × (answer ≡ some m) × (0 < m) × (m ≤ last) × (is_inode_occupied bs disk m ≡ 0)

  Found-upwards :
      (fuel test n : ℕ)
      → last + 1 < 2 ^ 32
      → 0 < test
      → test ≤ n
      → n ≤ last
      → n < test + fuel
      → is_inode_occupied bs disk n ≡ 0
      → Found (get_available_inode bs fuel disk test)
  Found-upwards zero test n word pos low high lt free = absurd (omega arith)
  Found-upwards (suc fuel) test n word pos low high lt free =
      elim (Bool-cases (is_inode_occupied bs disk test == 0)) [
        | inl e ↦ (
          test,
          round_in fuel test pos (omega arith) word ∙ rw e refl,
          pos,
          omega arith,
          ground arith,
        )
        | inr e ↦ subst Found (sym (round_in fuel test pos (omega arith) word ∙ rw e refl)) (
            Found-upwards fuel (test + 1) n word (omega arith) (ground arith) high (omega arith)
              free)
      ]

  Found-around :
      (fuel test n : ℕ)
      → last + 1 < 2 ^ 32
      → 0 < test
      → 0 < n
      → n ≤ last
      → n + (last + 1 - test) < fuel
      → is_inode_occupied bs disk n ≡ 0
      → Found (get_available_inode bs fuel disk test)
  Found-around zero test n word pos pos' high lt free = absurd (omega arith)
  Found-around (suc fuel) test n word pos pos' high lt free = elim (dec_lt last test) [
    | yes past ↦
        subst Found (sym (round_out fuel test past))
          (Found-upwards (suc fuel) 1 n word (omega arith) pos' high (omega arith) free)
    | no le ↦ elim (Bool-cases (is_inode_occupied bs disk test == 0)) [
      | inl e ↦ (
        test,
        round_in fuel test pos (omega arith) word ∙ rw e refl,
        pos,
        omega arith,
        ground arith,
      )
      | inr e ↦
          subst Found (sym (round_in fuel test pos (omega arith) word ∙ rw e refl))
            (Found-around fuel (test + 1) n word (omega arith) pos' high (omega arith) free)
    ]
  ]

  -- If some inode in range is free, get_available_inode returns a free inode in range, wherever the
  -- static counter stands; twice the inodes are rounds enough.
  pub get_available_inode_lem :
      (fuel test n : ℕ)
      → last + 1 < 2 ^ 32
      → 0 < test
      → 0 < n
      → n ≤ last
      → 2 * last + 1 < fuel
      → is_inode_occupied bs disk n ≡ 0
      → Found (get_available_inode bs fuel disk test)
  get_available_inode_lem fuel test n word pos pos' high enough free =
      Found-around fuel test n word pos pos' high (omega arith) free

  all_taken :
      (fuel test : ℕ)
      → last + 1 < 2 ^ 32
      → 0 < test
      → test ≤ last
      → last < test + fuel
      → ((i : ℕ) → test ≤ i → i < last → is_inode_occupied bs disk i ≢ 0)
      → is_inode_occupied bs disk last ≡ 0
      → get_available_inode bs fuel disk test ≡ some last
  all_taken zero test word pos le lt taken free = absurd (omega arith)
  all_taken (suc fuel) test word pos le lt taken free = elim (dec_lt test last) [
    | yes lt' ↦
        let busy = taken test (omega arith) lt' in
        round_in fuel test pos le word
        ∙ ground arith
        ∙ all_taken fuel (test + 1) word (omega arith) (omega arith) (omega arith)
            (λ i low high. taken i (omega arith) high) free
    | no ge ↦
        let same : last ≡ test = omega arith in
        round_in fuel test pos le word
        ∙ ground (arith, subst (λ i. is_inode_occupied bs disk i ≡ 0) same free)
  ]

  -- When every inode up to num_inodes is taken from the counter on and the bit behind them is clear,
  -- get_available_inode returns num_inodes + 1, an inode that the file system does not have.
  pub get_available_inode-past :
      (fuel test : ℕ)
      → last + 1 < 2 ^ 32
      → 0 < test
      → test ≤ last
      → last < test + fuel
      → ((i : ℕ) → test ≤ i → i < last → is_inode_occupied bs disk i ≢ 0)
      → is_inode_occupied bs disk last ≡ 0
      → get_available_inode bs fuel disk test ≡ some ((get_superblock disk).num_inodes + 1)
  get_available_inode-past fuel test word pos le lt taken free =
      all_taken fuel test word pos le lt taken free ∙ ground arith
