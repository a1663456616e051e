-- ===== src/Minix3/Directory/Names.antt =====
-- The lookup of a name in a directory of at most six zones of src/minix3.c.
use native.Mathlib.Decide.{dec_lt}
use native.Mathlib.Nat.{mul-pos}
use ducreu_os.Base.{
  ℕ, zero, suc, ◌+◌, ◌-◌, ◌*◌, ◌/◌, ◌≤◌, ◌<◌, ◌≡◌, ◌≢◌, ◌⊎◌, inl, inr, refl, sym, ap, ap₂, ◌∙◌,
  subst, true, false, ◌==◌, ltb, if◌then◌else◌, Option, none, some, List, arith,
}
use ducreu_os.Base.Memory.{Mem}
use ducreu_os.Minix3.Walker.{Outcome, freeall, going, hung, zone_walker, get_file_max_zones, less}
use ducreu_os.Minix3.Walker.Lookup.{answer, size_left}
use ducreu_os.Minix3.Walker.File.{file_zone, pointers, zone_walker-file_zone}
use ducreu_os.Minix3.Directory.{
  inode_size, inode_zones, is_directory, entry_inode, later, returned, search_zones,
  get_inode_from_name, reply,
}
use ducreu_os.Minix3.Transfer.{get_inode}
use ducreu_os.Utils.Text.Compare.{AllChars}
use ducreu_os.Minix3.Directory.Entries.{HasName, Searched, search_entries_lem}

-- a directory whose first `nz` zones are there and hold its size
pub record IsDirectory (bs : ℕ) (dir : Mem) (nz : ℕ) : Type 0 where
  pub mode : is_directory dir ≡ true
  pub few : nz ≤ 6
  pub loops : nz < get_file_max_zones bs
  pub block : 0 < bs
  pub present : (i : ℕ) → i < nz → inode_zones dir i ≢ 0
  pub holds : inode_size dir ≤ nz * bs
  pub needed : (i : ℕ) → i < nz → i * bs < inode_size dir

as_set : Option (ℕ × ℕ) → Option (Option ℕ × ℕ)
as_set none = none
as_set (some (z, r)) = some (some z, r)

-- the block of a zone of the directory, in a buffer
abbrev pub block : ℕ → Mem → Mem → Mem → ℕ → Mem
block bs behind disk dir i o = if ltb o bs then disk (bs * inode_zones dir i + o) else behind o

-- what a search finds in the first `n` zones
abbrev pub Resolved : ℕ → Mem → Mem → Mem → List ℕ → ℕ → Option ℕ → Type 0
Resolved bs behind disk dir name n found =
    ((i : ℕ) × (i < n)
      × (j : ℕ) × (j < bs / 64)
      × HasName (block bs behind disk dir i) name j
      × (found ≡ some (entry_inode (block bs behind disk dir i) j)))
    ⊎ (((i : ℕ) → i < n → (j : ℕ) → j < bs / 64 → ¬ HasName (block bs behind disk dir i) name j)
        × (found ≡ none))

module _ (bs : ℕ) (behind disk dir : Mem) (name : List ℕ) (nz : ℕ) (bytes : (a : ℕ) → disk a < 256)
    (bytes_behind : (a : ℕ) → behind a < 256) (chars : AllChars name)
    (directory : IsDirectory bs dir nz) where
  abbrev f : ℕ → ℕ
  f = file_zone bs disk (inode_zones dir)

  low_zone : (i : ℕ) → i < 7 → f i ≡ inode_zones dir i
  unfolding file_zone
  low_zone i lt = ground arith

  low_pointers : (i : ℕ) → i < 7 → pointers bs disk (inode_zones dir) i ≢ 0
  unfolding pointers
  low_pointers i lt = ground arith

  first_size : size_left bs f (inode_size dir) 0 ≡ inode_size dir
  unfolding size_left
  first_size = refl

  size_next :
      (i : ℕ)
      → f i ≢ 0
      → size_left bs f (inode_size dir) (suc i) ≡ less bs (size_left bs f (inode_size dir) i)
  unfolding size_left
  size_next i ne = let there : (f i == 0) ≡ false = ground arith in rw there refl

  size_at : (i : ℕ) → i ≤ nz → size_left bs f (inode_size dir) i ≡ inode_size dir - i * bs
  size_at zero le = first_size ∙ omega arith
  size_at (suc i) le =
      size_next i
        (λ e. directory.present i le (sym (low_zone i (omega (arith, directory.few))) ∙ e))
      ∙ ground (arith, size_at i (omega arith))

  walk : ℕ → Outcome
  walk i = zone_walker bs 0 i false 0 disk 0 (inode_zones dir) (inode_size dir)

  returned-answer : (w : Outcome) (z r : ℕ) → answer w ≡ some (z, r) → returned w ≡ some (some z, r)
  unfolding as_set
  returned-answer (freeall s z') z r e = ap as_set e
  returned-answer (going s) z r e = ground arith
  returned-answer hung z r e = ground arith

  walk_at :
      (i : ℕ)
      → i ≤ nz
      → returned (walk i) ≡ some (some (inode_zones dir i), inode_size dir - i * bs)
  unfolding walk
  walk_at i le =
      let low : i < 7 = omega (arith, directory.few) in
      returned-answer (walk i) _ _ (
        zone_walker-file_zone bs 0 i 0 (inode_size dir) disk (inode_zones dir) (omega arith)
          (low_pointers i low)
        ∙ ap₂ (λ z r. some (z, r)) (low_zone i low) (size_at i le))

  Resolved-next :
      (i : ℕ) (found x : Option ℕ)
      → Resolved bs behind disk dir name i found
      → Searched (block bs behind disk dir i) name (bs / 64) x
      → Resolved bs behind disk dir name (i + 1) (later found x)
  Resolved-next i found x before (inl (j, lt, h, e)) =
      inl (i, omega arith, j, lt, h, ap (later found) e)
  Resolved-next i found x (inl (i', lt, j, lt', h, e)) (inr (nowhere, e')) =
      inl (i', omega arith, j, lt', h, ap (later found) e' ∙ e)
  Resolved-next i found x (inr (nowhere, e)) (inr (not_here, e')) = inr (
    (λ k lt j lt' h. elim (dec_lt k i) [
      | yes p ↦ nowhere k p j lt' h
      | no p ↦
          let same : k ≡ i = omega arith in
          not_here j lt' (subst (λ y. HasName (block bs behind disk dir y) name j) same h)
    ]),
    ap (later found) e' ∙ e,
  )

  block_bytes : (i a : ℕ) → block bs behind disk dir i a < 256
  block_bytes i a = ground (arith, bytes (bs * inode_zones dir i + a), bytes_behind a)

  search_zones-Resolved :
      (n i : ℕ) (found : Option ℕ)
      → i ≤ nz
      → nz < i + n
      → Resolved bs behind disk dir name i found
      → (x : Option ℕ) × (search_zones bs behind n i disk dir name found ≡ some x)
        × Resolved bs behind disk dir name nz x
  unfolding search_zones walk
  search_zones-Resolved zero i found le lt before = absurd (omega arith)
  search_zones-Resolved (suc n) i found le lt before = elim (dec_lt i nz) [
    | yes more ↦
        let left : (inode_size dir - i * bs == 0) ≡ false =
          ground (arith, directory.needed i more) in
        let address : (bs * inode_zones dir i == 0) ≡ false = ground (
          arith,
          mul-pos {m = bs} {n = inode_zones dir i} directory.block,
          directory.present i more,
        ) in
        rw (search_zones, walk_at i le)
          (rw left (
            rw address (
              search_zones-Resolved n (i + 1) _ (omega arith) (omega arith) (
                Resolved-next i found _ before (
                  search_entries_lem (bs / 64) (block bs behind disk dir i) name (block_bytes i)
                    chars)))))
    | no ge ↦
        let same : i ≡ nz = omega arith in
        let nothing : (inode_size dir - i * bs == 0) ≡ true =
          ap (λ k. inode_size dir - k * bs == 0) same ∙ ground (arith, directory.holds) in
        rw (search_zones, walk_at i le)
          (rw nothing
            (found, refl, subst (λ k. Resolved bs behind disk dir name k found) same before))
  ]

  -- the results: the code, the inode's number and its bytes
  abbrev pub Named : ℕ → Mem → ℕ × ℕ × Mem → Type 0
  Named inode_num fill (code, found, inode) =
      ((i : ℕ) × (i < nz)
        × (j : ℕ) × (j < bs / 64)
        × HasName (block bs behind disk dir i) name j
        × (found ≡ entry_inode (block bs behind disk dir i) j)
        × (inode ≡ get_inode bs disk found fill)
        × (code ≡ (if is_directory inode then 0 else 102)))
      ⊎ (((i : ℕ) → i < nz → (j : ℕ) → j < bs / 64 → ¬ HasName (block bs behind disk dir i) name j)
          × (code ≡ 101)
          × (found ≡ inode_num)
          × (inode ≡ fill))

  reply-Named :
      (inode_num : ℕ) (fill : Mem) (x : Option ℕ)
      → Resolved bs behind disk dir name nz x
      → Named inode_num fill (reply bs disk inode_num fill x)
  reply-Named inode_num fill x (inl (i, lt, j, lt', h, e)) =
      rw e (inl (i, lt, j, lt', h, refl, refl, refl))
  reply-Named inode_num fill x (inr (nowhere, e)) = rw e (inr (nowhere, refl, refl, refl))

  -- get_inode_from_name of a name without NUL in a directory of at most six zones returns the number
  -- and the bytes of the inode of an entry in use that has the name, with 0 if it is a directory and
  -- 102 otherwise; if no entry in use has the name, it returns 101 and leaves number and bytes as they
  -- were.
  pub get_inode_from_name_lem :
      (inode_num : ℕ) (fill : Mem)
      → (r : ℕ × ℕ × Mem) × (get_inode_from_name bs behind disk dir name inode_num fill ≡ some r)
        × Named inode_num fill r
  unfolding get_inode_from_name
  get_inode_from_name_lem inode_num fill =
      let search =
        search_zones-Resolved (get_file_max_zones bs) 0 none (omega arith)
          (omega (arith, directory.loops)) (inr ((λ i lt. absurd (omega arith)), refl)) in
      (
        reply bs disk inode_num fill (search.0),
        rw directory.mode (rw (search.1) refl),
        reply-Named inode_num fill (search.0) (search.2),
      )
