-- ===== src/Minix3/Directory.antt =====
-- `minix3_get_inode_from_name` of src/minix3.c. An inode is its 64 bytes, a directory's zone a block of
-- entries of 64 bytes, and a name the characters up to its NUL.
pub mod Entries
pub mod Names
mod Tests
use ducreu_os.Base.{
  ℕ, zero, suc, ◌+◌, ◌*◌, ◌/◌, ◌%◌, ◌^◌, Bool, true, false, ◌==◌, ltb, length, not, if◌then◌else◌,
  Option, none, some, List, [], ◌∷◌,
}
use ducreu_os.Base.Memory.{Mem}
use ducreu_os.Utils.Text.{samestr}
use ducreu_os.Minix3.{word16, word32}
use ducreu_os.Minix3.Transfer.{get_inode}
use ducreu_os.Minix3.Walker.{Outcome, freeall, going, hung, zone_walker, get_file_max_zones}

abbrev pub return_code_not_found : ℕ
return_code_not_found = 101

abbrev pub return_code_not_directory : ℕ
return_code_not_directory = 102

-- fields of an inode
abbrev pub inode_mode : Mem → ℕ
inode_mode inode = word16 inode 0

abbrev pub inode_size : Mem → ℕ
inode_size inode = word32 inode 8

abbrev pub inode_zones : Mem → ℕ → ℕ
inode_zones inode k = word32 inode (24 + 4 * k)

-- `(mode & MX3_MODE_MASK) == MX3_MODE_DIRECTORY`
abbrev pub is_directory : Mem → Bool
is_directory inode = inode_mode inode / 2 ^ 12 * 2 ^ 12 == 0x4000

-- the string at an address, of at most `n` characters
unfoldable pub string_at : ℕ → Mem → ℕ → List ℕ
string_at zero m a = []
string_at (suc n) m a = let rest = string_at n m (a + 1) in if m a == 0 then [] else m a ∷ rest

abbrev pub entry_inode : Mem → ℕ → ℕ
entry_inode zone j = word32 zone (64 * j)

-- The name of an entry, as far as the comparison with a name reads: up to the NUL, which may lie
-- behind the 60 bytes of the field, or the first character that `name` does not have.
abbrev pub entry_name : Mem → ℕ → List ℕ → List ℕ
entry_name zone j name = string_at (suc (length name)) zone (64 * j + 4)

-- the inode of the first entry with the name, of `n` entries from `j` on
unfoldable pub search_entries : ℕ → ℕ → Mem → List ℕ → Option ℕ
search_entries zero j zone name = none
search_entries (suc n) j zone name =
    let rest = search_entries n (j + 1) zone name in
    if entry_inode zone j == 0
    then rest
    else if samestr (entry_name zone j name) name == 1
    then some (entry_inode zone j)
    else rest

-- a find takes the place of an earlier one
abbrev pub later : Option ℕ → Option ℕ → Option ℕ
later found none = found
later found (some x) = some x

-- the zone that a walk returns, if it sets that variable, and the size that it leaves
abbrev pub returned : Outcome → Option (Option ℕ × ℕ)
returned (freeall s z) = some (some z, s.remaining_size)
returned (going s) = some (none, s.remaining_size)
returned hung = none

module _ (bs : ℕ) where
  -- the code, and the inode's number and bytes where one was found
  abbrev pub reply : Mem → ℕ → Mem → Option ℕ → ℕ × ℕ × Mem
  reply disk inode_num fill none = (return_code_not_found, inode_num, fill)
  reply disk inode_num fill (some found) =
      let inode = get_inode bs disk found fill in
      (if is_directory inode then 0 else return_code_not_directory, found, inode)

-- `behind` is the memory behind the buffer of a zone, which the comparison of the last name may reach.
module _ (bs : ℕ) (behind : Mem) where
  -- The loop over the zones from `i` on, with `n` left; `none` where a zone is used that the walk never
  -- set.
  unfoldable pub search_zones : ℕ → ℕ → Mem → Mem → List ℕ → Option ℕ → Option (Option ℕ)
  search_zones zero i disk dir name found = some found
  search_zones (suc n) i disk dir name found =
      elim (returned (zone_walker bs 0 i false 0 disk 0 (inode_zones dir) (inode_size dir))) [
        | none ↦ none
        | some (none, remaining_size) ↦ if remaining_size == 0 then some found else none
        | some (some zone, remaining_size) ↦
            let block : Mem = λ o. if ltb o bs then disk (bs * zone + o) else behind o in
            let on = search_zones n (i + 1) disk dir name in
            if remaining_size == 0
            then some found
            else if bs * zone == 0
            then on found
            else on (later found (search_entries (bs / 64) 0 block name))
      ]

  unfoldable pub get_inode_from_name : Mem → Mem → List ℕ → ℕ → Mem → Option (ℕ × ℕ × Mem)
  get_inode_from_name disk dir name inode_num fill =
      if is_directory dir
      then elim (search_zones (get_file_max_zones bs) 0 disk dir name none) [
        | none ↦ none
        | some found ↦ some (reply bs disk inode_num fill found)
      ]
      else some (1, inode_num, fill)
