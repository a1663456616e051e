-- ===== src/Regions.antt =====
-- The list of screen regions of src/regions.c, on a store that gives the region at each address. A
-- dereference of NULL, or of an address that holds no region, is `none`; loops run on fuel.
pub mod Lookup
mod Tests
use ducreu_os.Base.{
  ℕ, zero, suc, ◌+◌, Option, none, some, Bool, true, false, not, ◌-◌, ◌>>=◌, ◌==◌, leb,
  if◌then◌else◌,
}

-- `region_llist_t`
pub record Region : Type 0 where
  pub x_start : ℕ
  pub x_end : ℕ
  pub y_start : ℕ
  pub y_end : ℕ
  pub value : ℕ
  pub next : ℕ

abbrev pub Store : Type 0
Store = ℕ → Option Region

abbrev pub put : Store → ℕ → Region → Store
put h a r b = if b == a then some r else h b

abbrev pub get : Store → ℕ → Option Region
get h a = if a == 0 then none else h a

-- the loop of `regions_list_len`, which leaves `i` at 0
pub regions_list_len : ℕ → Store → ℕ → Option ℕ
regions_list_len zero h rl = none
regions_list_len (suc n) h rl =
    if rl == 0 then some 0 else do r ← get h rl; regions_list_len n h r.next

-- `for(i = 0; i < pos; i++) rl = rl->next;`
pub follow : ℕ → Store → ℕ → Option ℕ
follow zero h rl = some rl
follow (suc pos) h rl = do r ← get h rl; follow pos h r.next

pub regions_get_at_pos : ℕ → Store → ℕ → ℕ → Option ℕ
unfolding regions_list_len follow
regions_get_at_pos fuel h head pos = do
  len ← regions_list_len fuel h head
  if leb len pos then some 0 else follow pos h head

-- The store with the region between the two at `pos - 1` and `pos`.
pub insert_behind : ℕ → Store → ℕ → ℕ → ℕ → Option Store
unfolding regions_get_at_pos
insert_behind fuel h head insert pos = do
  prev ← regions_get_at_pos fuel h head (pos - 1)
  next ← regions_get_at_pos fuel h head pos
  before ← get h prev
  new ← get (put h prev (record before { next = insert })) insert
  some (put (put h prev (record before { next = insert })) insert (record new { next = next }))

pub insert_front : Store → ℕ → ℕ → Option Store
insert_front h head insert = do new ← get h insert; some (put h insert (record new { next = head }))

-- the answer, the store and the head of the list
pub regions_insert_at_position : ℕ → Store → ℕ → ℕ → ℕ → Option (ℕ × Store × ℕ)
unfolding insert_behind insert_front
regions_insert_at_position fuel h head insert pos =
    let front : Option (ℕ × Store × ℕ) = (do
      h' ← insert_front h head insert
      some (0, h', insert)) in
    let behind : Option (ℕ × Store × ℕ) = (do
      h' ← insert_behind fuel h head insert pos
      some (0, h', head)) in
    regions_list_len fuel h head >>= λ len.
    if not (leb pos len) then some (1, h, head) else if pos == 0 then front else behind

pub regions_append : ℕ → Store → ℕ → ℕ → Option (ℕ × Store × ℕ)
unfolding regions_insert_at_position
regions_append fuel h head insert = do
  len ← regions_list_len fuel h head
  regions_insert_at_position fuel h head insert len

pub regions_prepend : ℕ → Store → ℕ → ℕ → Option (ℕ × Store × ℕ)
unfolding regions_insert_at_position
regions_prepend fuel h head insert = regions_insert_at_position fuel h head insert 0

pub regions_pixel_in_range : Region → ℕ → ℕ → Bool
regions_pixel_in_range r x y =
    if not (leb r.x_start x)
    then false
    else if not (leb x r.x_end)
    then false
    else if not (leb r.y_start y)
    then false
    else if not (leb y r.y_end)
    then false
    else true

pub regions_value_of_point : ℕ → Store → ℕ → ℕ → ℕ → Option ℕ
unfolding regions_pixel_in_range
regions_value_of_point zero h rl x y = none
regions_value_of_point (suc n) h rl x y = if rl == 0 then some 0 else do
  r ← get h rl
  if regions_pixel_in_range r x y then some r.value else regions_value_of_point n h r.next x y
