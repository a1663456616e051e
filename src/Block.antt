-- ===== src/Block.antt =====
-- The requests of src/block.c. The queue that the driver shares with a device is a table of
-- descriptors and a ring of the first descriptors of the requests; the device is hardware: `serve` is
-- what it does with a request's type, sector, data address and length to memory and to the medium. The
-- kernel's translation and the addresses that kcalloc returns are parameters. A request is polled,
-- so that it is served when block_read_write returns.
pub mod Chain
pub mod Device
pub mod Arbitrary
mod Tests
use ducreu_os.Base.{
  ℕ, ◌+◌, ◌-◌, ◌*◌, ◌/◌, ◌%◌, ◌^◌, Bool, true, false, ◌==◌, ltb, leb, if◌then◌else◌, not,
}
use ducreu_os.Base.Memory.{Mem, within}
use ducreu_os.Utils.Memory.{memset, memcpy}

pub record Descriptor : Type 0 where
  pub address : ℕ
  pub length : ℕ
  pub flags : ℕ
  pub next : ℕ

pub record Virtq : Type 0 where
  pub descriptor : ℕ → Descriptor
  pub ring : ℕ → ℕ
  pub driver_idx : ℕ

-- the first part of a request
pub record Header : Type 0 where
  pub type : ℕ
  pub sector : ℕ

pub record BlockDevice : Type 0 where
  pub block_size : ℕ
  pub queue_size : ℕ
  pub requests_idx : ℕ
  pub vq : Virtq
  pub disk : Mem

pub record Machine : Type 0 where
  pub num_block_devices : ℕ
  pub block_devices : ℕ → BlockDevice
  -- the requests in the kernel's heap, by physical address
  pub headers : ℕ → Header
  pub memory : Mem

abbrev pub type_in : ℕ
type_in = 0

abbrev pub type_out : ℕ
type_out = 1

abbrev pub flag_next : ℕ
flag_next = 1

abbrev pub flag_write : ℕ
flag_write = 2

abbrev pub put_at {ℓ} : {A : Type ℓ} → (ℕ → A) → ℕ → A → ℕ → A
put_at f k v i = if i == k then v else f i

-- the descriptors and the ring entry of a request whose parts lie at `paddr1`, `paddr2`, `paddr3`
unfoldable pub enqueue : BlockDevice → Bool → ℕ → ℕ → ℕ → ℕ → BlockDevice
enqueue d write_request len2 paddr1 paddr2 paddr3 =
    let size = d.queue_size in
    let brq1 = d.requests_idx % size in
    let brq2 = (d.requests_idx + 1) % 2 ^ 16 % size in
    let brq3 = (d.requests_idx + 2) % 2 ^ 16 % size in
    let flags2 = if write_request then flag_next else flag_next + flag_write in
    let table1 =
      put_at d.vq.descriptor brq1
        (record { address = paddr1; length = 16; flags = flag_next; next = brq2 }) in
    let table2 =
      put_at table1 brq2
        (record { address = paddr2; length = len2; flags = flags2; next = brq3 }) in
    let table3 =
      put_at table2 brq3 (record { address = paddr3; length = 1; flags = flag_write; next = 0 }) in
    record d {
      requests_idx = (d.requests_idx + 3) % 2 ^ 16;
      vq = record {
        descriptor = table3;
        ring = put_at d.vq.ring (d.vq.driver_idx % size) brq1;
        driver_idx = (d.vq.driver_idx + 1) % 2 ^ 16;
      };
    }

pub record Parts : Type 0 where
  pub header : Descriptor
  pub content : Descriptor
  pub status : Descriptor

-- the three descriptors from `first` on
abbrev pub parts_from : (ℕ → Descriptor) → ℕ → Parts
parts_from table first =
    let second = (table first).next in
    record { header = table first; content = table second; status = table (table second).next }

-- the request in the ring's entry `at`
abbrev pub chain : BlockDevice → ℕ → Parts
chain d at = parts_from d.vq.descriptor (d.vq.ring (at % d.queue_size))

-- the whole sectors around the bytes asked for
abbrev pub read_start : ℕ → ℕ → ℕ
read_start block_size start = start / block_size * block_size

abbrev pub read_end : ℕ → ℕ → ℕ → ℕ
read_end block_size start size = (start + size + block_size - 1) % 2 ^ 64 / block_size * block_size

-- a 64-bit size where `memset` and `memcpy` take an `int`; they do nothing on a negative one
abbrev pub int_size : ℕ → ℕ
int_size n = if leb (2 ^ 31) (n % 2 ^ 32) then 0 else n % 2 ^ 32

abbrev pub map_memory : (Mem → Mem) → Machine → Machine
map_memory f s = record s { memory = f s.memory }

module _ (serve : ℕ → ℕ → ℕ → ℕ → Mem → Mem → Mem × Mem) (translate : ℕ → ℕ) where
  -- the device carries out the request of these parts
  unfoldable pub carry_out : Machine → ℕ → BlockDevice → Parts → Header → Machine
  carry_out s which d parts header =
      let served =
        serve header.type header.sector parts.content.address parts.content.length s.memory
          d.disk in
      record s {
        memory = served.0;
        block_devices = put_at s.block_devices which (record d { disk = served.1 });
      }

  -- the device takes the request from the ring's entry `at`
  unfoldable pub notify : Machine → ℕ → ℕ → Machine
  notify s which at =
      let d = s.block_devices which in
      let parts = chain d at in carry_out s which d parts (s.headers parts.header.address)

  unfoldable pub block_request : ℕ → Machine → ℕ → ℕ → ℕ → ℕ → Bool → Machine
  block_request brq s which buffer start_byte end_byte write_request =
      let d = s.block_devices which in
      let header : Header = record {
        type = if write_request then type_out else type_in;
        sector = start_byte / d.block_size;
      } in
      let queued =
        enqueue d write_request ((end_byte - start_byte) % 2 ^ 32) (translate brq)
          (translate buffer) (translate (brq + 24)) in
      notify
        (record s {
          headers = put_at s.headers (translate brq) header;
          block_devices = put_at s.block_devices which queued;
        })
        which d.vq.driver_idx

  unfoldable pub block_read_write : ℕ → Machine → ℕ → ℕ → ℕ → ℕ → Bool → ℕ × Machine
  block_read_write brq s which buffer start_byte end_byte write_request =
      let block_size = (s.block_devices which).block_size in
      if leb s.num_block_devices which
      then (4, s)
      else if not (start_byte % block_size == 0)
      then (1, s)
      else if not (end_byte % block_size == 0)
      then (1, s)
      else if ltb end_byte start_byte
      then (2, s)
      else if start_byte == end_byte
      then (3, s)
      else (0, block_request brq s which buffer start_byte end_byte write_request)

  abbrev pub block_read_poll : ℕ → Machine → ℕ → ℕ → ℕ → ℕ → ℕ × Machine
  block_read_poll brq s dev buffer start_byte end_byte =
      block_read_write brq s dev buffer start_byte end_byte false

  abbrev pub block_write_poll : ℕ → Machine → ℕ → ℕ → ℕ → ℕ → ℕ × Machine
  block_write_poll brq s dev buffer start_byte end_byte =
      block_read_write brq s dev buffer start_byte end_byte true

  -- `tbuffer` and `brq` are what kcalloc returns
  unfoldable pub block_read_arbitrary : ℕ → ℕ → Machine → ℕ → ℕ → ℕ → ℕ → ℕ × Machine
  block_read_arbitrary tbuffer brq s dev buffer start size =
      let block_size = (s.block_devices dev).block_size in
      let low = read_start block_size start in
      let high = read_end block_size start size in
      let cleared = map_memory (λ m. memset m tbuffer 0 (int_size (high - low))) s in
      let answer = block_read_poll brq cleared dev tbuffer low high in
      if answer.0 == 0
      then (
        0,
        map_memory (λ m. memcpy m buffer (tbuffer + (start - low)) (int_size size)) (answer.1),
      )
      else (1, answer.1)

  unfoldable pub block_write_arbitrary : ℕ → ℕ → Machine → ℕ → ℕ → ℕ → ℕ → ℕ × Machine
  block_write_arbitrary tbuffer brq s dev buffer start size =
      let block_size = (s.block_devices dev).block_size in
      let low = read_start block_size start in
      let high = read_end block_size start size in
      let cleared = map_memory (λ m. memset m tbuffer 0 (int_size (high - low))) s in
      let answer = block_read_poll brq cleared dev tbuffer low high in
      let filled =
        map_memory (λ m. memcpy m (tbuffer + (start - low)) buffer (int_size size)) (answer.1) in
      let written = block_write_poll brq filled dev tbuffer low high in
      if answer.0 == 0
      then if written.0 == 0 then (0, written.1) else (2, written.1)
      else (1, answer.1)
