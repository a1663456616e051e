-- ===== src/Block/Device.antt =====
-- Requests of src/block.c to a device that keeps to its documented behaviour.
use ducreu_os.Base.{
  ℕ, ◌+◌, ◌-◌, ◌*◌, ◌/◌, ◌%◌, ◌^◌, ◌≤◌, ◌<◌, ◌≡◌, refl, sym, ap, ◌∙◌, subst, Bool, true, false,
  if◌then◌else◌, arith,
}
use ducreu_os.Base.Memory.{Mem, blit}
use ducreu_os.Block.{
  Header, Parts, BlockDevice, Machine, type_in, type_out, enqueue, chain, put_at, carry_out, notify,
  block_request, block_read_write,
}
use ducreu_os.Block.Chain.{Fits, enqueue-chain, put_self}

-- A request of type 0 reads `length` bytes from sector `sector`, one of type 1 writes them; a sector has
-- 512 bytes, the range lies inside the medium, and a length is at most 65024, `BLOCK_MAX_REQUEST_SIZE`.
pub record IsVirtioBlock (capacity : ℕ) (serve : ℕ → ℕ → ℕ → ℕ → Mem → Mem → Mem × Mem)
    : Type 0 where
  pub reads :
      (sector address length : ℕ) (memory disk : Mem)
      → sector * 512 + length ≤ capacity
      → length ≤ 65024
      → (a : ℕ)
      → (serve type_in sector address length memory disk).0 a
        ≡ blit memory address disk (sector * 512) length a
  pub reads_only :
      (sector address length : ℕ) (memory disk : Mem)
      → sector * 512 + length ≤ capacity
      → length ≤ 65024
      → (a : ℕ) → (serve type_in sector address length memory disk).1 a ≡ disk a
  pub writes :
      (sector address length : ℕ) (memory disk : Mem)
      → sector * 512 + length ≤ capacity
      → length ≤ 65024
      → (a : ℕ)
      → (serve type_out sector address length memory disk).1 a
        ≡ blit disk (sector * 512) memory address length a
  pub writes_only :
      (sector address length : ℕ) (memory disk : Mem)
      → sector * 512 + length ≤ capacity
      → length ≤ 65024
      → (a : ℕ) → (serve type_out sector address length memory disk).0 a ≡ memory a

-- a device of the table, with 512 bytes to a sector and a queue that holds a request
pub record Ready (s : Machine) (which : ℕ) : Type 0 where
  pub listed : which < s.num_block_devices
  pub sectors : (s.block_devices which).block_size ≡ 512
  pub queue : Fits (s.block_devices which)

-- the memory and the medium of device `which`, and that the device can take the next request
pub record Became (s : Machine) (which : ℕ) (memory disk : Mem) : Type 0 where
  pub ready : Ready s which
  pub memory_is : (a : ℕ) → s.memory a ≡ memory a
  pub disk_is : (a : ℕ) → (s.block_devices which).disk a ≡ disk a

-- a request that returned 0
abbrev pub Done : ℕ × Machine → ℕ → Mem → Mem → Type 0
Done answer which memory disk = (answer.0 ≡ 0) × Became (answer.1) which memory disk

module _ (serve : ℕ → ℕ → ℕ → ℕ → Mem → Mem → Mem × Mem) (translate : ℕ → ℕ) where
  notify-served :
      (s : Machine) (which at : ℕ) (d : BlockDevice) (parts : Parts) (header : Header)
      → s.block_devices which ≡ d
      → chain d at ≡ parts
      → s.headers parts.header.address ≡ header
      → notify serve translate s which at ≡ carry_out serve translate s which d parts header
  unfolding notify
  notify-served s which at d parts header ed ep eh =
      ap
        (λ q.
          carry_out serve translate s which q (chain q at) (s.headers (chain q at).header.address))
        ed
      ∙ ap (λ p. carry_out serve translate s which d p (s.headers p.header.address)) ep
      ∙ ap (carry_out serve translate s which d parts) eh

  module _ (brq : ℕ) (s : Machine) (which buffer low high : ℕ) (w : Bool) where
    d : BlockDevice
    d = s.block_devices which

    queued : BlockDevice
    queued =
        enqueue d w ((high - low) % 2 ^ 32) (translate brq) (translate buffer)
          (translate (brq + 24))

    header : Header
    header = record { type = if w then type_out else type_in; sector = low / d.block_size }

    served : Mem × Mem
    unfolding d
    served =
        serve (if w then type_out else type_in) (low / d.block_size) (translate buffer)
          ((high - low) % 2 ^ 32) s.memory d.disk

    -- The device serves what was asked.
    block_request-served :
        Fits (s.block_devices which)
        → block_request serve translate brq s which buffer low high w ≡ record s {
          headers = put_at s.headers (translate brq) header;
          block_devices =
              put_at
                (put_at s.block_devices which queued)
                which
                (record queued { disk = served.1 });
          memory = served.0;
        }
    unfolding block_request carry_out d queued header served enqueue
    block_request-served fits =
        let found =
          enqueue-chain d fits w ((high - low) % 2 ^ 32) (translate brq) (translate buffer)
            (translate (brq + 24)) in
        notify-served
          (record s {
            headers = put_at s.headers (translate brq) header;
            block_devices = put_at s.block_devices which queued;
          })
          which d.vq.driver_idx queued _ header (put_self s.block_devices which queued) found.2
          (put_self s.headers (translate brq) header)

-- whole sectors of the medium, no more than a request may have
pub record Sectors (capacity low high : ℕ) : Type 0 where
  pub from : low % 512 ≡ 0
  pub upto : high % 512 ≡ 0
  pub some_bytes : low < high
  pub inside : high ≤ capacity
  pub short : high - low ≤ 65024

module _ (serve : ℕ → ℕ → ℕ → ℕ → Mem → Mem → Mem × Mem) (translate : ℕ → ℕ) (capacity : ℕ)
    (device : IsVirtioBlock capacity serve) (brq : ℕ) (s : Machine) (which buffer low high : ℕ)
    (ready : Ready s which) (mapped : translate buffer ≡ buffer)
    (sectors : Sectors capacity low high) where
  accepted :
      (w : Bool)
      → block_read_write serve translate brq s which buffer low high w
        ≡ (0, block_request serve translate brq s which buffer low high w)
  unfolding block_read_write
  accepted w =
      ground (arith, ready.sectors, ready.listed, sectors.from, sectors.upto, sectors.some_bytes)

  sector_of : low / (s.block_devices which).block_size * 512 ≡ low
  sector_of = rw ready.sectors (omega (arith, sectors.from))

  served_inside : low / (s.block_devices which).block_size * 512 + (high - low) % 2 ^ 32 ≤ capacity
  served_inside = omega (arith, sector_of, sectors.short, sectors.inside, sectors.some_bytes)

  served_length : (high - low) % 2 ^ 32 ≤ 65024
  served_length = omega (arith, sectors.short)

  queue-after :
      (w : Bool) (m : Mem)
      → Fits (record (queued serve translate brq s which buffer low high w) { disk = m })
  unfolding queued d enqueue
  queue-after w m = record {
    room = ready.queue.room;
    rounds = ready.queue.rounds;
    wraps = ready.queue.wraps;
    index = omega arith;
  }

  after :
      (w : Bool)
      → Became
          (block_request serve translate brq s which buffer low high w)
          which
          ((served serve translate brq s which buffer low high w).0)
          ((served serve translate brq s which buffer low high w).1)
  unfolding queued d enqueue
  after w =
      let q = queued serve translate brq s which buffer low high w in
      let done : BlockDevice = record q {
        disk = (served serve translate brq s which buffer low high w).1;
      } in
      let devices = put_at s.block_devices which q in
      let found = put_self devices which done in
      let out = served serve translate brq s which buffer low high w in
      subst (λ r. Became r which (out.0) (out.1))
        (sym (block_request-served serve translate brq s which buffer low high w ready.queue))
        (record {
          ready = record {
            listed = ready.listed;
            sectors = ap (λ x. x.block_size) found ∙ ready.sectors;
            queue = subst Fits (sym found) (queue-after w (out.1));
          };
          memory_is = λ a. refl;
          disk_is = λ a. ap (λ x. x.disk a) found;
        })

  read_memory :
      (a : ℕ)
      → (served serve translate brq s which buffer low high false).0 a
        ≡ blit s.memory buffer (s.block_devices which).disk low (high - low) a
  unfolding served d
  read_memory a = ground (
    arith,
    device.reads (low / (s.block_devices which).block_size) (translate buffer)
        ((high - low) % 2 ^ 32) s.memory (s.block_devices which).disk served_inside served_length a,
    mapped,
    sector_of,
    sectors.short,
    sectors.inside,
  )

  -- A read of whole sectors returns 0 with them in the buffer.
  pub block_read-within :
      Done
        (block_read_write serve translate brq s which buffer low high false)
        which
        (blit s.memory buffer (s.block_devices which).disk low (high - low))
        (s.block_devices which).disk
  unfolding served d
  block_read-within =
      let out = after false in
      subst
        (λ r.
          Done r which (blit s.memory buffer (s.block_devices which).disk low (high - low))
            (s.block_devices which).disk)
        (sym (accepted false))
        (
          refl,
          record {
            ready = out.ready;
            memory_is = λ a. out.memory_is a ∙ read_memory a;
            disk_is =
                λ a. out.disk_is a ∙ device.reads_only _ _ _ _ _ served_inside served_length a;
          },
        )

  write_disk :
      (a : ℕ)
      → (served serve translate brq s which buffer low high true).1 a
        ≡ blit (s.block_devices which).disk low s.memory buffer (high - low) a
  unfolding served d
  write_disk a = ground (
    arith,
    device.writes (low / (s.block_devices which).block_size) (translate buffer)
        ((high - low) % 2 ^ 32) s.memory (s.block_devices which).disk served_inside served_length a,
    mapped,
    sector_of,
    sectors.short,
    sectors.inside,
  )

  -- A write of whole sectors returns 0 with the buffer in them.
  pub block_write-within :
      Done
        (block_read_write serve translate brq s which buffer low high true)
        which
        s.memory
        (blit (s.block_devices which).disk low s.memory buffer (high - low))
  unfolding served d
  block_write-within =
      let out = after true in
      subst
        (λ r.
          Done r which s.memory
            (blit (s.block_devices which).disk low s.memory buffer (high - low)))
        (sym (accepted true))
        (
          refl,
          record {
            ready = out.ready;
            memory_is =
                λ a. out.memory_is a ∙ device.writes_only _ _ _ _ _ served_inside served_length a;
            disk_is = λ a. out.disk_is a ∙ write_disk a;
          },
        )
