-- ===== src/Block/Chain.antt =====
-- What the device finds in the queue behind a request of src/block.c.
use native.Mathlib.Nat.{mod-add-mod, mod-lt, mul-add-mod_self_left, mul_comm}
use ducreu_os.Base.{
  ℕ, ◌+◌, ◌*◌, ◌%◌, ◌^◌, ◌≤◌, ◌<◌, ◌≡◌, ◌≢◌, refl, sym, ap, ◌∙◌, Bool, if◌then◌else◌, arith, ◌⊎◌,
  inl, inr,
}
use ducreu_os.Base.Circular.{slot_ne}
use ducreu_os.Block.{
  Descriptor, BlockDevice, flag_next, flag_write, parts_from, enqueue, chain, put_at,
}

-- The queue has room for the three descriptors, and the 16-bit index goes round where it does.
pub record Fits (d : BlockDevice) : Type 0 where
  pub room : 3 ≤ d.queue_size
  pub rounds : ℕ
  pub wraps : 2 ^ 16 ≡ rounds * d.queue_size
  pub index : d.requests_idx < 2 ^ 16

sixteen-mod : (n : ℕ) → n < 2 ^ 17 → (n % 2 ^ 16 ≡ n) ⊎ (n ≡ 2 ^ 16 + n % 2 ^ 16)
sixteen-mod n lt = ground arith

wrapped :
    (r k size q : ℕ)
    → 2 ^ 16 ≡ q * size
    → r < 2 ^ 16
    → k < 3
    → (r + k) % 2 ^ 16 % size ≡ (r % size + k) % size
wrapped r k size q e lt lk = elim (sixteen-mod (r + k) (omega arith)) [
  | inl same ↦ ap (λ n. n % size) same ∙ sym (mod-add-mod r size k)
  | inr over ↦
      sym (mul-add-mod_self_left size q ((r + k) % 2 ^ 16))
      ∙ ap (λ n. n % size) (omega (arith, over, e, mul_comm size q))
      ∙ sym (mod-add-mod r size k)
]

pub put_self {ℓ} : {A : Type ℓ} (f : ℕ → A) (k : ℕ) (v : A) → put_at f k v k ≡ v
put_self f k v = ground arith

pub put_ne {ℓ} : {A : Type ℓ} (f : ℕ → A) {k i : ℕ} (v : A) → i ≢ k → put_at f k v i ≡ f i
put_ne f v ne = ground arith

-- the parts of a request that has just been put_at into the table
followed :
    (table : ℕ → Descriptor) {h first second third : ℕ} (x y z : Descriptor)
    → second ≢ first
    → third ≢ first
    → third ≢ second
    → h ≡ first
    → x.next ≡ second
    → y.next ≡ third
    → parts_from (put_at (put_at (put_at table first x) second y) third z) h
      ≡ record { header = x; content = y; status = z }
followed table {h} {first} {second} {third} x y z n1 n2 n3 eh ex ey =
    let one = put_at table first x in
    let two = put_at one second y in
    let at_first : put_at two third z first ≡ x =
      put_ne two z (λ e. n2 (sym e)) ∙ put_ne one y (λ e. n1 (sym e)) ∙ put_self table first x in
    let at_second : put_at two third z second ≡ y =
      put_ne two z (λ e. n3 (sym e)) ∙ put_self one second y in
    let at_third : put_at two third z third ≡ z = put_self two third z in cc

module _ (d : BlockDevice) (fits : Fits d) where
  slots-ne :
      (j k : ℕ)
      → j < k
      → k < 3
      → (d.requests_idx + k) % 2 ^ 16 % d.queue_size ≢ (d.requests_idx + j) % 2 ^ 16 % d.queue_size
  slots-ne j k jk lk e =
      slot_ne d.queue_size (d.requests_idx % d.queue_size) k j
        (mod-lt d.requests_idx (omega (arith, fits.room))) jk (omega (arith, fits.room))
        (sym (wrapped d.requests_idx k d.queue_size fits.rounds fits.wraps fits.index lk)
          ∙ e
          ∙ wrapped d.requests_idx j d.queue_size fits.rounds fits.wraps fits.index (omega arith))

  first_slot : (d.requests_idx + 0) % 2 ^ 16 % d.queue_size ≡ d.requests_idx % d.queue_size
  first_slot = ap (λ n. n % d.queue_size) (omega (arith, fits.index))

  -- The device finds in the request that the driver has just put_at into the ring: the header, then the
  -- data, which it may write exactly when the request reads, then the status, which it writes.
  pub enqueue-chain :
      (write_request : Bool) (len2 paddr1 paddr2 paddr3 : ℕ)
      → (next1 : ℕ) × (next2 : ℕ) × (chain
            (enqueue d write_request len2 paddr1 paddr2 paddr3)
            d.vq.driver_idx
          ≡ record {
            header = record { address = paddr1; length = 16; flags = flag_next; next = next1 };
            content = record {
              address = paddr2;
              length = len2;
              flags = if write_request then flag_next else flag_next + flag_write;
              next = next2;
            };
            status = record { address = paddr3; length = 1; flags = flag_write; next = 0 };
          })
  unfolding enqueue
  enqueue-chain w len2 paddr1 paddr2 paddr3 =
      let ne1 = slots-ne 0 1 (omega arith) (omega arith) in
      let ne2 = slots-ne 0 2 (omega arith) (omega arith) in
      let ne3 = slots-ne 1 2 (omega arith) (omega arith) in
      let brq2 = (d.requests_idx + 1) % 2 ^ 16 % d.queue_size in
      let brq3 = (d.requests_idx + 2) % 2 ^ 16 % d.queue_size in
      (
        brq2,
        brq3,
        followed d.vq.descriptor _ _ _ (λ e. ne1 (e ∙ sym first_slot))
            (λ e. ne2 (e ∙ sym first_slot)) ne3
            (put_self d.vq.ring (d.vq.driver_idx % d.queue_size) _) refl refl,
      )
