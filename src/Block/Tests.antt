-- ===== src/Block/Tests.antt =====
-- A device of eight sectors, and the conditions of the theorems there.
use ducreu_os.Base.{ℕ, ◌*◌, ◌%◌, ◌≡◌, refl, ◌==◌, if◌then◌else◌}
use ducreu_os.Base.Memory.{Mem, blit}
use ducreu_os.Utils.Memory.{memcpy}
use ducreu_os.Block.{
  BlockDevice, Machine, enqueue, carry_out, notify, block_request, block_read_write,
  block_read_arbitrary,
}

abbrev serve : ℕ → ℕ → ℕ → ℕ → Mem → Mem → Mem × Mem
serve type sector address length memory disk =
    if type == 0
    then (blit memory address disk (sector * 512) length, disk)
    else (memory, blit disk (sector * 512) memory address length)

abbrev device : BlockDevice
device = record {
  block_size = 512;
  queue_size = 8;
  requests_idx = 65534;
  vq = record {
    descriptor = λ _. record { address = 0; length = 0; flags = 0; next = 0 };
    ring = λ _. 0;
    driver_idx = 9;
  };
  disk = λ a. a * 7 % 256;
}

abbrev machine : Machine
machine = record {
  num_block_devices = 1;
  block_devices = λ _. device;
  headers = λ _. record { type = 0; sector = 0 };
  memory = λ a. a % 256;
}

ten_read :
    (block_read_arbitrary serve (λ a. a) 0x1000 0x800 machine 0 0x100 508 10).1.memory 0x103
    ≡ 511 * 7 % 256
unfolding block_read_arbitrary block_read_write memcpy block_request notify carry_out enqueue
ten_read = refl
