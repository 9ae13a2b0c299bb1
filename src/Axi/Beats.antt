-- ===== src/Axi/Beats.antt =====
-- The bursts of `mgpu_axi_setup_burst`.
use package.amdhardware_kernel.Common.{ℕ, ◌+◌, ◌*◌, ◌%◌, ◌^◌, ◌<◌, ◌≡◌, arith, leb, if◌then◌else◌}
use package.amdhardware_kernel.Axi.{burst_beats, setup_burst}

-- The bytes that a burst moves: beats of `2 ^ burst_size` bytes.
abbrev pub burst_bytes : ℕ → ℕ → ℕ
burst_bytes addr size =
    ((setup_burst addr size).burst_len + 1) * 2 ^ (setup_burst addr size).burst_size

-- The burst of a transaction of whole dwords, of more than 0 and less than 2^32 bytes, moves exactly its bytes when there are at most 1024 of them,
-- and 1024 bytes, less than asked, when there are more: a page takes four bursts, but it gets one.
pub setup_burst_bytes :
    (addr size : ℕ)
    → 0 < size
    → size % 4 ≡ 0
    → size < 2 ^ 32
    → burst_bytes addr size ≡ (if leb size 1024 then size else 1024)
unfolding setup_burst burst_beats
setup_burst_bytes addr size pos even small = ground arith
