-- ===== src/Dfu/Bounds.antt =====
-- Where the blocks of a download lie.
use cs7000p_bootloader.Base.{ℕ, zero, suc, ◌+◌, ◌-◌, ◌/◌, ◌^◌, ◌≤◌, ◌<◌, ◌≡◌, List, [], ◌∷◌, arith}
use cs7000p_bootloader.Flash.{xfer_bufsize, addr_to_sector}
use cs7000p_bootloader.Flash.Image.{placed}
use cs7000p_bootloader.Flash.Layout.{addr_to_sector_lem}
use cs7000p_bootloader.Dfu.{app_base_addr, block_address}
use cs7000p_bootloader.Dfu.Words.{block_address_lem}

-- Every byte is stored from `lo` on and below `hi`.
abbrev pub Within : (lo hi : ℕ) → List (ℕ × ℕ) → Type 0
Within lo hi [] = Unit
Within lo hi ((a, v) ∷ l) = (lo ≤ a) × (a < hi) × Within lo hi l

pub Within-placed :
    (lo hi : ℕ) (buf : List ℕ) (addr k n : ℕ)
    → lo ≤ addr + k
    → addr + k + n ≤ hi
    → hi ≤ 2 ^ 32
    → Within lo hi (placed buf addr k n)
unfolding placed
Within-placed lo hi buf addr k zero h1 h2 h3 = tt
Within-placed lo hi buf addr k (suc n) h1 h2 h3 = (
  omega arith,
  omega arith,
  Within-placed lo hi buf addr (k + 1) n (omega arith) (omega arith) h3,
)

-- At the base address that a mount sets, blocks 2 to 1025 fill bank 2: all bytes of such a block, of at
-- most 1024 bytes, lie
-- there, the next block starts 1024 bytes further, and 128 blocks share a sector.
pub block-Within :
    (block len : ℕ) (buf : List ℕ)
    → 2 ≤ block
    → block < 1026
    → len ≤ xfer_bufsize
    → let addr = block_address app_base_addr block in
      Within 0x08100000 0x08200000 (placed buf addr 0 len)
      × Within addr (addr + xfer_bufsize) (placed buf addr 0 len)
      × (block_address app_base_addr (block + 1) ≡ addr + xfer_bufsize)
      × (addr_to_sector addr ≡ (block - 2) / 128)
block-Within block len buf h1 h2 h3 =
    let e = block_address_lem app_base_addr block in
    let addr = block_address app_base_addr block in
    let low : 0x08100000 ≤ addr = omega (arith, e) in
    let high : addr + xfer_bufsize ≤ 0x08200000 = omega (arith, e) in
    (
      Within-placed _ _ buf addr 0 len (omega arith) (omega arith) (omega arith),
      Within-placed _ _ buf addr 0 len (omega arith) (omega arith) (omega arith),
      omega (arith, e, block_address_lem app_base_addr (block + 1)),
      omega (arith, e, addr_to_sector_lem addr),
    )
