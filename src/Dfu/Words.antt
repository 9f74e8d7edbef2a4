-- ===== src/Dfu/Words.antt =====
-- The two encodings of src/dfu_tinyusb.c: the address behind a command byte, and the poll timeout.
use cs7000p_bootloader.Base.{
  ℕ, ◌+◌, ◌-◌, ◌*◌, ◌/◌, ◌%◌, ◌^◌, ◌<◌, ◌≡◌, List, [], ◌∷◌, ◌++◌, arith, u32, or-<<<, bit_and_byte,
  bit_or, ◌<<<◌,
}
use cs7000p_bootloader.Flash.{xfer_bufsize}
use cs7000p_bootloader.Dfu.{Response, set_poll_timeout, address_at_1, block_address}

-- What a host sends for the command `cmd` with a 32-bit address: four bytes, the lowest first.
unfoldable pub command_bytes : (cmd addr : ℕ) → List ℕ
command_bytes cmd addr =
    cmd ∷ addr % 2 ^ 8 ∷ addr / 2 ^ 8 % 2 ^ 8 ∷ addr / 2 ^ 16 % 2 ^ 8 ∷ addr / 2 ^ 24 % 2 ^ 8 ∷ []

address_as_sum :
    (a b c d : ℕ)
    → a < 2 ^ 8
    → b < 2 ^ 8
    → c < 2 ^ 8
    → bit_or (bit_or (bit_or a (b <<< 8)) (c <<< 16)) (d <<< 24)
      ≡ a + b * 2 ^ 8 + c * 2 ^ 16 + d * 2 ^ 24
address_as_sum a b c d ha hb hc = rw (
  or-<<< 8 a b ha,
  or-<<< 16 (a + b * 2 ^ 8) c (omega arith),
  or-<<< 24 (a + b * 2 ^ 8 + c * 2 ^ 16) d (omega arith),
)

-- The device reads back the address that the host has sent, whatever the command and whatever
-- follows it in the buffer.
pub address_at_1-command_bytes :
    (cmd addr : ℕ) (rest : List ℕ)
    → addr < 2 ^ 32
    → address_at_1 (command_bytes cmd addr ++ rest) ≡ addr
unfolding address_at_1 command_bytes
address_at_1-command_bytes cmd addr rest h = omega (
  arith,
  address_as_sum (addr % 2 ^ 8) (addr / 2 ^ 8 % 2 ^ 8) (addr / 2 ^ 16 % 2 ^ 8)
      (addr / 2 ^ 24 % 2 ^ 8) (omega arith) (omega arith) (omega arith),
)

-- The poll timeout that a host reads from the three bytes of a status response.
abbrev pub poll_timeout : Response → ℕ
poll_timeout r = r.poll_0 + r.poll_1 * 2 ^ 8 + r.poll_2 * 2 ^ 16

-- The host reads the timeout that was set, if it fits 24 bits; each part is a byte.
pub poll_timeout-set :
    (ms : ℕ) (r : Response)
    → ms < 2 ^ 24
    → let r' = set_poll_timeout ms r in
      (poll_timeout r' ≡ ms) × (r'.poll_0 < 2 ^ 8) × (r'.poll_1 < 2 ^ 8) × (r'.poll_2 < 2 ^ 8)
unfolding set_poll_timeout
poll_timeout-set ms r h =
    omega (arith, bit_and_byte ms, bit_and_byte (ms / 2 ^ 8), bit_and_byte (ms / 2 ^ 16))

-- Block `block` lies `block - 2` buffers behind the base address.
pub block_address_lem :
    (base block : ℕ) → block_address base block ≡ u32 (base + (block - 2) * xfer_bufsize)
unfolding block_address
block_address_lem base block = omega arith
