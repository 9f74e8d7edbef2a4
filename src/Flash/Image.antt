-- ===== src/Flash/Image.antt =====
-- What the accesses of a write operation store: the bytes and their addresses, in order.
use cs7000p_bootloader.Base.{
  ℕ, zero, suc, ◌+◌, ◌*◌, ◌/◌, ◌%◌, ◌^◌, ◌<◌, ◌≡◌, refl, List, [], ◌∷◌, ◌++◌, arith, append_assoc,
  append-nil, get_or, u32, replicate,
}
use native.Mathlib.Nat.{suc-add}
use cs7000p_bootloader.Bus.{Access, store32, store8, Hardware, Bus, emit, emit_all}
use cs7000p_bootloader.Flash.{word_at, word_stores, byte_stores}

-- The bytes that one access stores; a 32-bit store is little-endian.
abbrev pub stored : Access → List (ℕ × ℕ)
stored (store8 a v) = (a, v) ∷ []
stored (store32 a w) =
    (a, w % 2 ^ 8)
    ∷ (u32 (a + 1), w / 2 ^ 8 % 2 ^ 8)
    ∷ (u32 (a + 2), w / 2 ^ 16 % 2 ^ 8)
    ∷ (u32 (a + 3), w / 2 ^ 24 % 2 ^ 8)
    ∷ []
stored _ = []

unfoldable pub image : List Access → List (ℕ × ℕ)
image [] = []
image (a ∷ as') = stored a ++ image as'

-- The `n` bytes of `buf` from index `k` on, each at its place in the memory from `addr` on.
unfoldable pub placed : List ℕ → (addr k : ℕ) → ℕ → List (ℕ × ℕ)
placed buf addr k zero = []
placed buf addr k (suc n) = (u32 (addr + k), get_or buf k 0) ∷ placed buf addr (k + 1) n

abbrev pub IsBytes : List ℕ → Type 0
IsBytes buf = (k : ℕ) → get_or buf k 0 < 2 ^ 8

-- Memory that has been cleared.
pub zeros-IsBytes : (n : ℕ) → IsBytes (replicate n 0)
zeros-IsBytes zero k = omega arith
zeros-IsBytes (suc n) zero = omega arith
zeros-IsBytes (suc n) (suc k) = zeros-IsBytes n k

pub image-append : (as' bs : List Access) → image (as' ++ bs) ≡ image as' ++ image bs
unfolding image
image-append [] bs = refl
image-append (a ∷ as') bs = rw (image-append as' bs, append_assoc)

pub placed-append :
    (buf : List ℕ) (addr k n m : ℕ)
    → placed buf addr k (n + m) ≡ placed buf addr k n ++ placed buf addr (k + n) m
unfolding placed
placed-append buf addr k zero m = ground arith
placed-append buf addr k (suc n) m = rw suc-add (ground (arith, placed-append buf addr (k + 1) n m))

module _ (H : Hardware) where
  pub image-emit : (a : Access) (b : Bus H.Hw) → image (emit H a b).log ≡ image b.log ++ stored a
  unfolding emit image
  image-emit a b = rw (image-append b.log (a ∷ []), append-nil)

  pub image-emit_all :
      (as' : List Access) (b : Bus H.Hw) → image (emit_all H as' b).log ≡ image b.log ++ image as'
  unfolding emit_all image
  image-emit_all [] b = rw append-nil
  image-emit_all (a ∷ as') b = rw (image-emit_all as' (emit H a b), image-emit a b, append_assoc)

-- The loops store the bytes of the buffer, each at its place.
pub image-byte_stores :
    (buf : List ℕ) (addr k i n : ℕ)
    → image (byte_stores buf (u32 (addr + k)) k i n) ≡ placed buf addr (k + i) n
unfolding image byte_stores placed
image-byte_stores buf addr k i zero = refl
image-byte_stores buf addr k i (suc n) = ground (arith, image-byte_stores buf addr k (i + 1) n)

-- The bytes of a 32-bit load.
word_at_bytes :
    (buf : List ℕ) (k : ℕ)
    → IsBytes buf
    → (word_at buf k % 2 ^ 8 ≡ get_or buf k 0)
      × (word_at buf k / 2 ^ 8 % 2 ^ 8 ≡ get_or buf (k + 1) 0)
      × (word_at buf k / 2 ^ 16 % 2 ^ 8 ≡ get_or buf (k + 2) 0)
      × (word_at buf k / 2 ^ 24 % 2 ^ 8 ≡ get_or buf (k + 3) 0)
unfolding word_at
word_at_bytes buf k bytes = omega (arith, bytes k, bytes (k + 1), bytes (k + 2), bytes (k + 3))

placed-four :
    (buf : List ℕ) (addr k n : ℕ)
    → placed buf addr k (4 + n)
      ≡ (u32 (addr + k), get_or buf k 0)
        ∷ (u32 (addr + (k + 1)), get_or buf (k + 1) 0)
        ∷ (u32 (addr + (k + 2)), get_or buf (k + 2) 0)
        ∷ (u32 (addr + (k + 3)), get_or buf (k + 3) 0)
        ∷ placed buf addr (k + 4) n
unfolding placed
placed-four buf addr k n =
    let e : 4 + n ≡ suc (suc (suc (suc n))) = omega arith in rw e (ground arith)

pub image-word_stores :
    (buf : List ℕ) (addr k i n : ℕ)
    → IsBytes buf
    → image (word_stores buf (u32 (addr + k)) k i n) ≡ placed buf addr (k + 4 * i) (4 * n)
unfolding image word_stores
image-word_stores buf addr k i zero bytes = unfold placed in refl
image-word_stores buf addr k i (suc n) bytes =
    let e : 4 * suc n ≡ 4 + 4 * n = omega arith in
    rw e (
      ground (
        arith,
        word_at_bytes buf (k + 4 * i) bytes,
        placed-four buf addr (k + 4 * i) (4 * n),
        image-word_stores buf addr k (i + 1) n bytes,
      ))
