-- ===== src/Flash/Buffer.antt =====
-- The copy of the caller's data into the internal buffer of src/dfu_flash.c.
use cs7000p_bootloader.Base.{
  ℕ, zero, suc, ◌+◌, ◌≤◌, ◌<◌, ◌≡◌, refl, some, List, [], ◌∷◌, ◌++◌, arith, length, take, drop,
  get_or, length-append, length-take, length-drop,
}
use cs7000p_bootloader.Flash.{memcpy}
use cs7000p_bootloader.Flash.Image.{placed, IsBytes}

get_or-copied :
    (xs ys : List ℕ) (n k : ℕ)
    → k < n
    → n ≤ length xs
    → get_or (take n xs ++ ys) k 0 ≡ get_or xs k 0
get_or-copied xs ys zero k h p = absurd (omega arith)
get_or-copied [] ys (suc n) k h p = absurd (omega arith)
get_or-copied (x ∷ xs) ys (suc n) zero h p = refl
get_or-copied (x ∷ xs) ys (suc n) (suc k) h p = get_or-copied xs ys n k (omega arith) (omega arith)

IsBytes-tail : (x : ℕ) (xs : List ℕ) → IsBytes (x ∷ xs) → IsBytes xs
IsBytes-tail x xs h k = h (suc k)

IsBytes-drop : (n : ℕ) (xs : List ℕ) → IsBytes xs → IsBytes (drop n xs)
IsBytes-drop zero xs h = h
IsBytes-drop (suc n) [] h = h
IsBytes-drop (suc n) (x ∷ xs) h = IsBytes-drop n xs (IsBytes-tail x xs h)

IsBytes-copied : (n : ℕ) (xs ys : List ℕ) → IsBytes xs → IsBytes ys → IsBytes (take n xs ++ ys)
IsBytes-copied zero xs ys hx hy k = hy k
IsBytes-copied (suc n) [] ys hx hy k = hy k
IsBytes-copied (suc n) (x ∷ xs) ys hx hy zero = hx 0
IsBytes-copied (suc n) (x ∷ xs) ys hx hy (suc k) =
    IsBytes-copied n xs ys (IsBytes-tail x xs hx) hy k

placed-agree :
    (xs ys : List ℕ) (addr k n : ℕ)
    → ((j : ℕ) → j < k + n → get_or xs j 0 ≡ get_or ys j 0)
    → placed xs addr k n ≡ placed ys addr k n
unfolding placed
placed-agree xs ys addr k zero same = refl
placed-agree xs ys addr k (suc n) same =
    ground
      (arith, same k (omega arith), placed-agree xs ys addr (k + 1) n (λ j h. same j (omega arith)))

-- A copy that fits both arrays succeeds; the target keeps its size and holds the source's bytes.
pub record IsCopied (dst src : List ℕ) (n : ℕ) : Type 0 where
  pub out : List ℕ
  pub copies : memcpy dst src n ≡ some out
  pub size : length out ≡ length dst
  pub bytes : IsBytes src → IsBytes dst → IsBytes out
  pub image_of : (addr : ℕ) → placed out addr 0 n ≡ placed src addr 0 n

pub memcpy-IsCopied :
    (dst src : List ℕ) (n : ℕ) → n ≤ length dst → n ≤ length src → IsCopied dst src n
memcpy-IsCopied dst src n hd hs = record {
  out = take n src ++ drop n dst;
  copies = unfold memcpy in ground arith;
  size =
      omega (arith, length-append (take n src) (drop n dst), length-take n src, length-drop n dst);
  bytes = λ bs bd. IsBytes-copied n src (drop n dst) bs (IsBytes-drop n dst bd);
  image_of = λ addr.
      placed-agree (take n src ++ drop n dst) src addr 0 n
        (λ j h. get_or-copied src (drop n dst) n j (omega arith) hs);
}
