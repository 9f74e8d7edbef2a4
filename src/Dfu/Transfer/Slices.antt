-- ===== src/Dfu/Transfer/Slices.antt =====
-- The bytes of an image, cut into blocks, lie in the memory as the whole image does.
use cs7000p_bootloader.Base.{
  ℕ, zero, suc, ◌+◌, ◌-◌, ◌≤◌, ◌≡◌, refl, ap, ◌∙◌, List, [], ◌∷◌, ◌++◌, arith, length, get_or,
  get_or-take, take, drop, u32, min, ltb, length-drop, append-nil, Bool-cases, inl, inr, sym,
}
use cs7000p_bootloader.Flash.Image.{placed, IsBytes, placed-append}

get_or-drop : (n i : ℕ) (xs : List ℕ) → get_or (drop n xs) i 0 ≡ get_or xs (n + i) 0
get_or-drop zero i xs = ap (λ j. get_or xs j 0) (omega arith)
get_or-drop (suc n) i [] = refl
get_or-drop (suc n) i (x ∷ xs) =
    let e : suc n + i ≡ suc (n + i) = omega arith in rw e (get_or-drop n i xs)

pub take-IsBytes : (n : ℕ) (xs : List ℕ) → IsBytes xs → IsBytes (take n xs)
take-IsBytes zero xs h k = omega arith
take-IsBytes (suc n) [] h k = omega arith
take-IsBytes (suc n) (x ∷ xs) h zero = h 0
take-IsBytes (suc n) (x ∷ xs) h (suc k) = take-IsBytes n xs (λ i. h (suc i)) k

pub drop-IsBytes : (n : ℕ) (xs : List ℕ) → IsBytes xs → IsBytes (drop n xs)
drop-IsBytes n xs h k = rw (get_or-drop n k xs) (h (n + k))

placed-take :
    (w : ℕ) (xs : List ℕ) (addr k n : ℕ)
    → k + n ≤ w
    → placed (take w xs) addr k n ≡ placed xs addr k n
unfolding placed
placed-take w xs addr k zero h = refl
placed-take w xs addr k (suc n) h =
    rw (get_or-take w k xs 0 (omega arith), placed-take w xs addr (k + 1) n (omega arith)) refl

placed-drop :
    (w : ℕ) (xs : List ℕ) (addr addr' k n : ℕ)
    → u32 addr' ≡ u32 (addr + w)
    → placed (drop w xs) addr' k n ≡ placed xs addr (w + k) n
unfolding placed
placed-drop w xs addr addr' k zero e = refl
placed-drop w xs addr addr' k (suc n) e =
    let place : u32 (addr' + k) ≡ u32 (addr + (w + k)) = omega (arith, e) in
    rw (get_or-drop w k xs, place, placed-drop w xs addr addr' (k + 1) n e) (ground arith)

-- A first block of at most `w` bytes, and what follows it.
pub placed-slices :
    (w : ℕ) (xs : List ℕ) (addr addr' : ℕ)
    → u32 addr' ≡ u32 (addr + w)
    → placed (take w xs) addr 0 (min w (length xs))
        ++ placed (drop w xs) addr' 0 (length (drop w xs))
      ≡ placed xs addr 0 (length xs)
placed-slices w xs addr addr' e = elim (Bool-cases (ltb w (length xs))) [
  | inl more ↦
      let first : min w (length xs) ≡ w = ground arith in
      let rest : length (drop w xs) ≡ length xs - w = length-drop w xs in
      let whole : w + (length xs - w) ≡ length xs = ground arith in
      rw (first, rest, placed-take w xs addr 0 w (omega arith))
        (ap (λ (l : List (ℕ × ℕ)). placed xs addr 0 w ++ l)
            (placed-drop w xs addr addr' 0 (length xs - w) e ∙ at_start (w + 0) (omega arith))
          ∙ sym (placed-append xs addr 0 w (length xs - w))
          ∙ ap (placed xs addr 0) whole)
  | inr last ↦
      let first : min w (length xs) ≡ length xs = ground arith in
      let none_left : length (drop w xs) ≡ 0 = ground (arith, length-drop w xs) in
      rw (first, none_left, placed-take w xs addr 0 (length xs) (ground arith)) nothing
]
  where
    at_start :
        (k : ℕ)
        → k ≡ 0 + w
        → placed xs addr k (length xs - w) ≡ placed xs addr (0 + w) (length xs - w)
    at_start k h = rw h refl

    nothing :
        placed xs addr 0 (length xs) ++ placed (drop w xs) addr' 0 0 ≡ placed xs addr 0 (length xs)
    nothing = unfold placed in append-nil (placed xs addr 0 (length xs))

pub placed-u32 : (xs : List ℕ) (addr n : ℕ) → placed xs (u32 addr) 0 n ≡ placed xs addr 0 n
placed-u32 xs addr n = placed-drop 0 xs addr (u32 addr) 0 n (omega arith)
