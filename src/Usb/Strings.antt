-- ===== src/Usb/Strings.antt =====
-- The string descriptors: what each holds, and that each fits `_desc_str`.
use cs7000p_bootloader.Base.{
  ℕ, zero, suc, ◌+◌, ◌*◌, ◌^◌, ◌≤◌, ◌<◌, ◌≡◌, refl, ap, ◌∙◌, sym, false, List, [], ◌∷◌, ◌++◌,
  append_assoc, append-nil, bit_or, ltb, length, get_or, set, take, drop, u8, u16, ◌<<<◌,
  length-set, length-take, arith, or-<<<, bit_or_comm,
}
use cs7000p_bootloader.Usb.{convert, max_count, put_header, text_cb}

-- What comes before a write, and the write.
pub take-set :
    (xs : List ℕ) (i v : ℕ) → i < length xs → take (suc i) (set xs i v) ≡ take i xs ++ (v ∷ [])
take-set [] i v h = absurd (omega arith)
take-set (x ∷ xs) zero v h = refl
take-set (x ∷ xs) (suc i) v h = rw (take-set xs i v (omega arith)) refl

pub take-set_pair :
    (xs : List ℕ) (i v w : ℕ)
    → suc i < length xs
    → take (suc (suc i)) (set (set xs (suc i) w) i v) ≡ take i xs ++ (v ∷ w ∷ [])
take-set_pair [] i v w h = absurd (omega arith)
take-set_pair (x ∷ []) i v w h = absurd (omega arith)
take-set_pair (x ∷ y ∷ xs) zero v w h = refl
take-set_pair (x ∷ y ∷ xs) (suc i) v w h = rw (take-set_pair (y ∷ xs) i v w (omega arith)) refl

pub take-drop :
    (xs : List ℕ) (i n : ℕ)
    → i < length xs
    → take (suc n) (drop i xs) ≡ get_or xs i 0 ∷ take n (drop (suc i) xs)
take-drop [] i n h = absurd (omega arith)
take-drop (x ∷ xs) zero n h = refl
take-drop (x ∷ xs) (suc i) n h = take-drop xs i n (omega arith)

-- The conversion writes the characters behind what was there, and nothing past them.
pub convert-take :
    (str desc : List ℕ) (i n : ℕ)
    → i + n ≤ length str
    → i + n < length desc
    → take (suc (i + n)) (convert str desc i n) ≡ take (suc i) desc ++ take n (drop i str)
unfolding convert
convert-take str desc i zero h q =
    let here : i + 0 ≡ i = omega arith in rw here (sym (append-nil (take (suc i) desc)))
convert-take str desc i (suc n) h q =
    let v = get_or str i 0 in
    let next : i + 1 ≡ 1 + i = omega arith in
    let one : 1 + i ≡ suc i = omega arith in
    let there : i + suc n ≡ i + 1 + n = omega arith in
    rw there (
      convert-take str (set desc (1 + i) v) (i + 1) n (omega arith)
        (omega (arith, length-set desc (1 + i) v))
      ∙ rw (next, take-set desc (1 + i) v (omega arith), take-drop str i n (omega arith), one)
          (append_assoc (take (suc i) desc) (v ∷ []) (take n (drop (suc i) str))))

pub length-convert : (str desc : List ℕ) (i n : ℕ) → length (convert str desc i n) ≡ length desc
unfolding convert
length-convert str desc i zero = refl
length-convert str desc i (suc n) =
    length-convert str (set desc (1 + i) (get_or str i 0)) (i + 1) n ∙ length-set desc _ _

pub header_lem :
    (kind n : ℕ)
    → kind < 2 ^ 8
    → n < 127
    → u16 (bit_or (kind <<< 8) (2 * n + 2)) ≡ kind * 2 ^ 8 + (2 * n + 2)
header_lem kind n h k =
    rw (bit_or_comm (kind <<< 8) (2 * n + 2), or-<<< 8 (2 * n + 2) kind (omega arith)) (omega arith)

take-header :
    (desc : List ℕ) (n v : ℕ)
    → 0 < length desc
    → take (suc n) (set desc 0 v) ≡ v ∷ take n (drop 1 desc)
take-header [] n v h = absurd (omega arith)
take-header (x ∷ desc) n v h = refl

take-tail : (desc : List ℕ) (n : ℕ) → take n (drop 1 desc) ≡ drop 1 (take (suc n) desc)
take-tail [] zero = refl
take-tail [] (suc n) = refl
take-tail (x ∷ desc) n = refl

drop-first : (first text : List ℕ) → length first ≡ 1 → drop 1 (first ++ text) ≡ text
drop-first [] text h = absurd (omega arith)
drop-first (x ∷ []) text h = refl
drop-first (x ∷ y ∷ first) text h = absurd (omega arith)

take-all : (xs : List ℕ) → take (length xs) xs ≡ xs
take-all [] = refl
take-all (x ∷ xs) = ap (λ l. x ∷ l) (take-all xs)

-- A buffer that has a descriptor with the characters `text`.
abbrev pub Describes : (kind : ℕ) → List ℕ → List ℕ → Type 0
Describes kind text desc =
    (take (suc (length text)) desc ≡ (kind * 2 ^ 8 + (2 * length text + 2)) ∷ text)
    × (length desc ≡ suc max_count)

pub put_header-Describes :
    (kind : ℕ) (text desc first : List ℕ)
    → kind < 2 ^ 8
    → length text ≤ max_count
    → length first ≡ 1
    → length desc ≡ suc max_count
    → take (suc (length text)) desc ≡ first ++ text
    → Describes kind text (put_header kind (length text) desc)
unfolding put_header
put_header-Describes kind text desc first small fits one size e = (
  take-header desc (length text) _ (omega arith)
      ∙ ap (λ v. v ∷ take (length text) (drop 1 desc))
          (header_lem kind (length text) small (omega arith))
      ∙ (ap (λ l. (kind * 2 ^ 8 + (2 * length text + 2)) ∷ l)
          (take-tail desc (length text) ∙ ap (drop 1) e ∙ drop-first first text one)),
  omega (arith, length-set desc 0 (u16 (bit_or (kind <<< 8) (2 * length text + 2)))),
)

pub text_cb-Describes :
    (kind : ℕ) (str desc : List ℕ)
    → kind < 2 ^ 8
    → length str ≤ max_count
    → length desc ≡ suc max_count
    → Describes kind str (text_cb kind str desc)
unfolding text_cb
text_cb-Describes kind str desc small fits size =
    let whole : u8 (length str) ≡ length str = omega arith in
    let no_cap : ltb max_count (length str) ≡ false = ground arith in
    let start : 0 + length str ≡ length str = omega arith in
    rw (whole, no_cap)
      (put_header-Describes kind str (convert str desc 0 (length str)) (take 1 desc) small fits
        (omega (arith, length-take 1 desc)) (length-convert str desc 0 (length str) ∙ size)
        ((rw start at (convert-take str desc 0 (length str) (omega arith) (omega arith)))
          ∙ ap (λ l. take 1 desc ++ l) (take-all str)))
