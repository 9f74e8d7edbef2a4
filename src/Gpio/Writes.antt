-- ===== src/Gpio/Writes.antt =====
-- What a write through the tables of src/gpio.c does to the level of every output.
use cs7000p_bootloader.Base.{
  ℕ, zero, suc, ◌+◌, ◌<◌, ◌≡◌, refl, ap, sym, ◌∙◌, get_or, Bool, true, false, ◌&&◌, ◌||◌, List, [],
  ◌∷◌, ◌++◌, arith, any_set, ◌==◌, if◌then◌else◌, ◌<<<◌, Bool-cases, inl, inr, ◌/◌, ◌^◌,
}
use cs7000p_bootloader.Bus.{Port, gpioe, Access, bsrr, irq_on, set_pin, clear_pin}
use cs7000p_bootloader.Gpio.{ShiftReg, send_bit, send_byte, send, strobe, shift_reg_modify}
use cs7000p_bootloader.Gpio.Dev.{Board, pin_set, pin_clear, same_port}
use cs7000p_bootloader.Gpio.Chain.{Chain, level-one}
use cs7000p_bootloader.Gpio.Outputs.{read-modify}
use cs7000p_bootloader.Gpio.Shown.{
  IsShown, ext_level-read, modify-IsShown, latched-set, latched-clear, access-latched,
  access-IsShown,
}
use cs7000p_bootloader.Gpio.Wire.{modify-log}
use cs7000p_bootloader.Gpio.Levels.{
  wire_level, wire_level-append, Output, port_pin, ext_pin, Exists, same_output, is_line, ext_level,
  out_level, pin_write,
}

one_access :
    (p : Port) (n : ℕ) (a : Access) (l : List Access) (old : Bool)
    → wire_level p n (l ++ (a ∷ [])) old ≡ wire_level p n (a ∷ []) (wire_level p n l old)
one_access p n a l old = wire_level-append p n l (a ∷ []) old

set_pin-level :
    (p q : Port) (n m : ℕ) (old : Bool)
    → n < 16
    → wire_level q m (set_pin p n ∷ []) old ≡ (if same_port q p && (m == n) then true else old)
unfolding wire_level set_pin
set_pin-level p q n m old h = rw level-one (ground arith)

clear_pin-level :
    (p q : Port) (n m : ℕ) (old : Bool)
    → m < 16
    → wire_level q m (clear_pin p n ∷ []) old ≡ (if same_port q p && (m == n) then false else old)
unfolding wire_level clear_pin
clear_pin-level p q n m old h = rw level-one (ground arith)

-- A write of one bit to a line, or of its reset, touches no other pin.
module _ (q : Port) (m : ℕ) (small : m < 16) (no_line : is_line (port_pin q m) ≡ false) where
  line_access :
      (j : ℕ) (l : List Access) (old : Bool)
      → (j == 7 || j == 8 || j == 9 || j == 23 || j == 24 || j == 25) ≡ true
      → wire_level q m (bsrr gpioe (1 <<< j) ∷ l) old ≡ wire_level q m l old
  unfolding wire_level
  line_access j l old h = ap (wire_level q m l) (rw level-one (ground arith))

  send_bit-level : (value cnt : ℕ) (old : Bool) → wire_level q m (send_bit value cnt) old ≡ old
  unfolding send_bit
  send_bit-level value cnt old = elim (Bool-cases (any_set value (0x80 / 2 ^ cnt))) [
    | inl e ↦ rw e (
        line_access 23 _ old refl
        ∙ line_access 9 _ old refl
        ∙ line_access 7 [] old refl
        ∙ nothing old)
    | inr e ↦ rw e (
        line_access 23 _ old refl
        ∙ line_access 25 _ old refl
        ∙ line_access 7 [] old refl
        ∙ nothing old)
  ]
    where
      nothing : (old : Bool) → wire_level q m [] old ≡ old
      nothing old = unfold wire_level in refl

  send_byte-level :
      (value cnt n : ℕ) (old : Bool) → wire_level q m (send_byte value cnt n) old ≡ old
  unfolding send_byte wire_level
  send_byte-level value cnt zero old = refl
  send_byte-level value cnt (suc n) old =
      wire_level-append q m (send_bit value cnt) (send_byte value (cnt + 1) n) old
      ∙ send_byte-level value (cnt + 1) n _
      ∙ send_bit-level value cnt old

  send-level : (txbuf : List ℕ) (old : Bool) → wire_level q m (send txbuf) old ≡ old
  unfolding send wire_level
  send-level [] old = refl
  send-level (value ∷ txbuf) old =
      wire_level-append q m (send_byte value 0 8) (send txbuf) old
      ∙ send-level txbuf _
      ∙ send_byte-level value 0 8 old

  strobe-level :
      (sr_data : List ℕ) (l : List Access) (old : Bool)
      → wire_level q m (strobe sr_data ++ l) old ≡ wire_level q m l old
  unfolding strobe set_pin clear_pin
  strobe-level sr_data l old =
      wire_level-append q m _ l old
      ∙ ap (wire_level q m l) (
          line_access 24 _ old refl
          ∙ wire_level-append q m (send sr_data) _ old
          ∙ line_access 8 [] _ refl
          ∙ unfold wire_level in send-level sr_data old)

  -- So does a whole write to the shift register.
  ext_write-level :
      (n : ℕ) (state : Bool) (s : ShiftReg) (old : Bool)
      → n < 24
      → wire_level q m (shift_reg_modify n state s).log old ≡ wire_level q m s.log old
  ext_write-level n state s old h =
      let s' = shift_reg_modify n state s in
      ap (λ l. wire_level q m l old) (modify-log n state s h)
      ∙ wire_level-append q m s.log _ old
      ∙ unfold wire_level in strobe-level s'.sr_data (irq_on ∷ []) (wire_level q m s.log old)

-- A write to an output of the chain, as it is latched.
ext_modify-level :
    (c : Chain) (n m : ℕ) (state : Bool) (b : Board)
    → n < 24
    → m < 24
    → IsShown c b.outputs
    → let b' = record b { outputs = shift_reg_modify n state b.outputs } in
      ext_level c m b' ≡ (if n == m then state else ext_level c m b)
ext_modify-level c n m state b h h' v =
    let b' : Board = record b { outputs = shift_reg_modify n state b.outputs } in
    ext_level-read c b' m (modify-IsShown c n state b.outputs h v) h'
    ∙ read-modify n m state b.outputs v.array h h'
    ∙ ap (λ (x : Bool). if n == m then state else x) (sym (ext_level-read c b m v h'))

-- A write to an output of either device, by the tables of functions, sets its level and changes no
-- other: the outputs are the 16 pins of each port and the 24 of the shift register, whose levels are
-- what the chain of shift registers has latched after the accesses. The three lines that drive the
-- chain are neither written nor asked about, and before the write the chain shows what the program
-- reads.
pub pin_write-level :
    (start : Port → ℕ → Bool) (c : Chain) (o o' : Output) (state : Bool) (b : Board)
    → Exists o
    → Exists o'
    → is_line o ≡ false
    → is_line o' ≡ false
    → IsShown c b.outputs
    → out_level start c o' (pin_write o state b)
      ≡ (if same_output o o' then state else out_level start c o' b)
unfolding pin_set pin_clear
pin_write-level start c (port_pin p n) (port_pin q m) true b h h' k l v =
    one_access q m _ b.outputs.log (start q m) ∙ set_pin-level p q n m _ h
pin_write-level start c (port_pin p n) (port_pin q m) false b h h' k l v =
    one_access q m _ b.outputs.log (start q m) ∙ clear_pin-level p q n m _ h'
pin_write-level start c (port_pin p n) (ext_pin m) true b h h' k l v =
    ap (λ l. get_or l m false) (access-latched c (set_pin p n) b (latched-set p n h k))
pin_write-level start c (port_pin p n) (ext_pin m) false b h h' k l v =
    ap (λ l. get_or l m false) (access-latched c (clear_pin p n) b (latched-clear p n h k))
pin_write-level start c (ext_pin n) (port_pin q m) true b h h' k l v =
    ext_write-level q m h' l n true b.outputs (start q m) h
pin_write-level start c (ext_pin n) (port_pin q m) false b h h' k l v =
    ext_write-level q m h' l n false b.outputs (start q m) h
pin_write-level start c (ext_pin n) (ext_pin m) true b h h' k l v =
    ext_modify-level c n m true b h h' v
pin_write-level start c (ext_pin n) (ext_pin m) false b h h' k l v =
    ext_modify-level c n m false b h h' v

-- The chain goes on to show what the program reads.
pub pin_write-IsShown :
    (c : Chain) (o : Output) (state : Bool) (b : Board)
    → Exists o
    → is_line o ≡ false
    → IsShown c b.outputs
    → IsShown c (pin_write o state b).outputs
unfolding pin_set pin_clear
pin_write-IsShown c (port_pin p n) true b h k v =
    access-IsShown c (set_pin p n) b (latched-set p n h k) v
pin_write-IsShown c (port_pin p n) false b h k v =
    access-IsShown c (clear_pin p n) b (latched-clear p n h k) v
pin_write-IsShown c (ext_pin n) true b h k v = modify-IsShown c n true b.outputs h v
pin_write-IsShown c (ext_pin n) false b h k v = modify-IsShown c n false b.outputs h v
