-- ===== src/Gpio/Levels.antt =====
-- The outputs of src/gpio.c as one family, whichever device they belong to, and their levels.
use cs7000p_bootloader.Base.{
  ℕ, ◌<◌, ◌≡◌, refl, Bool, false, ◌&&◌, ◌||◌, List, [], ◌∷◌, ◌++◌, ◌==◌, if◌then◌else◌, get_or,
}
use cs7000p_bootloader.Bus.{
  Port, gpioe, Access, keyr2, cr2, ccr2, store32, store8, bsrr, isb, dsb, irq_off, irq_on,
}
use cs7000p_bootloader.Gpio.Dev.{Board, GpioPin, gpio_dev, ext_gpio, pin_set, pin_clear, same_port}
use cs7000p_bootloader.Gpio.Chain.{Chain, receive, level}

-- The level of a pin after a row of accesses, the oldest first.
unfoldable pub wire_level : Port → ℕ → List Access → Bool → Bool
wire_level port pin [] old = old
wire_level port pin (bsrr p v ∷ l) old =
    wire_level port pin l (if same_port port p then level pin v old else old)
wire_level port pin (keyr2 v ∷ l) old = wire_level port pin l old
wire_level port pin (cr2 v ∷ l) old = wire_level port pin l old
wire_level port pin (ccr2 v ∷ l) old = wire_level port pin l old
wire_level port pin (store32 a v ∷ l) old = wire_level port pin l old
wire_level port pin (store8 a v ∷ l) old = wire_level port pin l old
wire_level port pin (isb ∷ l) old = wire_level port pin l old
wire_level port pin (dsb ∷ l) old = wire_level port pin l old
wire_level port pin (irq_off ∷ l) old = wire_level port pin l old
wire_level port pin (irq_on ∷ l) old = wire_level port pin l old

pub wire_level-append :
    (port : Port) (pin : ℕ) (l m : List Access) (old : Bool)
    → wire_level port pin (l ++ m) old ≡ wire_level port pin m (wire_level port pin l old)
unfolding wire_level
wire_level-append port pin [] m old = refl
wire_level-append port pin (bsrr p v ∷ l) m old = wire_level-append port pin l m _
wire_level-append port pin (keyr2 v ∷ l) m old = wire_level-append port pin l m old
wire_level-append port pin (cr2 v ∷ l) m old = wire_level-append port pin l m old
wire_level-append port pin (ccr2 v ∷ l) m old = wire_level-append port pin l m old
wire_level-append port pin (store32 a v ∷ l) m old = wire_level-append port pin l m old
wire_level-append port pin (store8 a v ∷ l) m old = wire_level-append port pin l m old
wire_level-append port pin (isb ∷ l) m old = wire_level-append port pin l m old
wire_level-append port pin (dsb ∷ l) m old = wire_level-append port pin l m old
wire_level-append port pin (irq_off ∷ l) m old = wire_level-append port pin l m old
wire_level-append port pin (irq_on ∷ l) m old = wire_level-append port pin l m old

-- A pin of a port, or an output of the shift register.
pub data Output : Type 0 where
  port_pin : Port → ℕ → Output
  ext_pin : ℕ → Output

abbrev pub pin_of : Output → GpioPin
pin_of (port_pin port pin) = record { port = gpio_dev port; pin = pin }
pin_of (ext_pin n) = record { port = ext_gpio; pin = n }

abbrev pub Exists : Output → Type 0
Exists (port_pin port pin) = pin < 16
Exists (ext_pin n) = n < 24

abbrev pub same_output : Output → Output → Bool
same_output (port_pin p n) (port_pin q m) = same_port q p && (m == n)
same_output (ext_pin n) (ext_pin m) = n == m
same_output _ _ = false

-- The three lines of the shift register.
abbrev pub is_line : Output → Bool
is_line (port_pin p n) = same_port p gpioe && ((n == 7) || (n == 8) || (n == 9))
is_line (ext_pin n) = false

-- The level of an output of the shift register: what the chain has latched after the accesses, where it
-- was `c` before the first of them.
abbrev pub ext_level : Chain → ℕ → Board → Bool
ext_level c n b = get_or (receive b.outputs.log c).latched n false

-- The level of an output, where `start` has those of the ports before the first access.
abbrev pub out_level : (Port → ℕ → Bool) → Chain → Output → Board → Bool
out_level start c (port_pin p n) b = wire_level p n b.outputs.log (start p n)
out_level start c (ext_pin n) b = ext_level c n b

-- `gpioPin_set` or `gpioPin_clear`.
abbrev pub pin_write : Output → Bool → Board → Board
pin_write o state b = if state then pin_set (pin_of o) b else pin_clear (pin_of o) b
