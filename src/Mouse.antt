-- ===== src/Mouse.antt =====
-- kernel/driver/mouse.c: the packets of a PS/2 mouse; and the part of kernel/gui.c that moves the
-- pointer.
pub mod Packets
mod Examples
use quad_os.Base.{
  ℕ, ◌+◌, ◌%◌, ◌-◌, ◌/◌, ◌==◌, ◌≡◌, ◌||◌, Bool, true, false, List, [], ◌∷◌, leb, if◌then◌else◌,
  get_or, set, replicate, add32, sub32, u32_mod, ltb_ℤ, signed32, pos,
}

abbrev pub packet_bytes : ℕ
packet_bytes = 3

-- `mouse`, the static variables of mouse.c, and `gui.left_click` and `gui.right_click`.
-- The accumulators are the bit patterns of an `int32_t`, the entries of `buffer` are bytes.
pub record Mouse : Type 0 where
  pub x_acc : ℕ
  pub y_acc : ℕ
  pub left_button : Bool
  pub right_button : Bool
  pub buffer : List ℕ
  pub buffer_index : ℕ
  pub left_click : Bool
  pub right_click : Bool

-- `(int8_t) byte`, converted to `int32_t`
abbrev pub extend8 : ℕ → ℕ
extend8 byte = if leb 128 byte then byte + u32_mod - 256 else byte

-- What `init_mouse` sets; the device is told to send packets.
unfoldable pub init_mouse : Mouse → Mouse
init_mouse m = record m {
  x_acc = 0;
  y_acc = 0;
  left_button = false;
  right_button = false;
  buffer = replicate packet_bytes 0;
  buffer_index = 0;
}

-- The body of the `if` that a full packet enters.
unfoldable pub take_packet : Mouse → Mouse
take_packet m =
    let buttons = get_or m.buffer 1 0 in
    let left_button = buttons % 2 == 1 in
    let right_button = buttons / 2 % 2 == 1 in
    record m {
      buffer_index = 0;
      x_acc = add32 m.x_acc (extend8 (get_or m.buffer 2 0));
      y_acc = sub32 m.y_acc (extend8 (get_or m.buffer 0 0));
      left_button = left_button;
      right_button = right_button;
      left_click = if left_button then true else m.left_click;
      right_click = if right_button then true else m.right_click;
    }

-- The byte that `read_mouse` returns is the argument `byte`.
unfoldable pub handle_mouse_interrupt : ℕ → Mouse → Mouse
unfolding take_packet
handle_mouse_interrupt byte m =
    let m₁ = record m {
      buffer = set m.buffer m.buffer_index byte;
      buffer_index = (m.buffer_index + 1) % 256;
    } in
    if leb packet_bytes m₁.buffer_index then take_packet m₁ else m₁

-- The interrupts of a sequence of bytes.
unfoldable pub receive : List ℕ → Mouse → Mouse
unfolding handle_mouse_interrupt
receive [] m = m
receive (byte ∷ bytes) m = receive bytes (handle_mouse_interrupt byte m)
