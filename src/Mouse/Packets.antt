-- ===== src/Mouse/Packets.antt =====
-- kernel/driver/mouse.c: what a stream of packets moves.
use quad_os.Base.{
  ℕ, ◌+◌, ◌%◌, ◌/◌, ◌==◌, ◌<◌, ◌≡◌, ◌||◌, refl, ◌∙◌, Bool, true, false, List, [], ◌∷◌,
  if◌then◌else◌, get_or, set, u32_mod, arith,
}
use quad_os.Mouse.{Mouse, extend8, take_packet, handle_mouse_interrupt, receive}

-- What the device reports in one packet, in the order of its bytes.
pub record Packet : Type 0 where
  pub flags : ℕ
  pub dx : ℕ
  pub dy : ℕ
  pub dy_byte : dy < 256

abbrev pub stream : List Packet → List ℕ
stream [] = []
stream (p ∷ ps) = p.flags ∷ (p.dx ∷ (p.dy ∷ stream ps))

abbrev pub total_dx : List Packet → ℕ
total_dx [] = 0
total_dx (p ∷ ps) = extend8 p.dx + total_dx ps

abbrev pub total_dy : List Packet → ℕ
total_dy [] = 0
total_dy (p ∷ ps) = extend8 p.dy + total_dy ps

abbrev pub any_left : List Packet → Bool
any_left [] = false
any_left (p ∷ ps) = (p.flags % 2 == 1) || any_left ps

abbrev pub any_right : List Packet → Bool
any_right [] = false
any_right (p ∷ ps) = (p.flags / 2 % 2 == 1) || any_right ps

-- One byte of three has come, and the buffer has room for three.
pub record IsAligned (m : Mouse) : Type 0 where
  pub first : ℕ
  pub second : ℕ
  pub third : ℕ
  pub first_byte : first < 256
  pub buffered : m.buffer ≡ first ∷ (second ∷ (third ∷ []))
  pub one_byte : m.buffer_index ≡ 1

abbrev pending : Mouse → ℕ
pending m = extend8 (get_or m.buffer 0 0)

-- The mouse after one packet of the device.
abbrev after : Packet → Mouse → Mouse
after p m = receive (p.flags ∷ (p.dx ∷ (p.dy ∷ []))) m

-- `q` is `m` after the packets `ps`: the horizontal movement is the sum of all, the vertical one that
-- of all but the pending one, and a click in any of them is kept.
pub record Moved (m : Mouse) (ps : List Packet) (q : Mouse) : Type 0 where
  pub aligned : IsAligned q
  pub x_sum : q.x_acc % u32_mod ≡ (m.x_acc + total_dx ps) % u32_mod
  pub y_sum : (q.y_acc + pending m + total_dy ps) % u32_mod ≡ (m.y_acc + pending q) % u32_mod
  pub left : q.left_click ≡ (any_left ps || m.left_click)
  pub right : q.right_click ≡ (any_right ps || m.right_click)

pressed : (b c : Bool) → (if b then true else c) ≡ (b || false || c)
pressed true c = refl
pressed false c = refl

pressed_twice : (b any c : Bool) {d : Bool} → d ≡ (b || false || c) → (any || d) ≡ (b || any || c)
pressed_twice true true c e = refl
pressed_twice true false c e = e
pressed_twice false true c e = refl
pressed_twice false false c e = e

after-Moved : (p : Packet) (m : Mouse) → IsAligned m → Moved m (p ∷ []) (after p m)
unfolding receive handle_mouse_interrupt take_packet set get_or
after-Moved p m h =
    simp (h.buffered, h.one_byte)
      (record {
        aligned = record {
          first = p.dy;
          second = p.flags;
          third = p.dx;
          first_byte = p.dy_byte;
          buffered = refl;
          one_byte = refl;
        };
        x_sum = omega arith;
        y_sum = ground (arith, h.first_byte);
        left = pressed (p.flags % 2 == 1) m.left_click;
        right = pressed (p.flags / 2 % 2 == 1) m.right_click;
      })

-- After one byte of three, whatever packets the device sends: the handler is again after one byte, the
-- horizontal accumulator has moved by the sum of all dx, the vertical one against the sum of the dy
-- up to the one that is still in the buffer, modulo 2^32, and each click is kept.
pub receive-Moved :
    (ps : List Packet) (m : Mouse) → IsAligned m → Moved m ps (receive (stream ps) m)
unfolding receive
receive-Moved [] m h = record {
  aligned = h;
  x_sum = omega arith;
  y_sum = omega arith;
  left = refl;
  right = refl;
}
receive-Moved (p ∷ ps) m h =
    let one = after-Moved p m h in
    let rest = receive-Moved ps (after p m) one.aligned in
    record {
      aligned = rest.aligned;
      x_sum = omega (arith, one.x_sum, rest.x_sum);
      y_sum = omega (arith, one.y_sum, rest.y_sum);
      left = rest.left ∙ pressed_twice (p.flags % 2 == 1) (any_left ps) m.left_click one.left;
      right =
          rest.right ∙ pressed_twice (p.flags / 2 % 2 == 1) (any_right ps) m.right_click one.right;
    }
