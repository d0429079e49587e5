-- ===== src/Mouse/Examples.antt =====
-- kernel/driver/mouse.c: a run from the start. The first byte is the answer 0xfa to the command
-- that makes the device send packets.
use quad_os.Base.{◌≡◌, refl, false, List, [], ◌∷◌, set, replicate, get_or, arith}
use quad_os.Mouse.{Mouse, init_mouse, handle_mouse_interrupt, receive}
use quad_os.Mouse.Packets.{Packet, stream, IsAligned, Moved, receive-Moved}

abbrev unset : Mouse
unset = record {
  x_acc = 0;
  y_acc = 0;
  left_button = false;
  right_button = false;
  buffer = [];
  buffer_index = 0;
  left_click = false;
  right_click = false;
}

abbrev answered : Mouse
answered = handle_mouse_interrupt 0xfa (init_mouse unset)

answered-IsAligned : IsAligned answered
unfolding handle_mouse_interrupt init_mouse set replicate
answered-IsAligned = record {
  first = 0xfa;
  second = 0;
  third = 0;
  first_byte = omega arith;
  buffered = refl;
  one_byte = refl;
}

-- Five to the right and two up with the left button down, then one to the left.
abbrev packets : List Packet
packets =
    record { flags = 9; dx = 5; dy = 2; dy_byte = omega arith }
    ∷ (record { flags = 24; dx = 255; dy = 0; dy_byte = omega arith } ∷ [])

receive-x : (receive (stream packets) answered).x_acc ≡ 4
unfolding receive handle_mouse_interrupt init_mouse set replicate get_or
receive-x = refl

-- The answer counts as a movement of six down.
receive-y : (receive (stream packets) answered).y_acc ≡ 4
unfolding receive handle_mouse_interrupt init_mouse set replicate get_or
receive-y = refl

receive-Moved_example : Moved answered packets (receive (stream packets) answered)
receive-Moved_example = receive-Moved packets answered answered-IsAligned
