-- ===== src/Windows.antt =====
-- kernel/windows.c: the table of windows and their order from front to back.
pub mod Order
pub mod Slots
pub mod Life
pub mod Create
pub mod Hit
pub mod Title
mod Examples
use quad_os.Base.{
  ℕ, zero, suc, ◌+◌, ◌-◌, ◌*◌, ◌/◌, ◌%◌, ◌^◌, Bool, true, false, not, ◌&&◌, List, [], ◌∷◌, Option,
  none, some, ◌==◌, ltb, leb, if◌then◌else◌, length, get_or, set, replicate, take, shift_left,
  shift_right, add32, mul32, bit_xor, ℤ, pos, ◌+ℤ◌, ◌-ℤ◌, ltb_ℤ, signed16, signed32, Outcome, ok,
  panic, ◌>>=◌, ◌>>◌, kernel_assert, Delivers,
}
use quad_os.Util.{strncpy}

-- A signed field is its bit pattern: 16 bits, or 32 for task ids.
pub record Window : Type 0 where
  pub state : ℕ
  pub x : ℕ
  pub y : ℕ
  pub width : ℕ
  pub height : ℕ
  pub flags : ℕ
  pub actual_width : ℕ
  pub actual_height : ℕ
  pub framebuffer : ℕ
  pub framebuffer_size_bytes : ℕ
  pub fb_shmem_id : ℕ
  pub shown_buffer : ℕ
  pub title : List ℕ
  pub owner_task_id : ℕ

abbrev pub max_windows : ℕ
max_windows = 64

abbrev pub window_title_bar_height : ℕ
window_title_bar_height = 20

abbrev pub window_title_max_length : ℕ
window_title_max_length = 64

-- The `int32_t` -1, the id of no window.
abbrev pub no_window : ℕ
no_window = 0xffff_ffff

-- What `memset(w, 0, sizeof(Window))` leaves.
unfoldable pub zero_window : Window
zero_window = record {
  state = 0;
  x = 0;
  y = 0;
  width = 0;
  height = 0;
  flags = 0;
  actual_width = 0;
  actual_height = 0;
  framebuffer = 0;
  framebuffer_size_bytes = 0;
  fb_shmem_id = 0;
  shown_buffer = 0;
  title = replicate window_title_max_length 0;
  owner_task_id = 0;
}

-- "Cool Titles!"
abbrev default_title : List ℕ
default_title =
    b'C'
    ∷ (b'o'
        ∷ (b'o'
            ∷ (b'l'
                ∷ (b' '
                    ∷ (b'T' ∷ (b'i' ∷ (b't' ∷ (b'l' ∷ (b'e' ∷ (b's' ∷ (b'!' ∷ (0 ∷ []))))))))))))

-- The shared memory that framebuffers live in (kernel/sharedmem.c): objects by id, which a task (or
-- the kernel, as task 0) maps to an address. No operation loops for ever; each may stop the machine,
-- and then `Exhausted` holds.
pub record SharedMem : Type 1 where
  pub State : Type 0
  pub Exhausted : Type 0
  pub create : ℕ → ℕ → State → Outcome (ℕ × State)
  pub map : ℕ → ℕ → State → Outcome (ℕ × State)
  pub destroy : ℕ → State → Outcome State
  pub create_steady :
      (size task : ℕ) (s : State) → Delivers Exhausted (create size task s) (λ _. Unit)
  pub map_steady : (id task : ℕ) (s : State) → Delivers Exhausted (map id task s) (λ _. Unit)
  pub destroy_steady : (id : ℕ) (s : State) → Delivers Exhausted (destroy id s) (λ _. Unit)

pub record Desktop (S : Type 0) : Type 0 where
  pub windows : List Window
  pub window_z_order : List ℕ
  pub z_order_length : ℕ
  pub focused_window : ℕ
  pub needs_redraw : Bool
  pub shared : S

-- A read past the table gives an empty window; `get_window` gives none.
abbrev pub window_at : List Window → ℕ → Window
window_at ws id = get_or ws id zero_window

-- `id < 0 || id >= MAX_WINDOWS` on the bit pattern of an `int32_t`
unfoldable pub get_window : List Window → ℕ → Option Window
get_window ws id = if leb max_windows id then none else some (window_at ws id)

unfoldable pub get_focused_window : List Window → ℕ → Option Window
get_focused_window ws focused = if focused == no_window then none else some (window_at ws focused)

-- The first slot with state 0, from the slot `i` on.
unfoldable pub find_slot_from : ℕ → List Window → Option ℕ
find_slot_from i [] = none
find_slot_from i (w ∷ ws) =
    let rest = find_slot_from (i + 1) ws in if w.state == 0 then some i else rest

unfoldable pub find_window_slot : List Window → Outcome ℕ
unfolding find_slot_from
find_window_slot ws = elim (find_slot_from 0 ws) [ none ↦ panic | some i ↦ ok i ]

unfoldable pub find_index_from : ℕ → List ℕ → ℕ → Option ℕ
find_index_from i [] window = none
find_index_from i (z ∷ zs) window =
    let rest = find_index_from (i + 1) zs window in if z == window then some i else rest

unfoldable pub z_order_find_index : List ℕ → ℕ → Option ℕ
z_order_find_index z_order window = find_index_from 0 z_order window

unfoldable pub framebuffer_bytes : ℕ → ℕ → ℕ
framebuffer_bytes width height = mul32 (mul32 width height) 4

-- `flags & WINDOW_FLAG_DOUBLE_BUFFERED`
abbrev pub double_buffered : ℕ → Bool
double_buffered flags = flags / 2 % 2 == 1

module _ {S : Type 0} where
  -- The boot state has `focused_window` -1 and an empty order from the static initialisers.
  unfoldable pub init_windows : Desktop S → Desktop S
  unfolding zero_window replicate
  init_windows d = record d {
    windows = replicate max_windows zero_window;
    window_z_order = replicate max_windows no_window;
  }

  -- `memset` of the title and `strncpy` of all but its last byte.
  unfoldable pub set_title : ℕ → List ℕ → Desktop S → Outcome (Desktop S)
  unfolding strncpy
  set_title id title d = elim (get_window d.windows id) [
    | none ↦ panic
    | some w ↦ ok (record d {
      windows = set d.windows id (record w {
        title = strncpy (replicate window_title_max_length 0) title (window_title_max_length - 1);
      });
    })
  ]

  unfoldable pub get_framebuffer_shmem_id : ℕ → Desktop S → ℕ
  get_framebuffer_shmem_id id d = (window_at d.windows id).fb_shmem_id

  unfoldable pub z_order_remove_at : ℕ → Desktop S → Desktop S
  z_order_remove_at z_index d = record d {
    window_z_order = shift_left no_window z_index (d.z_order_length - z_index) d.window_z_order;
    z_order_length = d.z_order_length - 1;
  }

  unfoldable pub move_window_to_front : ℕ → Desktop S → Outcome (Desktop S)
  unfolding kernel_assert
  move_window_to_front window d =
      let moved = do
        kernel_assert (ltb window max_windows)
        elim (z_order_find_index d.window_z_order window) [
          | none ↦ panic
          | some index ↦ ok (record d {
            window_z_order = set (shift_right no_window index d.window_z_order) 0 window;
          })
        ]
      in if get_or d.window_z_order 0 no_window == window then ok d else moved

-- The window that `create_window` writes into its slot; widths and heights are cut to 16 bits.
unfoldable pub new_window : ℕ → ℕ → ℕ → ℕ → ℕ → ℕ → ℕ → Window
new_window index width height flags fb_id framebuffer task_id = record {
  state = 1;
  x = (30 + index * 40) % 2 ^ 16;
  y = (50 + index * 35) % 2 ^ 16;
  width = width % 2 ^ 16;
  height = height % 2 ^ 16;
  flags = flags;
  actual_width = (width + 2) % 2 ^ 16;
  actual_height = (height + window_title_bar_height + 1) % 2 ^ 16;
  framebuffer = framebuffer;
  framebuffer_size_bytes = framebuffer_bytes width height;
  fb_shmem_id = fb_id % 2 ^ 16;
  shown_buffer = 0;
  title = strncpy zero_window.title default_title window_title_max_length;
  owner_task_id = task_id;
}

module _ (Shm : SharedMem) where
  open Shm use {State, create, map, destroy}

  -- `task_id` is that of the calling task. The `int16_t` field holds the id that is then mapped.
  unfoldable pub create_window : ℕ → ℕ → ℕ → ℕ → Desktop State → Outcome (ℕ × Desktop State)
  unfolding kernel_assert
  create_window task_id width height flags d = do
    index ← find_window_slot d.windows
    kernel_assert ((window_at d.windows index).state == 0)
    let bytes = mul32 (framebuffer_bytes width height) (if double_buffered flags then 2 else 1)
    (fb_id, s₁) ← create bytes 0 d.shared
    (framebuffer, s₂) ← map (fb_id % 2 ^ 16) 0 s₁
    let d' = record d {
      windows = set d.windows index (new_window index width height flags fb_id framebuffer task_id);
      window_z_order = set d.window_z_order d.z_order_length index;
      z_order_length = d.z_order_length + 1;
      shared = s₂;
    }
    d'' ← move_window_to_front index d'
    ok (index, record d'' { focused_window = index; needs_redraw = true })

  unfoldable pub resize_window : ℕ → ℕ → ℕ → ℕ → Desktop State → Outcome (Desktop State)
  resize_window task_id id width height d = do
    let w = window_at d.windows id
    s₁ ← destroy w.fb_shmem_id d.shared
    let bytes = mul32 (framebuffer_bytes width height) (if double_buffered w.flags then 2 else 1)
    (fb_id, s₂) ← create bytes 0 s₁
    (framebuffer, s₃) ← map (fb_id % 2 ^ 16) 0 s₂
    (_, s₄) ← map (fb_id % 2 ^ 16) task_id s₃
    let w' = record w {
      width = width % 2 ^ 16;
      height = height % 2 ^ 16;
      actual_width = (width + 2) % 2 ^ 16;
      actual_height = (height + window_title_bar_height + 1) % 2 ^ 16;
      fb_shmem_id = fb_id % 2 ^ 16;
      framebuffer = framebuffer;
    }
    ok (record d { windows = set d.windows id w'; needs_redraw = true; shared = s₄ })

  unfoldable pub destroy_window : ℕ → Desktop State → Outcome (Desktop State)
  destroy_window id d = do
    s ← destroy (window_at d.windows id).fb_shmem_id d.shared
    let d' = record d { windows = set d.windows id zero_window; shared = s }
    let d'' : Desktop State = elim (z_order_find_index d'.window_z_order id) [
      | none ↦ d'
      | some index ↦ z_order_remove_at index d'
    ]
    ok (record d'' { needs_redraw = true })
