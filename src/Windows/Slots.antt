-- ===== src/Windows/Slots.antt =====
-- kernel/windows.c: the slots in use, and the free one that a new window takes.
use quad_os.Base.{
  ℕ, zero, suc, ◌+◌, ◌-◌, ◌%◌, ◌^◌, ◌≤◌, ◌<◌, ◌≡◌, ◌≢◌, refl, ap, true, false, List, [], ◌∷◌, ◌++◌,
  none, some, ◌==◌, if◌then◌else◌, Bool-cases, Option-cases, inl, inr, length, set, replicate, All,
  Delivers, arith,
}
use quad_os.Windows.{
  Window, max_windows, no_window, window_at, zero_window, new_window, find_slot_from,
  find_window_slot,
}
use quad_os.Windows.Order.{in_order, erase}

-- How many windows of a table are in use.
unfoldable pub live_count : List Window → ℕ
live_count [] = 0
live_count (w ∷ ws) = (if w.state == 0 then 0 else 1) + live_count ws

unfoldable pub occurrences : ℕ → List ℕ → ℕ
occurrences w [] = 0
occurrences w (z ∷ zs) = (if z == w then 1 else 0) + occurrences w zs

pub live_count-set :
    (ws : List Window) (i : ℕ) (w : Window)
    → i < length ws
    → live_count (set ws i w) + (if (window_at ws i).state == 0 then 0 else 1)
      ≡ live_count ws + (if w.state == 0 then 0 else 1)
unfolding live_count
live_count-set [] i w h = elim h [ ]
live_count-set (x ∷ xs) zero w h = omega arith
live_count-set (x ∷ xs) (suc i) w h = omega (arith, live_count-set xs i w)

live_count-le : (ws : List Window) → live_count ws ≤ length ws
unfolding live_count
live_count-le [] = omega arith
live_count-le (w ∷ ws) = ground (arith, live_count-le ws)

-- The first free slot.
pub record FirstFree (ws : List Window) (i k : ℕ) : Type 0 where
  pub offset : ℕ
  pub index : k ≡ i + offset
  pub inside : offset < length ws
  pub free : (window_at ws offset).state ≡ 0
  pub lowest : (j : ℕ) → j < offset → (window_at ws j).state ≢ 0

find_slot_from-FirstFree :
    (i : ℕ) (ws : List Window) (k : ℕ) → find_slot_from i ws ≡ some k → FirstFree ws i k
unfolding find_slot_from
find_slot_from-FirstFree i [] k h = absurd (cc h)
find_slot_from-FirstFree i (w ∷ ws) k h = elim (Bool-cases (w.state == 0)) [
  | inl e ↦ record {
    offset = 0;
    index = ground arith;
    inside = omega arith;
    free = ground arith;
    lowest = λ j lt. absurd (omega arith);
  }
  | inr ne ↦
      let f = find_slot_from-FirstFree (i + 1) ws k (rw ne at h) in
      record {
        offset = suc f.offset;
        index = omega (arith, f.index);
        inside = omega (arith, f.inside);
        free = f.free;
        lowest = λ j lt. lower w ws f.offset j ne f.lowest lt;
      }
]
  where
    lower :
        (w : Window) (ws : List Window) (n j : ℕ)
        → (w.state == 0) ≡ false
        → ((j : ℕ) → j < n → (window_at ws j).state ≢ 0)
        → j < suc n
        → (window_at (w ∷ ws) j).state ≢ 0
    lower w ws n zero ne below lt = ground arith
    lower w ws n (suc j) ne below lt = below j (omega arith)

pub in_order-erase : (w id : ℕ) (zs : List ℕ) → w ≢ id → in_order id (erase w zs) ≡ in_order id zs
unfolding in_order erase
in_order-erase w id [] ne = refl
in_order-erase w id (z ∷ zs) ne = ground (arith, in_order-erase w id zs)

pub in_order-occurrences : (w : ℕ) (zs : List ℕ) → occurrences w zs ≡ 0 → in_order w zs ≡ false
unfolding in_order occurrences
in_order-occurrences w [] h = refl
in_order-occurrences w (z ∷ zs) h = ground (arith, in_order-occurrences w zs)

pub occurrences-none : (w : ℕ) (zs : List ℕ) → in_order w zs ≡ false → occurrences w zs ≡ 0
unfolding in_order occurrences
occurrences-none w [] h = refl
occurrences-none w (z ∷ zs) h = ground (arith, occurrences-none w zs)

pub occurrences-erase :
    (w id : ℕ) (zs : List ℕ)
    → occurrences id (erase w zs) ≡ occurrences id zs - (if w == id then 1 else 0)
unfolding occurrences erase
occurrences-erase w id [] = ground arith
occurrences-erase w id (z ∷ zs) = ground (arith, occurrences-erase w id zs)

pub zero_window-state : (zero_window.state == 0) ≡ true
unfolding zero_window
zero_window-state = refl

pub live_count-replicate : (n : ℕ) → live_count (replicate n zero_window) ≡ 0
unfolding live_count replicate
live_count-replicate zero = refl
live_count-replicate (suc n) = ground (arith, live_count-replicate n, zero_window-state)

find_slot_from-none :
    (i : ℕ) (ws : List Window) → find_slot_from i ws ≡ none → live_count ws ≡ length ws
unfolding find_slot_from live_count
find_slot_from-none i [] h = refl
find_slot_from-none i (w ∷ ws) h = ground (arith, find_slot_from-none (i + 1) ws)

pub find_window_slot-FirstFree :
    (ws : List Window)
    → Delivers (live_count ws ≡ length ws) (find_window_slot ws) (λ k. FirstFree ws 0 k)
unfolding find_window_slot
find_window_slot-FirstFree ws = elim (Option-cases (find_slot_from 0 ws)) [
  | inl e ↦ rw (e, find_window_slot) (find_slot_from-none 0 ws e)
  | inr (k, e) ↦ rw (e, find_window_slot) (find_slot_from-FirstFree 0 ws k e)
]

pub in_order_last : (w : ℕ) (zs : List ℕ) → in_order w (zs ++ (w ∷ [])) ≡ true
unfolding in_order
in_order_last w [] = ground arith
in_order_last w (z ∷ zs) = ground (arith, in_order_last w zs)

pub erase_last : (w : ℕ) (zs : List ℕ) → in_order w zs ≡ false → erase w (zs ++ (w ∷ [])) ≡ zs
unfolding in_order erase
erase_last w [] h = ground arith
erase_last w (z ∷ zs) h = ground (arith, erase_last w zs)

pub set_end :
    (zs : List ℕ) (n w : ℕ)
    → set (zs ++ replicate (suc n) no_window) (length zs) w
      ≡ (zs ++ (w ∷ [])) ++ replicate n no_window
unfolding replicate
set_end [] n w = refl
set_end (z ∷ zs) n w = ap (λ r. z ∷ r) (set_end zs n w)

pub same_offset : (ws : List Window) (k : ℕ) (f : FirstFree ws 0 k) → k ≡ f.offset
same_offset ws k f = omega (arith, f.index)

pub new_window-state :
    (index width height flags fb_id framebuffer task : ℕ)
    → (new_window index width height flags fb_id framebuffer task).state ≡ 1
unfolding new_window
new_window-state index width height flags fb_id framebuffer task = refl

pub new_window-size :
    (index width height flags fb_id framebuffer task : ℕ)
    → let w = new_window index width height flags fb_id framebuffer task in
      (w.width ≡ width % 2 ^ 16)
      × (w.height ≡ height % 2 ^ 16)
      × (w.flags ≡ flags)
      × (w.owner_task_id ≡ task)
unfolding new_window
new_window-size index width height flags fb_id framebuffer task = (refl, refl, refl, refl)

pub All-snoc :
    (zs : List ℕ) (w : ℕ)
    → All (λ z. z < max_windows) zs
    → w < max_windows
    → All (λ z. z < max_windows) (zs ++ (w ∷ []))
All-snoc [] w v h = (h, tt)
All-snoc (z ∷ zs) w v h = (v.0, All-snoc zs w v.1 h)

pub live_count-free :
    (ws : List Window) (i : ℕ)
    → (window_at ws i).state ≡ 0
    → i < length ws
    → live_count ws < length ws
unfolding live_count
live_count-free [] i free lt = elim lt [ ]
live_count-free (w ∷ ws) zero free lt = ground (arith, live_count-le ws)
live_count-free (w ∷ ws) (suc i) free lt = ground (arith, live_count-free ws i)
