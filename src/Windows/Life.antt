-- ===== src/Windows/Life.antt =====
-- kernel/windows.c: the table and the order stay together as windows end.
use quad_os.Base.{
  ℕ, ◌-◌, ◌≤◌, ◌<◌, ◌≡◌, ◌≢◌, refl, sym, ap, ◌∙◌, true, not, List, [], ◌==◌, ==_iff, Bool-cases,
  inl, inr, length, length-replicate, get_or-replicate, set, length-set, get_or-set_self,
  get_or-set_ne, replicate, Delivers, Delivers-bind, arith,
}
use quad_os.Windows.{
  Desktop, SharedMem, max_windows, no_window, window_at, zero_window, z_order_remove_at,
  destroy_window, init_windows,
}
use quad_os.Windows.Order.{
  Holds, in_order, in_order-append, erase, find-some, z_order_remove_at_lem, length-erase,
}
use quad_os.Windows.Slots.{
  in_order-erase, in_order-occurrences, live_count, live_count-replicate, live_count-set,
  occurrences, occurrences-erase, zero_window-state,
}

-- The invariant: the order holds each window in use, once.
pub record IsDesktop {S : Type 0} (d : Desktop S) (zs : List ℕ) : Type 0 where
  pub holds : Holds d zs
  pub table : length d.windows ≡ max_windows
  pub counted : length zs ≡ live_count d.windows
  pub live :
      (id : ℕ) → id < max_windows → in_order id zs ≡ not ((window_at d.windows id).state == 0)
  pub once : (id : ℕ) → occurrences id zs ≤ 1

module _ (Shm : SharedMem) where
  open Shm use {State, Exhausted, create, map, destroy, create_steady, map_steady, destroy_steady}

  -- Without the window `id`: its slot is empty and the order does not hold it.
  IsDesktop-erased :
      (id : ℕ) (d d' : Desktop State) (zs : List ℕ)
      → IsDesktop d zs
      → in_order id zs ≡ true
      → id < max_windows
      → d'.windows ≡ set d.windows id zero_window
      → Holds d' (erase id zs)
      → IsDesktop d' (erase id zs)
  unfolding zero_window
  IsDesktop-erased id d d' zs v h small e holds = record {
    holds = holds;
    table = rw e (length-set d.windows id zero_window ∙ v.table);
    counted = rw e (
        ground (
          arith,
          v.counted,
          v.table,
          v.live id,
          live_count-set d.windows id zero_window,
          length-erase id zs h,
        ));
    live = λ j lt. rw e (elim (Bool-cases (id == j)) [
      | inl same ↦
          let same' = (==_iff id j).0 same in
          rw
            (← same', get_or-set_self d.windows id zero_window zero_window (omega (arith, v.table)))
            (in_order-occurrences id (erase id zs)
              (ground (arith, occurrences-erase id id zs, v.once id)))
      | inr ne ↦
          let ne' : id ≢ j = ground arith in
          rw (get_or-set_ne d.windows id j zero_window zero_window ne')
            (in_order-erase id j zs ne' ∙ v.live j lt)
    ]);
    once = λ j. omega (arith, occurrences-erase id j zs, v.once j);
  }

  -- On any state whose order is empty, `init_windows` leaves a valid desktop without windows.
  pub init_windows-IsDesktop :
      (d : Desktop State) → d.z_order_length ≡ 0 → IsDesktop (init_windows d) []
  unfolding init_windows in_order occurrences
  init_windows-IsDesktop d empty = record {
    holds = record { entries = refl; count = empty; fits = omega arith; ids = tt };
    table = length-replicate {0} max_windows zero_window;
    counted = sym (live_count-replicate max_windows);
    live = λ id lt.
        let blank : window_at (replicate max_windows zero_window) id ≡ zero_window =
          get_or-replicate max_windows id zero_window in
        rw blank (sym (ap not zero_window-state));
    once = λ id. omega arith;
  }

  -- Destroying a window of the order empties its slot and takes it out of the order; the others keep
  -- theirs, and the focus is not moved. (With all 64 slots in use the array is read past its end, so
  -- that case is left out.)
  pub destroy_window-IsDesktop :
      (id : ℕ) (d : Desktop State) (zs : List ℕ)
      → IsDesktop d zs
      → in_order id zs ≡ true
      → id < max_windows
      → length zs < max_windows
      → Delivers Exhausted (destroy_window Shm id d) (λ d'.
        IsDesktop d' (erase id zs)
        × (d'.windows ≡ set d.windows id zero_window)
        × (d'.focused_window ≡ d.focused_window))
  unfolding destroy_window z_order_remove_at
  destroy_window-IsDesktop id d zs v h small room =
      Delivers-bind _ (destroy (window_at d.windows id).fb_shmem_id d.shared) _ (λ _. Unit) _
        (destroy_steady _ d.shared)
        (λ s _.
          let there : in_order id d.window_z_order ≡ true =
            rw v.holds.entries
              (in_order-append id zs (replicate (max_windows - length zs) no_window) h) in
          let (k, found) = find-some id d.window_z_order there in
          let taken = z_order_remove_at_lem id k d zs v.holds room h found in
          rw found (
            IsDesktop-erased id d _ zs v h small refl (record {
              entries = taken.entries;
              count = taken.count;
              fits = taken.fits;
              ids = taken.ids;
            }),
            refl,
            refl,
          ))
