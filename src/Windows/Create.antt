-- ===== src/Windows/Create.antt =====
-- kernel/windows.c: a new window keeps the table and the order together.
use quad_os.Base.{
  ℕ, suc, ◌+◌, ◌-◌, ◌%◌, ◌^◌, ◌<◌, ◌≡◌, ◌≢◌, refl, sym, ap, ◌∙◌, subst, true, false, List, [], ◌∷◌,
  ◌++◌, ◌==◌, ==_iff, Bool-cases, inl, inr, length, length-append, set, length-set, get_or-set_self,
  get_or-set_ne, Delivers, Delivers-bind, Delivers-stop, ◌⊎◌, Returns→Delivers, kernel_assert,
  arith,
}
use quad_os.Windows.{
  Window, Desktop, SharedMem, max_windows, window_at, zero_window, new_window, find_window_slot,
  move_window_to_front, create_window,
}
use quad_os.Windows.Order.{Holds, in_order, move_window_to_front_lem}
use quad_os.Windows.Slots.{
  All-snoc, erase_last, find_window_slot-FirstFree, in_order_last, live_count-free, live_count-set,
  new_window-size, new_window-state, occurrences, occurrences-none, same_offset, set_end,
}
use quad_os.Windows.Life.{IsDesktop}

module _ (Shm : SharedMem) where
  open Shm use {State, Exhausted, create, map, destroy, create_steady, map_steady, destroy_steady}

  -- What `create_window` has done when it returns `id`.
  pub record Created (width height flags task : ℕ) (d : Desktop State) (zs : List ℕ) (id : ℕ)
      (d' : Desktop State) : Type 0 where
    pub desktop : IsDesktop d' (id ∷ zs)
    pub fresh : (in_order id zs ≡ false) × (id < max_windows)
    pub lowest : (j : ℕ) → j < id → (window_at d.windows j).state ≢ 0
    pub others : (j : ℕ) → j ≢ id → window_at d'.windows j ≡ window_at d.windows j
    pub size :
        ((window_at d'.windows id).width ≡ width % 2 ^ 16)
        × ((window_at d'.windows id).height ≡ height % 2 ^ 16)
        × ((window_at d'.windows id).flags ≡ flags)
        × ((window_at d'.windows id).owner_task_id ≡ task)
    pub focus : d'.focused_window ≡ id

  in_order-new :
      (id : ℕ) (d : Desktop State) (zs : List ℕ)
      → IsDesktop d zs
      → id < max_windows
      → (window_at d.windows id).state ≡ 0
      → (in_order id zs ≡ false) × (length zs < max_windows)
  in_order-new id d zs v small free = (
    ground (arith, v.live id small, free),
    omega (arith, v.counted, v.table, live_count-free d.windows id free (omega (arith, v.table))),
  )

  Holds-appended :
      (w : ℕ) (d d' : Desktop State) (zs : List ℕ)
      → Holds d zs
      → length zs < max_windows
      → w < max_windows
      → d'.window_z_order ≡ set d.window_z_order d.z_order_length w
      → d'.z_order_length ≡ d.z_order_length + 1
      → Holds d' (zs ++ (w ∷ []))
  Holds-appended w d d' zs v room small e c = record {
    entries =
        let split : max_windows - length zs ≡ suc (max_windows - length (zs ++ (w ∷ []))) =
          omega (arith, length-append {0} zs (w ∷ [])) in
        rw (e, v.entries, v.count, split) (set_end zs (max_windows - length (zs ++ (w ∷ []))) w);
    count = omega (arith, c, v.count, length-append {0} zs (w ∷ []));
    fits = omega (arith, room, length-append {0} zs (w ∷ []));
    ids = All-snoc zs w v.ids small;
  }

  IsDesktop-added :
      (id : ℕ) (w : Window) (d d' : Desktop State) (zs : List ℕ)
      → IsDesktop d zs
      → (in_order id zs ≡ false) × (length zs < max_windows)
      → id < max_windows
      → (window_at d.windows id).state ≡ 0
      → w.state ≡ 1
      → d'.windows ≡ set d.windows id w
      → Holds d' (id ∷ zs)
      → IsDesktop d' (id ∷ zs)
  unfolding in_order occurrences
  IsDesktop-added id w d d' zs v new small free live e holds = record {
    holds = holds;
    table = rw e (length-set d.windows id w ∙ v.table);
    counted = rw e (ground (arith, v.counted, v.table, live, free, live_count-set d.windows id w));
    live = λ j lt. rw e (elim (Bool-cases (id == j)) [
      | inl same ↦
          let same' = (==_iff id j).0 same in
          rw (← same', get_or-set_self d.windows id w zero_window (omega (arith, v.table)))
            (ground (arith, live))
      | inr ne ↦
          let ne' : id ≢ j = ground arith in
          rw (get_or-set_ne d.windows id j w zero_window ne', ne) (v.live j lt)
    ]);
    once = λ j. elim (Bool-cases (id == j)) [
      | inl same ↦ ground (arith, occurrences-none id zs new.0, (==_iff id j).0 same)
      | inr ne ↦ ground (arith, v.once j)
    ];
  }

  -- `create_window` of any size, from a valid desktop, takes the first free slot, puts the new window
  -- in front of all others, and focuses it; the machine stops only if all slots are in use or shared
  -- memory stops it.
  pub create_window-Created :
      (task width height flags : ℕ) (d : Desktop State) (zs : List ℕ)
      → IsDesktop d zs
      → Delivers
          (Exhausted ⊎ (length zs ≡ max_windows))
          (create_window Shm task width height flags d)
          (λ r. Created width height flags task d zs r.0 r.1)
  unfolding create_window
  create_window-Created task width height flags d zs v =
      Delivers-bind _ (find_window_slot d.windows) _ _ _
        (Delivers-stop _ _ (find_window_slot d.windows) _
          (λ full. inr (omega (arith, full, v.counted, v.table)))
          (find_window_slot-FirstFree d.windows))
        (λ index f.
          let small : index < max_windows = omega (arith, f.index, f.inside, v.table) in
          let free : (window_at d.windows index).state ≡ 0 =
            ap (λ (t : ℕ). (window_at d.windows t).state) (same_offset d.windows index f)
            ∙ f.free in
          let new = in_order-new index d zs v small free in
          let checked : ((window_at d.windows index).state == 0) ≡ true = ground arith in
          rw (checked, kernel_assert)
            (Delivers-bind _ (create _ 0 d.shared) _ _ _
              (Delivers-stop _ _ (create _ 0 d.shared) _ (λ e. inl e) (create_steady _ 0 d.shared))
              (λ r₁ _.
                Delivers-bind _ (map _ 0 r₁.1) _ _ _
                  (Delivers-stop _ _ (map _ 0 r₁.1) _ (λ e. inl e) (map_steady _ 0 r₁.1))
                  (λ r₂ _.
                    let w = new_window index width height flags r₁.0 r₂.0 task in
                    let d' : Desktop State = record d {
                      windows = set d.windows index w;
                      window_z_order = set d.window_z_order d.z_order_length index;
                      z_order_length = d.z_order_length + 1;
                      shared = r₂.1;
                    } in
                    let holds : Holds d' (zs ++ (index ∷ [])) =
                      Holds-appended index d d' zs v.holds new.1 small refl refl in
                    Delivers-bind _ (move_window_to_front index d') _ _ _
                      (Returns→Delivers _ (move_window_to_front index d') _ (
                        move_window_to_front_lem index d' (zs ++ (index ∷ [])) holds
                          (in_order_last index zs)))
                      (λ d'' m.
                        let ordered : Holds d'' (index ∷ zs) =
                          subst (λ (l : List ℕ). Holds d'' (index ∷ l)) (erase_last index zs new.0)
                            m.0 in
                        record {
                          desktop =
                              IsDesktop-added index w d _ zs v new small free
                                (new_window-state index width height flags r₁.0 r₂.0 task) m.1
                                (record {
                                  entries = ordered.entries;
                                  count = ordered.count;
                                  fits = ordered.fits;
                                  ids = ordered.ids;
                                });
                          fresh = (new.0, small);
                          lowest =
                              λ j lt. f.lowest j (omega (arith, same_offset d.windows index f));
                          others = λ j ne.
                              rw m.1
                                (get_or-set_ne d.windows index j w zero_window (λ e. ne (sym e)));
                          size =
                              rw
                                (
                                  m.1,
                                  get_or-set_self d.windows index w zero_window
                                      (omega (arith, v.table)),
                                )
                                (new_window-size index width height flags r₁.0 r₂.0 task);
                          focus = refl;
                        })))))
