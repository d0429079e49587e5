-- ===== src/Windows/Title.antt =====
-- kernel/windows.c: the title that a task gives its window.
use quad_os.Base.{
  ℕ, ◌-◌, ◌<◌, ◌≡◌, sym, false, ◌∙◌, refl, ap, List, if◌then◌else◌, ltb, leb, ◌&&◌, get_or, set,
  get_or-set_self, get_or-replicate, replicate, length, length-replicate, Returns, arith,
}
use quad_os.Util.{strncpy}
use quad_os.Util.Strings.{HasLength, strncpy_lem}
use quad_os.Windows.{
  Window, Desktop, get_window, window_at, set_title, max_windows, window_title_max_length,
  zero_window,
}

-- The text of a window after `set_title`: at most 63 bytes of the string, then bytes 0.
pub title-text :
    (title : List ℕ) (len j : ℕ)
    → HasLength title len
    → get_or (strncpy (replicate window_title_max_length 0) title (window_title_max_length - 1)) j 0
      ≡ (if ltb j 63 && ltb j len then get_or title j 0 else 0)
title-text title len j h =
    strncpy_lem 63 len j (replicate 64 0) title h (omega (arith, length-replicate {0} {A = ℕ} 64 0))
    ∙ ground (arith, get_or-replicate {0} {A = ℕ} 64 j 0)

module _ {S : Type 0} where
  -- Giving a window of the table a title returns; the title then is the string's first 63 bytes and
  -- is ended by a byte 0; nothing else of the table changes, and the order stays.
  pub set_title_lem :
      (id len : ℕ) (title : List ℕ) (d : Desktop S)
      → id < max_windows
      → length d.windows ≡ max_windows
      → HasLength title len
      → Returns (set_title id title d) (λ d'.
        ((j : ℕ)
          → get_or (window_at d'.windows id).title j 0
            ≡ (if ltb j 63 && ltb j len then get_or title j 0 else 0))
        × (d'.windows
            ≡ set d.windows id
                (record (window_at d.windows id) { title = (window_at d'.windows id).title }))
        × (d'.window_z_order ≡ d.window_z_order))
  unfolding set_title get_window
  set_title_lem id len title d small table h =
      let inside : leb max_windows id ≡ false = ground arith in
      let text =
        strncpy (replicate window_title_max_length 0) title (window_title_max_length - 1) in
      let w = record (window_at d.windows id) { title = text } in
      let here : window_at (set d.windows id w) id ≡ w =
        get_or-set_self d.windows id w zero_window (omega (arith, table)) in
      let titled : (window_at (set d.windows id w) id).title ≡ text =
        ap (λ (v : Window). v.title) here in
      rw (inside, Returns)
        (
          λ j. ap (λ (t : List ℕ). get_or t j 0) titled ∙ title-text title len j h,
          ap (λ (t : List ℕ). set d.windows id (record (window_at d.windows id) { title = t }))
              (sym titled),
          refl,
        )
