-- ===== src/Gui/Pointer.antt =====
-- kernel/gui.c: the pointer stays on the screen.
use quad_os.Base.{
  ℕ, ◌+◌, ◌-◌, ◌^◌, ◌≤◌, ◌<◌, ◌≡◌, inl, inr, true, false, Bool-cases, leb, if◌then◌else◌, add32, ℤ,
  pos, negsuc, pos_part, neg_part, ◌+ℤ◌, +ℤ_parts, ltb, signed32, arith,
}
use quad_os.Gui.{move_axis}

-- `c` is on an axis of `extent` pixels.
abbrev pub IsOnAxis : ℕ → ℕ → Type 0
IsOnAxis extent c = c < extent

-- `c` is the pixel of an axis of `extent` pixels that is nearest to `target`.
pub data Nearest (extent : ℕ) : ℤ → ℕ → Type 0 where
  same : {c : ℕ} → c < extent → Nearest extent (pos c) c
  first : {n : ℕ} → 0 < extent → Nearest extent (negsuc n) 0
  last : {n : ℕ} → {c : ℕ} → extent ≤ n → c + 1 ≡ extent → Nearest extent (pos n) c

module _ (extent : ℕ) (some_pixels : 0 < extent) (small : extent ≤ 2 ^ 31) where
  pub move_axis-inside : (cursor acc : ℕ) → move_axis extent cursor acc < extent
  unfolding move_axis
  move_axis-inside cursor acc = ground (arith, some_pixels, small)

  module _ (cursor acc : ℕ) (on : cursor < extent) (word : acc < 2 ^ 32) where
    moved_to :
        (m : ℕ)
        → add32 cursor acc ≡ m
        → m < 2 ^ 32
        → move_axis extent cursor acc
          ≡ (if ltb (2 ^ 31 - 1) m then 0 else if leb extent m then extent - 1 else m)
    unfolding move_axis
    moved_to m e h = simp e (ground (arith, some_pixels, small))

    settled :
        (target : ℤ)
        → pos_part target + neg_part (signed32 acc)
          ≡ neg_part target + cursor + pos_part (signed32 acc)
        → pos_part target < 2 ^ 31
        → Nearest extent target (move_axis extent cursor acc)
    settled (pos t) sum fits =
        let moved : add32 cursor acc ≡ t = ground (arith, sum, small) in
        let positive : ltb (2 ^ 31 - 1) t ≡ false = ground (arith, fits) in
        rw (moved_to t moved (omega arith), positive)
          (elim (Bool-cases (leb extent t)) [
            | inl e ↦ simp e (last (ground (arith, e)) (omega arith))
            | inr e ↦ simp e (same (ground (arith, e)))
          ])
    settled (negsuc n) sum fits =
        let moved : add32 cursor acc ≡ 2 ^ 32 - n - 1 = ground (arith, sum, small) in
        let negative : ltb (2 ^ 31 - 1) (2 ^ 32 - n - 1) ≡ true = ground (arith, sum, small) in
        rw (moved_to (2 ^ 32 - n - 1) moved (omega arith), negative) (first some_pixels)

    -- On an axis of 1 to 2^31 pixels, from a pixel of it and with a movement whose sum does not
    -- overflow, the pointer comes to the pixel of the axis that is nearest to that sum.
    pub move_axis-Nearest :
        pos_part (pos cursor +ℤ signed32 acc) < 2 ^ 31
        → Nearest extent (pos cursor +ℤ signed32 acc) (move_axis extent cursor acc)
    move_axis-Nearest fits =
        settled (pos cursor +ℤ signed32 acc) (omega (arith, +ℤ_parts (pos cursor) (signed32 acc)))
          fits
