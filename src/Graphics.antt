-- ===== src/Graphics.antt =====
-- sgfx/sgfx.c: rectangles of pixels, cut at the edges of the framebuffer.
pub mod Pixels
pub mod Fill
mod Examples
use quad_os.Base.{
  ℕ, zero, suc, ◌+◌, ◌%◌, ◌*◌, Bool, true, false, not, ◌||◌, ltb, leb, ◌==◌, if◌then◌else◌, add32,
  mul32, u32_mod, pos, pos_part, ltb_ℤ, signed32,
}

-- `ctx`; the framebuffer holds 32-bit pixels by their index.
pub record GraphicsContext : Type 0 where
  pub framebuffer : ℕ → ℕ
  pub width : ℕ
  pub height : ℕ

-- `c < 0 || c >= (int32_t) extent` on the bit pattern of an `int32_t`
abbrev pub outside : ℕ → ℕ → Bool
outside extent c = ltb_ℤ (signed32 c) (pos 0) || not (ltb_ℤ (signed32 c) (signed32 extent))

-- `_x + _y * ctx->width`
abbrev pub pixel_index : ℕ → ℕ → ℕ → ℕ
pixel_index width x y = add32 x (mul32 y width)

unfoldable pub put : ℕ → ℕ → (ℕ → ℕ) → ℕ → ℕ
put index color fb = λ a. if a == index then color else fb a

-- The loop of `sgfx_fill_rect` over a row, at `xi`
unfoldable pub fill_row : ℕ → ℕ → ℕ → ℕ → ℕ → ℕ → (ℕ → ℕ) → ℕ → ℕ
unfolding put
fill_row width zero xi x y color fb = fb
fill_row width (suc left) xi x y color fb =
    let sx = add32 xi x in
    fill_row width left (xi + 1) x y color
      (if outside width sx then fb else put (pixel_index width sx y) color fb)

-- Its loop over the rows, at `yi`
unfoldable pub fill_rows : ℕ → ℕ → ℕ → ℕ → ℕ → ℕ → ℕ → ℕ → (ℕ → ℕ) → ℕ → ℕ
unfolding fill_row
fill_rows width height w zero yi x y color fb = fb
fill_rows width height w (suc left) yi x y color fb =
    let sy = add32 yi y in
    fill_rows width height w left (yi + 1) x y color
      (if outside height sy then fb else fill_row width w 0 x sy color fb)

-- A width or a height that is negative gives no round.
unfoldable pub sgfx_fill_rect : ℕ → ℕ → ℕ → ℕ → ℕ → GraphicsContext → GraphicsContext
unfolding fill_rows
sgfx_fill_rect x y w h color ctx = record ctx {
  framebuffer =
      fill_rows ctx.width ctx.height (pos_part (signed32 w)) (pos_part (signed32 h)) 0 x y color
        ctx.framebuffer;
}
