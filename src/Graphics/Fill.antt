-- ===== src/Graphics/Fill.antt =====
-- sgfx/sgfx.c, `sgfx_fill_rect`: exactly the visible part of the rectangle gets the color.
use quad_os.Base.{
  ℕ, zero, suc, ◌+◌, ◌*◌, ◌^◌, ◌≤◌, ◌<◌, ◌≡◌, inl, inr, refl, ap, ◌∙◌, Bool, true, false, not, ◌&&◌,
  ltb, leb, ◌==◌, if◌then◌else◌, Bool-cases, add32, sub32, pos_part, signed32, arith,
}
use quad_os.Graphics.{
  outside, pixel_index, put, fill_row, fill_rows, sgfx_fill_rect, GraphicsContext,
}
use quad_os.Graphics.Pixels.{outside-eq, pixel_index-inside, fill_rows-at}

module _ (width height : ℕ) (size : width * height < 2 ^ 32) (narrow : width < 2 ^ 31)
    (low : height < 2 ^ 31) where
  -- An index behind the last pixel.
  module _ (a : ℕ) (behind : width * height ≤ a) where
    fill_row-behind :
        (left xi x sy color : ℕ) (fb : ℕ → ℕ)
        → sy < height
        → fill_row width left xi x sy color fb a ≡ fb a
    unfolding fill_row put
    fill_row-behind zero xi x sy color fb row = refl
    fill_row-behind (suc left) xi x sy color fb row =
        fill_row-behind left (xi + 1) x sy color _ row
        ∙ (elim (Bool-cases (ltb (add32 xi x) width)) [
          | inl e ↦
              let inner : add32 xi x < width = ground (arith, e) in
              let out : outside width (add32 xi x) ≡ false =
                outside-eq width (add32 xi x) narrow (omega arith) ∙ ap not e in
              let ne : (a == pixel_index width (add32 xi x) sy) ≡ false = ground (
                arith,
                behind,
                pixel_index-inside width height size narrow low (add32 xi x) sy inner row,
              ) in
              simp (out, ne) refl
          | inr e ↦
              let out : outside width (add32 xi x) ≡ true =
                outside-eq width (add32 xi x) narrow (omega arith) ∙ ap not e in
              simp out refl
        ])

    fill_rows-behind :
        (w left yi x y color : ℕ) (fb : ℕ → ℕ)
        → fill_rows width height w left yi x y color fb a ≡ fb a
    unfolding fill_rows
    fill_rows-behind w zero yi x y color fb = refl
    fill_rows-behind w (suc left) yi x y color fb =
        fill_rows-behind w left (yi + 1) x y color _
        ∙ (elim (Bool-cases (ltb (add32 yi y) height)) [
          | inl e ↦
              let out : outside height (add32 yi y) ≡ false =
                outside-eq height (add32 yi y) low (omega arith) ∙ ap not e in
              simp out (fill_row-behind w 0 x (add32 yi y) color fb (ground (arith, e)))
          | inr e ↦
              let out : outside height (add32 yi y) ≡ true =
                outside-eq height (add32 yi y) low (omega arith) ∙ ap not e in
              simp out refl
        ])

-- `out` is `ctx` with a rectangle filled: a pixel has the color when it lies fewer than `w` pixels to
-- the right of `x` and fewer than `h` below `y`, modulo 2^32, and is as before when not. Nothing
-- behind the last pixel has changed.
pub record Filled (x y w h color : ℕ) (ctx out : GraphicsContext) : Type 0 where
  pub pixel :
      (px py : ℕ)
      → px < ctx.width
      → py < ctx.height
      → out.framebuffer (px + py * ctx.width) ≡ (
          if ltb (sub32 py y) h && ltb (sub32 px x) w
          then color
          else ctx.framebuffer (px + py * ctx.width))
  pub behind : (a : ℕ) → ctx.width * ctx.height ≤ a → out.framebuffer a ≡ ctx.framebuffer a
  pub same_size : (out.width ≡ ctx.width) × (out.height ≡ ctx.height)

first_turn : (n r : ℕ) → (leb 0 r && ltb r (0 + n)) ≡ ltb r n
first_turn n r = ground arith

either_way :
    {a a' b b' : Bool} (color old : ℕ)
    → a ≡ a'
    → b ≡ b'
    → (if a && b then color else old) ≡ (if a' && b' then color else old)
either_way color old e f = rw (e, f) refl

-- In a framebuffer of fewer than 2^32 pixels, and fewer than 2^31 each way, `sgfx_fill_rect` gives the
-- color to exactly the pixels of the rectangle, for a corner anywhere, and writes nothing behind the
-- last pixel; a width or a height that is negative fills nothing.
pub sgfx_fill_rect-Filled :
    (ctx : GraphicsContext)
    → ctx.width * ctx.height < 2 ^ 32
    → ctx.width < 2 ^ 31
    → ctx.height < 2 ^ 31
    → (x y w h color : ℕ) → x < 2 ^ 32
    → y < 2 ^ 32
    → w < 2 ^ 32
    → h < 2 ^ 32
    → Filled x y
        (pos_part (signed32 w))
        (pos_part (signed32 h))
        color
        ctx
        (sgfx_fill_rect x y w h color ctx)
unfolding sgfx_fill_rect
sgfx_fill_rect-Filled ctx size narrow low x y w h color word_x word_y word_w word_h = record {
  pixel = λ px py in_x in_y.
      fill_rows-at ctx.width ctx.height size narrow low px py in_x in_y (pos_part (signed32 w))
        (pos_part (signed32 h)) 0 x y color ctx.framebuffer (ground arith) (ground arith) word_x
        word_y
      ∙ either_way color (ctx.framebuffer (px + py * ctx.width))
          (first_turn (pos_part (signed32 h)) (sub32 py y))
          (first_turn (pos_part (signed32 w)) (sub32 px x));
  behind = λ a out.
      fill_rows-behind ctx.width ctx.height size narrow low a out (pos_part (signed32 w))
        (pos_part (signed32 h)) 0 x y color ctx.framebuffer;
  same_size = (refl, refl);
}
