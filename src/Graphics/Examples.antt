-- ===== src/Graphics/Examples.antt =====
-- sgfx/sgfx.c: a rectangle of 3 by 2 pixels over the left edge of a framebuffer of 4 by 3.
use quad_os.Base.{◌≡◌, refl, arith}
use quad_os.Graphics.{GraphicsContext, sgfx_fill_rect, fill_rows, fill_row, put}
use quad_os.Graphics.Fill.{Filled, sgfx_fill_rect-Filled}

abbrev black : GraphicsContext
black = record { framebuffer = λ a. 0; width = 4; height = 3 }

-- The corner is at (-1, 1): the first two pixels of the second row are filled, the third is not.
sgfx_fill_rect_run :
    ((sgfx_fill_rect 0xffff_ffff 1 3 2 7 black).framebuffer 5 ≡ 7)
    × ((sgfx_fill_rect 0xffff_ffff 1 3 2 7 black).framebuffer 6 ≡ 0)
    × ((sgfx_fill_rect 0xffff_ffff 1 3 2 7 black).framebuffer 3 ≡ 0)
unfolding sgfx_fill_rect fill_rows fill_row put
sgfx_fill_rect_run = (refl, refl, refl)

sgfx_fill_rect-Filled_example :
    Filled 0xffff_ffff 1 3 2 7 black (sgfx_fill_rect 0xffff_ffff 1 3 2 7 black)
sgfx_fill_rect-Filled_example =
    sgfx_fill_rect-Filled black (omega arith) (omega arith) (omega arith) 0xffff_ffff 1 3 2 7
      (omega arith) (omega arith) (omega arith) (omega arith)
