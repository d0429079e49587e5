-- ===== src/Graphics/Pixels.antt =====
-- sgfx/sgfx.c: which pixels a filled rectangle changes.
use quad_os.Base.{
  ℕ, zero, suc, ◌+◌, ◌/◌, ◌*◌, ◌^◌, ◌≤◌, ◌<◌, ◌≡◌, inl, inr, refl, sym, ap, ◌∙◌, Bool, true, false,
  not, ◌||◌, ◌&&◌, ltb, leb, ◌==◌, ==_iff, if◌then◌else◌, Bool-cases, add32, sub32, arith,
}
use native.Mathlib.Nat.{add-mul-div_right, div-eq_of_lt}
use quad_os.Graphics.{outside, pixel_index, put, fill_row, fill_rows}

pub outside-eq :
    (extent c : ℕ) → extent < 2 ^ 31 → c < 2 ^ 32 → outside extent c ≡ not (ltb c extent)
outside-eq extent c small word = ground arith

-- In a framebuffer of fewer than 2^32 pixels the index of a pixel does not wrap, and different pixels
-- have different indices.
module _ (width height : ℕ) (size : width * height < 2 ^ 32) (narrow : width < 2 ^ 31)
    (low : height < 2 ^ 31) where
  pixel_index-eq : (x y : ℕ) → x < width → y < height → pixel_index width x y ≡ x + y * width
  pixel_index-eq x y in_x in_y = grind arith

  pub pixel_index-inside :
      (x y : ℕ) → x < width → y < height → pixel_index width x y < width * height
  pixel_index-inside x y in_x in_y = grind (arith, pixel_index-eq x y in_x in_y)

  pixel_index-injective :
      (x y sx sy : ℕ)
      → x < width
      → sx < width
      → x + y * width ≡ sx + sy * width
      → (x ≡ sx) × (y ≡ sy)
  pixel_index-injective x y sx sy in_x in_sx e =
      let rows : (a b : ℕ) → a < width → (a + b * width) / width ≡ b =
        λ a b lt. add-mul-div_right a b (omega arith) ∙ omega (arith, div-eq_of_lt lt) in
      let same_y : y ≡ sy = sym (rows x y in_x) ∙ ap (λ (t : ℕ). t / width) e ∙ rows sx sy in_sx in
      (grind (arith, e, same_y), same_y)

  module _ (px py : ℕ) (in_x : px < width) (in_y : py < height) where
    abbrev at : ℕ
    at = px + py * width

    same_pixel :
        (sx sy : ℕ)
        → sx < width
        → sy < height
        → (at == pixel_index width sx sy) ≡ ((px == sx) && (py == sy))
    same_pixel sx sy inner row =
        let index = pixel_index-eq sx sy inner row in
        elim (Bool-cases (at == pixel_index width sx sy)) [
          | inl e ↦
              let same = pixel_index-injective px py sx sy in_x inner ((==_iff _ _).0 e ∙ index) in
              ground (arith, e, same.0, same.1)
          | inr e ↦
              let apart : (px ≡ sx) → (py ≡ sy) → ⊥ = λ x y. absurd (
                true_ne (
                  sym (
                    (==_iff at (pixel_index width sx sy)).1 (
                      ap (λ (t : ℕ). t + py * width) x
                      ∙ ap (λ (t : ℕ). sx + t * width) y
                      ∙ sym index))
                  ∙ e)) in
              ground (arith, e, apart)
        ]
      where
        true_ne : true ≡ false → ⊥
        true_ne e = cc

    -- One round of the inner loop.
    put-at :
        (sx sy color : ℕ) (fb : ℕ → ℕ)
        → sx < 2 ^ 32
        → sy < height
        → (if outside width sx then fb else put (pixel_index width sx sy) color fb) at
          ≡ (if (px == sx) && (py == sy) then color else fb at)
    unfolding put
    put-at sx sy color fb word row = elim (Bool-cases (ltb sx width)) [
      | inl e ↦
          let inner : sx < width = ground (arith, e) in
          let out : outside width sx ≡ false = outside-eq width sx narrow word ∙ ap not e in
          let test : (at == pixel_index width sx sy) ≡ ((px == sx) && (py == sy)) =
            same_pixel sx sy inner row in
          simp (out, test) refl
      | inr e ↦
          let out : outside width sx ≡ true = outside-eq width sx narrow word ∙ ap not e in
          let ne : (px == sx) ≡ false = ground (arith, e, in_x) in simp (out, ne) refl
    ]

    -- The pixel is `reach` steps from the edge at `edge`, modulo 2^32: in the rounds from `i` on, `left`
    -- of them, it has its turn.
    abbrev pub turn : ℕ → ℕ → ℕ → Bool
    turn left i reach = leb i reach && ltb reach (i + left)

    choice :
        (rest now same all : Bool) (color old : ℕ)
        → (rest || now) ≡ all
        → (if rest && same then color else if now && same then color else old)
          ≡ (if all && same then color else old)
    choice rest now same all color old e = ground (arith, e)

    round_turn :
        (left i edge p : ℕ)
        → i + suc left ≤ 2 ^ 31
        → edge < 2 ^ 32
        → p < 2 ^ 31
        → (turn left (i + 1) (sub32 p edge) || (p == add32 i edge))
          ≡ turn (suc left) i (sub32 p edge)
    round_turn left i edge p bound word small = ground arith

    no_turn : (i reach : ℕ) → turn 0 i reach ≡ false
    no_turn i reach = ground arith

    fill_row-at :
        (left xi x sy color : ℕ) (fb : ℕ → ℕ)
        → xi + left ≤ 2 ^ 31
        → x < 2 ^ 32
        → sy < height
        → fill_row width left xi x sy color fb at
          ≡ (if turn left xi (sub32 px x) && (py == sy) then color else fb at)
    unfolding fill_row
    fill_row-at zero xi x sy color fb bound word row = simp (no_turn xi (sub32 px x)) refl
    fill_row-at (suc left) xi x sy color fb bound word row =
        fill_row-at left (xi + 1) x sy color _ (omega arith) word row
        ∙ ap (λ (t : ℕ). if turn left (xi + 1) (sub32 px x) && (py == sy) then color else t)
            (put-at (add32 xi x) sy color fb (omega arith) row)
        ∙ choice (turn left (xi + 1) (sub32 px x)) (px == add32 xi x) (py == sy)
            (turn (suc left) xi (sub32 px x)) color (fb at)
            (round_turn left xi x px bound word (omega arith))

    row_at :
        (w x sy color : ℕ) (fb : ℕ → ℕ)
        → w ≤ 2 ^ 31
        → x < 2 ^ 32
        → sy < 2 ^ 32
        → (if outside height sy then fb else fill_row width w 0 x sy color fb) at
          ≡ (if (py == sy) && turn w 0 (sub32 px x) then color else fb at)
    row_at w x sy color fb wide word_x word_y = elim (Bool-cases (ltb sy height)) [
      | inl e ↦
          let out : outside height sy ≡ false = outside-eq height sy low word_y ∙ ap not e in
          simp out (
            fill_row-at w 0 x sy color fb (omega arith) word_x (ground (arith, e))
            ∙ ap (λ (b : Bool). if b then color else fb at)
                (&&_comm (turn w 0 (sub32 px x)) (py == sy)))
      | inr e ↦
          let out : outside height sy ≡ true = outside-eq height sy low word_y ∙ ap not e in
          let ne : (py == sy) ≡ false = ground (arith, e, in_y) in simp (out, ne) refl
    ]
      where
        &&_comm : (a b : Bool) → (a && b) ≡ (b && a)
        &&_comm a b = ground arith

    pub fill_rows-at :
        (w left yi x y color : ℕ) (fb : ℕ → ℕ)
        → w ≤ 2 ^ 31
        → yi + left ≤ 2 ^ 31
        → x < 2 ^ 32
        → y < 2 ^ 32
        → fill_rows width height w left yi x y color fb at
          ≡ (if turn left yi (sub32 py y) && turn w 0 (sub32 px x) then color else fb at)
    unfolding fill_rows
    fill_rows-at w zero yi x y color fb wide bound word_x word_y =
        simp (no_turn yi (sub32 py y)) refl
    fill_rows-at w (suc left) yi x y color fb wide bound word_x word_y =
        fill_rows-at w left (yi + 1) x y color _ wide (omega arith) word_x word_y
        ∙ ap
            (λ (t : ℕ).
              if turn left (yi + 1) (sub32 py y) && turn w 0 (sub32 px x) then color else t)
            (row_at w x (add32 yi y) color fb wide word_x (omega arith))
        ∙ choice (turn left (yi + 1) (sub32 py y)) (py == add32 yi y) (turn w 0 (sub32 px x))
            (turn (suc left) yi (sub32 py y)) color (fb at)
            (round_turn left yi y py bound word_y (omega arith))
