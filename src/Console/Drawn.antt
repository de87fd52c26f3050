-- ===== src/Console/Drawn.antt =====
-- What `Putchar` (kernel/printk.c) draws.
use talios.Base.{
  ℕ, zero, suc, ◌+◌, ◌-◌, ◌%◌, ◌<◌, ◌≤◌, ◌≡◌, ◌⊎◌, true, false, ◌==◌, arith, refl, ap, sym, ◌*◌,
  ◌/◌, ◌^◌, ◌∙◌, Bool-cases, inl, inr,
}
use mathlib.Core.Path.{subst}
use talios.Console.{Screen, pixel, put_line, pixel_pos, put_rows, put_char}

put_line-others :
    (n line pos fore back : ℕ) (fb : ℕ → ℕ) (p : ℕ)
    → (p < pos) ⊎ (pos + n ≤ p)
    → put_line n line pos fore back fb p ≡ fb p
unfolding put_line
put_line-others zero line pos fore back fb p out = refl
put_line-others (suc n) line pos fore back fb p out =
    let other : (p == pos) ≡ false = ground (arith, out) in
    put_line-others n line (pos + 1) fore back _ p (ground (arith, out)) ∙ rw other refl

put_line-drawn :
    (n line pos fore back : ℕ) (fb : ℕ → ℕ) (j : ℕ)
    → j < n
    → put_line n line pos fore back fb (pos + j) ≡ pixel line (n - suc j) fore back
unfolding put_line
put_line-drawn zero line pos fore back fb j h = absurd (omega arith)
put_line-drawn (suc n) line pos fore back fb zero h =
    let here : (pos + 0 == pos) ≡ true = ground arith in
    put_line-others n line (pos + 1) fore back _ (pos + 0) (inl (omega arith))
    ∙ rw here (ap (λ k. pixel line k fore back) {x = n} (omega arith))
put_line-drawn (suc n) line pos fore back fb (suc j) h =
    ap (put_line n line (pos + 1) fore back _) {x = pos + suc j} {y = pos + 1 + j} (omega arith)
    ∙ (put_line-drawn n line (pos + 1) fore back _ j (omega arith)
        ∙ ap (λ k. pixel line k fore back) {x = n - suc j} {y = suc n - suc (suc j)} (omega arith))

next_row : (s : Screen) (i : ℕ) → pixel_pos s (i + 1) ≡ pixel_pos s i + s.x_pixel_resolution
next_row s i = omega arith

-- The rows are at least a character apart, so the rows from `i` on leave what is above them.
module _ (plot : ℕ → ℕ) (fore back : ℕ) (s : Screen) (wide : 8 ≤ s.x_pixel_resolution) where
  put_rows-others :
      (n i : ℕ) (fb : ℕ → ℕ) (p : ℕ)
      → ((k : ℕ) → i ≤ k → k < i + n → (p < pixel_pos s k) ⊎ (pixel_pos s k + 8 ≤ p))
      → put_rows n i plot fore back s fb p ≡ fb p
  unfolding put_rows
  put_rows-others zero i fb p out = refl
  put_rows-others (suc n) i fb p out =
      put_rows-others n (i + 1) _ p (λ k low high. out k (omega (arith, low)) (omega (arith, high)))
      ∙ put_line-others 8 (plot i) (pixel_pos s i) fore back fb p
          (out i (omega arith) (omega arith))

  rows_apart : (i d : ℕ) → pixel_pos s i + 8 ≤ pixel_pos s (i + 1 + d)
  rows_apart i zero =
      omega (arith, next_row s i, wide, ap (pixel_pos s) {x = i + 1 + 0} {y = i + 1} (omega arith))
  rows_apart i (suc d) = omega (
    arith,
    rows_apart i d,
    next_row s (i + 1 + d),
    ap (pixel_pos s) {x = i + 1 + suc d} {y = i + 1 + d + 1} (omega arith),
  )

  later_row : (i k : ℕ) → i < k → pixel_pos s i + 8 ≤ pixel_pos s k
  later_row i k h = omega (
    arith,
    rows_apart i (k - suc i),
    ap (pixel_pos s) {x = i + 1 + (k - suc i)} {y = k} (omega (arith, h)),
  )

  put_rows-drawn :
      (n i : ℕ) (fb : ℕ → ℕ) (k j : ℕ)
      → i ≤ k
      → k < i + n
      → j < 8
      → put_rows n i plot fore back s fb (pixel_pos s k + j) ≡ pixel (plot k) (7 - j) fore back
  unfolding put_rows
  put_rows-drawn zero i fb k j low high h = absurd (omega (arith, low, high))
  put_rows-drawn (suc n) i fb k j low high h = elim (Bool-cases (k == i)) [
    | inr later ↦
        put_rows-drawn n (i + 1) _ k j (ground (arith, low, later)) (omega (arith, high)) h
    | inl here ↦
        let e : k ≡ i = ground (arith, here) in
        rw e (
          put_rows-others n (i + 1) _ (pixel_pos s i + j)
            (λ r lo hi. inl (omega (arith, h, later_row i r (omega (arith, lo)))))
          ∙ (put_line-drawn 8 (plot i) (pixel_pos s i) fore back fb j h
              ∙ ap (λ b. pixel (plot i) b fore back) {y = 7 - j} (omega (arith, h))))
  ]

-- The place of the row of the cell at the cursor, with the screen line by line.
abbrev pub row_start : Screen → (row : ℕ) → ℕ
row_start s row =
    s.x_pixel_resolution * (row + s.char_height * s.cursor_y) + s.char_width * s.cursor_x

pixel_pos-row_start : (s : Screen) (row : ℕ) → pixel_pos s row ≡ row_start s row
pixel_pos-row_start s row = omega arith

-- What a character leaves on the screen.
pub record Drawn (plot : ℕ → ℕ) (fore back : ℕ) (s : Screen) (fb : ℕ → ℕ) : Type 0 where
  pub drawn :
      (row column : ℕ)
      → row < s.char_height
      → column < 8
      → plot row / 2 ^ (7 - column) % 2 ≡ 1
      → fb (row_start s row + column) ≡ fore
  pub blank :
      (row column : ℕ)
      → row < s.char_height
      → column < 8
      → plot row / 2 ^ (7 - column) % 2 ≡ 0
      → fb (row_start s row + column) ≡ back
  pub others :
      (p : ℕ)
      → ((row : ℕ) → row < s.char_height → (p < row_start s row) ⊎ (row_start s row + 8 ≤ p))
      → fb p ≡ s.framebuffer p

pixel-set : (line n fore back : ℕ) → line / 2 ^ n % 2 ≡ 1 → pixel line n fore back ≡ fore
unfolding pixel
pixel-set line n fore back h = rw h refl

pixel-clear : (line n fore back : ℕ) → line / 2 ^ n % 2 ≡ 0 → pixel line n fore back ≡ back
unfolding pixel
pixel-clear line n fore back h = rw h refl

-- On a screen of at least 8 pixels in a line Putchar gives each of the first 8 pixels in each row of
-- the cell at the cursor the fore colour where its bit of the font's row is 1, the highest on the left,
-- and the back colour where it is 0; no other pixel changes.
pub put_char-Drawn :
    (font_ascii : ℕ → ℕ → ℕ) (fore back character : ℕ) (s : Screen)
    → 8 ≤ s.x_pixel_resolution
    → Drawn
        (font_ascii (character % 256))
        fore
        back
        s
        (put_char font_ascii fore back character s).framebuffer
unfolding put_char
put_char-Drawn font_ascii fore back character s wide = record {
  drawn = λ row column h lt bit. at row column h lt ∙ pixel-set _ (7 - column) fore back bit;
  blank = λ row column h lt bit. at row column h lt ∙ pixel-clear _ (7 - column) fore back bit;
  others = λ p out.
      put_rows-others (font_ascii (character % 256)) fore back s wide s.char_height 0 s.framebuffer
        p
        (λ k low high.
          subst (λ r. (p < r) ⊎ (r + 8 ≤ p)) (sym (pixel_pos-row_start s k))
            (out k (omega (arith, high))));
}
  where
    fb : ℕ → ℕ
    fb = put_rows s.char_height 0 (font_ascii (character % 256)) fore back s s.framebuffer

    at :
        (row column : ℕ)
        → row < s.char_height
        → column < 8
        → fb (row_start s row + column)
          ≡ pixel (font_ascii (character % 256) row) (7 - column) fore back
    at row column h lt =
        ap (λ r. fb (r + column)) (sym (pixel_pos-row_start s row))
        ∙ put_rows-drawn (font_ascii (character % 256)) fore back s wide s.char_height 0
            s.framebuffer row column (omega arith) (omega (arith, h)) lt
