-- ===== src/Console.antt =====
-- The console of kernel/printk.c: `Putchar`, `AutoPutchar` and the loop of `ColorPrintfk` over the
-- formatted text. The frame buffer gives the pixel at each place, and the font the bits of a row.
pub mod Drawn
pub mod Cursor
mod Tests
use talios.Base.{
  ℕ, zero, suc, ◌+◌, ◌-◌, ◌*◌, ◌/◌, ◌%◌, ◌^◌, List, [], ◌∷◌, ltb, ◌==◌, if◌then◌else◌,
}

-- `ScreenInfo` with the pixels at its frame buffer.
pub record Screen : Type 0 where
  pub x_pixel_resolution : ℕ
  pub y_pixel_resolution : ℕ
  pub cursor_x : ℕ
  pub cursor_y : ℕ
  pub char_width : ℕ
  pub char_height : ℕ
  pub framebuffer : ℕ → ℕ

-- XCharResolution and YCharResolution
abbrev pub x_char_resolution : Screen → ℕ
x_char_resolution s = s.x_pixel_resolution / s.char_width

abbrev pub y_char_resolution : Screen → ℕ
y_char_resolution s = s.y_pixel_resolution / s.char_height

-- PrintkInit
pub printk_init : (framebuffer : ℕ → ℕ) → Screen
printk_init framebuffer = record {
  x_pixel_resolution = 1440;
  y_pixel_resolution = 900;
  cursor_x = 0;
  cursor_y = 0;
  char_width = 8;
  char_height = 16;
  framebuffer = framebuffer;
}

-- A pixel of a row of the font, whose highest bit is on the left: `n` bits are behind it.
unfoldable pub pixel : (line n fore back : ℕ) → ℕ
pixel line n fore back = if line / 2 ^ n % 2 == 1 then fore else back

-- `while(Pattern)`, with `n` bits left, from the place `pos` on.
unfoldable pub put_line : (n line pos fore back : ℕ) → (ℕ → ℕ) → ℕ → ℕ
unfolding pixel
put_line zero line pos fore back fb = fb
put_line (suc n) line pos fore back fb =
    put_line n line (pos + 1) fore back (λ p. if p == pos then pixel line n fore back else fb p)

-- PixelPos of the row `i`
abbrev pub pixel_pos : Screen → (i : ℕ) → ℕ
pixel_pos s i = (s.cursor_y * s.char_height + i) * s.x_pixel_resolution + s.cursor_x * s.char_width

-- The loop over the rows from `i` on, with `n` rows left.
unfoldable pub put_rows : (n i : ℕ) (plot : ℕ → ℕ) (fore back : ℕ) → Screen → (ℕ → ℕ) → ℕ → ℕ
unfolding put_line
put_rows zero i plot fore back s fb = fb
put_rows (suc n) i plot fore back s fb =
    put_rows n (i + 1) plot fore back s (put_line 8 (plot i) (pixel_pos s i) fore back fb)

module _ (font_ascii : (char row : ℕ) → ℕ) (fore back : ℕ) where
  unfoldable pub put_char : (character : ℕ) → Screen → Screen
  unfolding put_rows
  put_char character s = record s {
    framebuffer = put_rows s.char_height 0 (font_ascii (character % 256)) fore back s s.framebuffer;
  }

  -- `Putchar` and `cursorX++`
  unfoldable pub put_next : (character : ℕ) → Screen → Screen
  unfolding put_char
  put_next character s = record (put_char character s) { cursor_x = s.cursor_x + 1 }

  unfoldable pub auto_putchar : (character : ℕ) → Screen → Screen
  unfolding put_next
  auto_putchar character s =
      if ltb s.cursor_x (x_char_resolution s)
      then put_next character s
      else put_next character (record s {
        cursor_x = 0;
        cursor_y = if ltb s.cursor_y (y_char_resolution s) then s.cursor_y + 1 else s.cursor_y;
      })

  -- `while(Offset--)`
  unfoldable pub put_spaces : (offset : ℕ) → Screen → Screen
  unfolding put_next
  put_spaces zero s = s
  put_spaces (suc n) s = put_spaces n (put_next 32 s)

  -- The `switch`: 9, 10 and 8 are tab, newline and backspace.
  unfoldable pub print_char : (character : ℕ) → Screen → Screen
  unfolding auto_putchar put_spaces put_next
  print_char character s =
      if character == 9
      then put_spaces (8 - s.cursor_x % 8) s
      else if character == 10
      then record s {
        cursor_x = 0;
        cursor_y = if ltb s.cursor_y (y_char_resolution s) then s.cursor_y + 1 else s.cursor_y;
      }
      else if character == 8
      then (if ltb 0 s.cursor_x then put_next 32 (record s { cursor_x = s.cursor_x - 1 }) else s)
      else auto_putchar character s

  -- The loop over the text in `buffer`.
  unfoldable pub color_print : (buffer : List ℕ) → Screen → Screen
  unfolding print_char
  color_print [] s = s
  color_print (c ∷ cs) s = color_print cs (print_char c s)
