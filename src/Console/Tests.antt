-- ===== src/Console/Tests.antt =====
-- The screen of PrintkInit, with the theorems of kernel/printk.c there.
use talios.Base.{ℕ, ◌≡◌, [], ◌∷◌, arith, refl}
use talios.Console.{Screen, put_char, color_print}
use talios.Console.Drawn.{Drawn, put_char-Drawn}
use talios.Console.Cursor.{no_text, one_char, Inside, color_print-Inside}

-- A font whose rows are all 0x81.
abbrev font : ℕ → ℕ → ℕ
font char row = 0x81

abbrev screen : Screen
screen = record {
  x_pixel_resolution = 1440;
  y_pixel_resolution = 900;
  cursor_x = 180;
  cursor_y = 3;
  char_width = 8;
  char_height = 16;
  framebuffer = λ p. 0;
}

put_char-Drawn_example : Drawn (font 65) 5 6 screen (put_char font 5 6 65 screen).framebuffer
put_char-Drawn_example = put_char-Drawn font 5 6 65 screen (omega arith)

-- A letter at the right edge, then a newline and a backspace.
color_print-Inside_example : Inside screen (color_print font 5 6 (65 ∷ 10 ∷ 8 ∷ []) screen)
color_print-Inside_example =
    color_print-Inside font 5 6 screen (omega arith) (65 ∷ 10 ∷ 8 ∷ []) screen
      (one_char (λ e. omega (arith, e))
        (one_char (λ e. omega (arith, e)) (one_char (λ e. omega (arith, e)) no_text)))
      (record { width = refl; height = refl; column = omega arith; line = omega arith })

color_print-wrapped : (color_print font 5 6 (65 ∷ []) screen).cursor_y ≡ 4
unfolding color_print
color_print-wrapped = refl
