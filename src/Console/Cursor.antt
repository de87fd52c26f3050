-- ===== src/Console/Cursor.antt =====
-- Where the cursor can be (kernel/printk.c, `ColorPrintfk`).
use talios.Base.{ℕ, ◌≤◌, ◌≡◌, ◌≢◌, List, [], ◌∷◌, false, ltb, ◌==◌, arith, Bool-cases, inl, inr}
use talios.Console.{
  Screen, x_char_resolution, y_char_resolution, put_char, put_next, auto_putchar, print_char,
  color_print,
}

-- A text without tabs.
pub data Tabless : List ℕ → Type 0 where
  no_text : Tabless []
  one_char : {c : ℕ} {cs : List ℕ} → c ≢ 9 → Tabless cs → Tabless (c ∷ cs)

-- The size of the screen is as in `s`, and the cursor at most at its right and lower edges.
pub record Inside (s t : Screen) : Type 0 where
  pub width : x_char_resolution t ≡ x_char_resolution s
  pub height : y_char_resolution t ≡ y_char_resolution s
  pub column : t.cursor_x ≤ x_char_resolution s
  pub line : t.cursor_y ≤ y_char_resolution s

module _ (font_ascii : ℕ → ℕ → ℕ) (fore back : ℕ) (s : Screen)
    (some_columns : 1 ≤ x_char_resolution s) where
  print_char-Inside :
      (c : ℕ) (t : Screen) → c ≢ 9 → Inside s t → Inside s (print_char font_ascii fore back c t)
  unfolding print_char auto_putchar put_next put_char
  print_char-Inside c t ne i =
      let no_tab : (c == 9) ≡ false = ground (arith, ne) in
      elim (Bool-cases (c == 10)) [
        | inl newline ↦
            rw (no_tab, newline)
              (elim (Bool-cases (ltb t.cursor_y (y_char_resolution t))) [
                | inl room ↦ rw room (record {
                  width = i.width;
                  height = i.height;
                  column = omega arith;
                  line = ground (arith, room, i.height);
                })
                | inr full ↦ rw full (record {
                  width = i.width;
                  height = i.height;
                  column = omega arith;
                  line = i.line;
                })
              ])
        | inr no_newline ↦ elim (Bool-cases (c == 8)) [
          | inl backspace ↦ elim (Bool-cases (ltb 0 t.cursor_x)) [
            | inl behind ↦
                rw (no_tab, no_newline, backspace, behind)
                  (record {
                    width = i.width;
                    height = i.height;
                    column = ground (arith, behind, i.column);
                    line = i.line;
                  })
            | inr start ↦ rw (no_tab, no_newline, backspace, start) i
          ]
          | inr plain ↦ elim (Bool-cases (ltb t.cursor_x (x_char_resolution t))) [
            | inl room ↦
                rw (no_tab, no_newline, plain, room)
                  (record {
                    width = i.width;
                    height = i.height;
                    column = ground (arith, room, i.width);
                    line = i.line;
                  })
            | inr full ↦
                rw (no_tab, no_newline, plain, full)
                  (elim (Bool-cases (ltb t.cursor_y (y_char_resolution t))) [
                    | inl below ↦ rw below (record {
                      width = i.width;
                      height = i.height;
                      column = omega (arith, some_columns);
                      line = ground (arith, below, i.height);
                    })
                    | inr last ↦ rw last (record {
                      width = i.width;
                      height = i.height;
                      column = omega (arith, some_columns);
                      line = i.line;
                    })
                  ])
          ]
        ]
      ]

  -- Printing a text without tabs leaves the cursor at most at the right and lower edges of the screen,
  -- where it was so before; the line at the lower edge, YCharResolution, is the first below the screen.
  pub color_print-Inside :
      (cs : List ℕ) (t : Screen)
      → Tabless cs
      → Inside s t
      → Inside s (color_print font_ascii fore back cs t)
  unfolding color_print
  color_print-Inside [] t no_text i = i
  color_print-Inside (c ∷ cs) t (one_char ne rest) i =
      color_print-Inside cs (print_char font_ascii fore back c t) rest (print_char-Inside c t ne i)
