-- ===== src/Keyboard/Tests.antt =====
-- The decoder of user/keyboard.c on the codes of the key A, and its theorems at them.
use talios.Base.{ℕ, ◌≡◌, refl, arith, some, List, [], ◌∷◌}
use talios.Keyboard.{Keyboard, key_code_map_normal, table_key, analyze_key_code}
use talios.Keyboard.Laws.{decode}
use talios.Keyboard.Reads.{Reads, analyze_key_code-Reads}

abbrev idle_with : List ℕ → Keyboard
idle_with codes = record {
  shift_l = 0;
  shift_r = 0;
  ctrl_l = 0;
  ctrl_r = 0;
  alt_l = 0;
  alt_r = 0;
  caps = 0;
  input = codes;
}

lower_a : decode 2 (idle_with (0x1e ∷ 0x9e ∷ [])) ≡ some (97 ∷ 0 ∷ [], idle_with [])
unfolding decode analyze_key_code key_code_map_normal table_key
lower_a = refl

abbrev pause_codes : Keyboard
pause_codes = idle_with (0xe1 ∷ 0x1d ∷ 0x45 ∷ 0xe1 ∷ 0x9d ∷ 0xc5 ∷ 0x1e ∷ [])

analyze_key_code-Reads_example : Reads 7 pause_codes (analyze_key_code pause_codes)
analyze_key_code-Reads_example = analyze_key_code-Reads pause_codes (omega arith)
