-- ===== src/Keyboard.antt =====
-- The decoder of scan codes in the user program: user/keyboard.c. `read` gives the codes that the
-- keyboard driver has queued, one at a time; where none is left the program waits, which is `none`.
pub mod Laws
pub mod Reads
mod Tests
use talios.Base.{
  ℕ, zero, suc, ◌+◌, ◌-◌, ◌*◌, ◌/◌, ◌%◌, Bool, true, false, ◌||◌, ◌&&◌, not, Option, none, some,
  List, [], ◌∷◌, ◌++◌, ltb, leb, ◌==◌, if◌then◌else◌, bit_xor, get_or,
}
use mathlib.Core.Option

-- PAUSE_BREAK, PRINT_SCREEN, OTHER_KEY
abbrev pub pause_break : ℕ
pause_break = 1

abbrev pub print_screen : ℕ
print_screen = 2

abbrev pub other_key : ℕ
other_key = 4

-- `KeyCodeMapNormal`, two columns to a scan code: plain and with Shift. The codes from 0x00 on.
key_rows_low : List ℕ
key_rows_low =
    0 ∷ 0 ∷ 0 ∷ 0 ∷ 49 ∷ 33 ∷ 50 ∷ 64 ∷ 51 ∷ 35 ∷ 52 ∷ 36 ∷ 53 ∷ 37 ∷ 54 ∷ 94 ∷ 55 ∷ 38 ∷ 56 ∷ 42
    ∷ 57 ∷ 40 ∷ 48 ∷ 41 ∷ 45 ∷ 95 ∷ 61 ∷ 43 ∷ 0 ∷ 0 ∷ 0 ∷ 0 ∷ 113 ∷ 81 ∷ 119 ∷ 87 ∷ 101 ∷ 69 ∷ 114
    ∷ 82 ∷ 116 ∷ 84 ∷ 121 ∷ 89 ∷ 117 ∷ 85 ∷ 105 ∷ 73 ∷ 111 ∷ 79 ∷ 112 ∷ 80 ∷ 91 ∷ 123 ∷ 93 ∷ 125 ∷ 0
    ∷ 0 ∷ 29 ∷ 29 ∷ 97 ∷ 65 ∷ 115 ∷ 83 ∷ 100 ∷ 68 ∷ 102 ∷ 70 ∷ 103 ∷ 71 ∷ 104 ∷ 72 ∷ 106 ∷ 74 ∷ 107
    ∷ 75 ∷ 108 ∷ 76 ∷ 59 ∷ 58 ∷ 39 ∷ 34 ∷ 96 ∷ 126 ∷ 42 ∷ 42 ∷ 92 ∷ 124 ∷ 122 ∷ 90 ∷ 120 ∷ 88 ∷ 99
    ∷ 67 ∷ 118 ∷ 86 ∷ 98 ∷ 66 ∷ 110 ∷ 78 ∷ 109 ∷ 77 ∷ 44 ∷ 60 ∷ 46 ∷ 62 ∷ 47 ∷ 63 ∷ 54 ∷ 54 ∷ 42
    ∷ 42 ∷ 56 ∷ 56 ∷ 32 ∷ 32 ∷ 0 ∷ 0 ∷ 0 ∷ 0 ∷ 0 ∷ 0 ∷ 0 ∷ 0 ∷ 0 ∷ 0 ∷ 0 ∷ 0 ∷ []

-- The codes from 0x40 on.
key_rows_high : List ℕ
key_rows_high =
    0 ∷ 0 ∷ 0 ∷ 0 ∷ 0 ∷ 0 ∷ 0 ∷ 0 ∷ 0 ∷ 0 ∷ 0 ∷ 0 ∷ 0 ∷ 0 ∷ 55 ∷ 0 ∷ 56 ∷ 0 ∷ 57 ∷ 0 ∷ 45 ∷ 0 ∷ 52
    ∷ 0 ∷ 53 ∷ 0 ∷ 54 ∷ 0 ∷ 43 ∷ 0 ∷ 49 ∷ 0 ∷ 50 ∷ 0 ∷ 51 ∷ 0 ∷ 48 ∷ 0 ∷ 46 ∷ 0 ∷ 0 ∷ 0 ∷ 0 ∷ 0 ∷ 0
    ∷ 0 ∷ 0 ∷ 0 ∷ 0 ∷ 0 ∷ 0 ∷ 0 ∷ 0 ∷ 0 ∷ 0 ∷ 0 ∷ 0 ∷ 0 ∷ 0 ∷ 0 ∷ 0 ∷ 0 ∷ 0 ∷ 0 ∷ 0 ∷ 0 ∷ 0 ∷ 0 ∷ 0
    ∷ 0 ∷ 0 ∷ 0 ∷ 0 ∷ 0 ∷ 0 ∷ 0 ∷ 0 ∷ 0 ∷ 0 ∷ 0 ∷ 0 ∷ 0 ∷ 0 ∷ 0 ∷ 0 ∷ 0 ∷ 0 ∷ 0 ∷ 0 ∷ 0 ∷ 0 ∷ 0 ∷ 0
    ∷ 0 ∷ 0 ∷ 0 ∷ 0 ∷ 0 ∷ 0 ∷ 0 ∷ 0 ∷ 0 ∷ 0 ∷ 0 ∷ 0 ∷ 0 ∷ 0 ∷ 0 ∷ 0 ∷ 0 ∷ 0 ∷ 0 ∷ 0 ∷ 0 ∷ 0 ∷ 0 ∷ 0
    ∷ 0 ∷ 0 ∷ 0 ∷ 0 ∷ 0 ∷ 0 ∷ 0 ∷ 0 ∷ 0 ∷ 0 ∷ 0 ∷ []

pub key_code_map_normal : List ℕ
unfolding key_rows_low key_rows_high
key_code_map_normal = key_rows_low ++ key_rows_high

-- `PauseBreakCode` after its first byte.
abbrev pub pause_break_code : List ℕ
pause_break_code = 0x1d ∷ 0x45 ∷ 0xe1 ∷ 0x9d ∷ 0xc5 ∷ []

-- The static variables, and the codes that `read` will give.
pub record Keyboard : Type 0 where
  pub shift_l : ℕ
  pub shift_r : ℕ
  pub ctrl_l : ℕ
  pub ctrl_r : ℕ
  pub alt_l : ℕ
  pub alt_r : ℕ
  pub caps : ℕ
  pub input : List ℕ

-- `GetScanCode`
unfoldable pub code_of : List ℕ → Keyboard → Option (ℕ × Keyboard)
code_of [] k = none
code_of (x ∷ xs) k = some (x, record k { input = xs })

unfoldable pub get_scan_code : Keyboard → Option (ℕ × Keyboard)
unfolding code_of
get_scan_code k = code_of k.input k

infixl 5 ◌>>=◌
abbrev pub ◌>>=◌ {ℓ κ} : {A : Type ℓ} {B : Type κ} → Option A → (A → Option B) → Option B
none >>= f = none
some a >>= f = f a

-- `x & FLAG_BREAK ? 0 : 1`
unfoldable pub make_of : ℕ → ℕ
make_of x = if x / 128 % 2 == 0 then 1 else 0

-- The loop that matches the rest of the Pause sequence: did all codes agree?
unfoldable pub match_pause : List ℕ → Keyboard → Option (Bool × Keyboard)
match_pause [] k = some (true, k)
match_pause (c ∷ cs) k = do
  (y, k') ← get_scan_code k
  let rest = match_pause cs k'
  if y == c then rest else some (false, k')

-- The key that a code 0xe1 starts.
unfoldable pub pause_key : Keyboard → Option (ℕ × Keyboard)
unfolding match_pause
pause_key k = do
  (all, k') ← match_pause pause_break_code k
  some (if all then pause_break else 0, k')

unfoldable pub print_screen_end : Keyboard → Option (ℕ × Keyboard)
print_screen_end k = do (z, k') ← get_scan_code k; some (if z == 0x37 then print_screen else 0, k')

-- The fake Shift in front of Print Screen.
unfoldable pub print_screen_key : Keyboard → Option (ℕ × Keyboard)
unfolding print_screen_end
print_screen_key k = do
  (y, k') ← get_scan_code k
  if y == 0xe0 then print_screen_end k' else some (0, k')

-- The codes behind 0xe0 that set `CtrlL`.
unfoldable pub is_extended : ℕ → Bool
is_extended c =
    c == 0x48
    || c == 0x4b
    || c == 0x50
    || c == 0x4d
    || c == 0x52
    || c == 0x47
    || c == 0x49
    || c == 0x53
    || c == 0x4f
    || c == 0x51
    || c == 0x5b
    || c == 0x5c
    || c == 0x5d
    || c == 0x35
    || c == 0x1c

-- The `switch` behind a code 0xe0, on the code `x` after it.
unfoldable pub extended_key : ℕ → Keyboard → Option (ℕ × Keyboard)
unfolding make_of print_screen_key is_extended
extended_key x k =
    let c = x % 128 in
    if c == 0x2a
    then print_screen_key k
    else if c == 0x1d
    then some (other_key, record k { ctrl_l = make_of x })
    else if c == 0x38
    then some (other_key, record k { alt_r = make_of x })
    else if is_extended c
    then some (other_key, record k { ctrl_l = 1 })
    else some (0, k)

-- `KeyRow[column]`
unfoldable pub table_key : ℕ → Keyboard → ℕ
unfolding key_code_map_normal
table_key x k =
    get_or key_code_map_normal (x % 128 * 2 + (if k.shift_l == 0 && k.shift_r == 0 then 0 else 1)) 0

-- The last part: the key of a code that no prefix has decided.
unfoldable pub plain_key : ℕ → Keyboard → Option (ℕ × Keyboard)
unfolding make_of
plain_key x k =
    let c = x % 128 in
    if c == 0x01
    then some (0, k)
    else if c == 0x0e
    then some (0x08, k)
    else if c == 0x0f
    then some (0x09, k)
    else if c == 0x1c
    then (do (_, k') ← get_scan_code k; some (0x0a, k'))
    else if c == 0x2a
    then some (0, record k { shift_l = make_of x })
    else if c == 0x1d
    then some (0, record k { ctrl_l = make_of x })
    else if c == 0x38
    then some (0, record k { alt_l = make_of x })
    else if c == 0x36
    then some (0, record k { shift_r = make_of x })
    else if c == 0x3a
    then some (0, record k { caps = bit_xor k.caps 1 })
    else some (if make_of x == 0 then 0 else table_key x k, k)

-- `if (key == 0)`: the code is decoded alone.
unfoldable pub or_plain : ℕ → ℕ × Keyboard → Option (ℕ × Keyboard)
unfolding plain_key
or_plain x (key, k) = if key == 0 then plain_key x k else some (key, k)

-- The prefixes, and what follows them. After a Pause sequence that does not match, `x` is still 0xe1.
unfoldable pub dispatch : ℕ → Keyboard → Option (ℕ × Keyboard)
unfolding pause_key extended_key or_plain
dispatch x k =
    if x == 0xe1
    then pause_key k >>= or_plain x
    else if x == 0xe0
    then (do (y, k') ← get_scan_code k; extended_key y k' >>= or_plain y)
    else or_plain x (0, k)

pub analyze_key_code : Keyboard → Option (ℕ × Keyboard)
unfolding get_scan_code dispatch
analyze_key_code k = do (x, k') ← get_scan_code k; dispatch x k'
