-- ===== src/Keyboard/Laws.antt =====
-- What the decoder of user/keyboard.c makes of whole sequences of scan codes.
use talios.Base.{
  ℕ, zero, suc, ◌+◌, ◌*◌, ◌%◌, ◌<◌, ◌≡◌, ◌⊎◌, inl, inr, Bool, true, false, ◌||◌, ◌&&◌, not, Option,
  some, List, [], ◌∷◌, ltb, ◌==◌, bit_xor, get_or, arith, refl,
}
use talios.Keyboard.{
  Keyboard, code_of, get_scan_code, ◌>>=◌, table_key, key_code_map_normal, plain_key, or_plain,
  dispatch, analyze_key_code,
}

-- The codes that have no case of their own and start no sequence.
unfoldable pub is_ordinary : ℕ → Bool
is_ordinary c =
    ltb c 0x60
    && not (
        c == 0x01
        || c == 0x0e
        || c == 0x0f
        || c == 0x1c
        || c == 0x2a
        || c == 0x1d
        || c == 0x38
        || c == 0x36
        || c == 0x3a)

-- `n` calls in a row, with the keys that they return.
unfoldable pub decode : ℕ → Keyboard → Option (List ℕ × Keyboard)
decode zero k = some ([], k)
decode (suc n) k = do
  (key, k') ← analyze_key_code k
  (keys, k'') ← decode n k'
  some (key ∷ keys, k'')

plain_key-press :
    (c : ℕ) (k : Keyboard) → is_ordinary c ≡ true → plain_key c k ≡ some (table_key c k, k)
unfolding plain_key is_ordinary
plain_key-press c k h = ground arith

plain_key-release :
    (c : ℕ) (k : Keyboard) → is_ordinary c ≡ true → plain_key (c + 128) k ≡ some (0, k)
unfolding plain_key is_ordinary
plain_key-release c k h = ground arith

ordinary_small : (c : ℕ) → is_ordinary c ≡ true → c < 0x60
unfolding is_ordinary
ordinary_small c h = ground arith

-- A code below 0xe0 is decoded alone.
analyze-plain :
    (k : Keyboard) (x : ℕ) (xs : List ℕ)
    → k.input ≡ x ∷ xs
    → x < 0xe0
    → analyze_key_code k ≡ plain_key x (record k { input = xs })
unfolding analyze_key_code get_scan_code dispatch or_plain
analyze-plain k x xs e h = rw e (unfold code_of in (rw (a, b)))
  where
    a : (x == 0xe1) ≡ false
    a = ground arith

    b : (x == 0xe0) ≡ false
    b = ground arith

table_key-shifted :
    (c : ℕ) (k : Keyboard)
    → c < 0x60
    → k.shift_l ≡ 1
    → table_key c k ≡ get_or key_code_map_normal (c * 2 + 1) 0
unfolding table_key
table_key-shifted c k h e = rw (e, small) refl
  where
    small : c % 128 ≡ c
    small = omega arith

table_key-plain :
    (c : ℕ) (k : Keyboard)
    → c < 0x60
    → k.shift_l ≡ 0
    → k.shift_r ≡ 0
    → table_key c k ≡ get_or key_code_map_normal (c * 2 + 0) 0
unfolding table_key
table_key-plain c k h e f = rw (e, f, small) refl
  where
    small : c % 128 ≡ c
    small = omega arith

press :
    (k : Keyboard) (c : ℕ) (xs : List ℕ)
    → k.input ≡ c ∷ xs
    → is_ordinary c ≡ true
    → analyze_key_code k ≡ some (table_key c (record k { input = xs }), record k { input = xs })
press k c xs e h =
    rw (analyze-plain k c xs e (omega (arith, ordinary_small c h)))
      (plain_key-press c (record k { input = xs }) h)

release :
    (k : Keyboard) (c : ℕ) (xs : List ℕ)
    → k.input ≡ (c + 128) ∷ xs
    → is_ordinary c ≡ true
    → analyze_key_code k ≡ some (0, record k { input = xs })
release k c xs e h =
    rw (analyze-plain k (c + 128) xs e (omega (arith, ordinary_small c h)))
      (plain_key-release c (record k { input = xs }) h)

-- A key without a case of its own, pressed and released with no Shift held, gives the first column
-- of its row in the key map, then 0; the two codes are consumed and nothing else changes.
pub decode-typed :
    (k : Keyboard) (c : ℕ) (xs : List ℕ)
    → k.input ≡ c ∷ (c + 128) ∷ xs
    → is_ordinary c ≡ true
    → k.shift_l ≡ 0
    → k.shift_r ≡ 0
    → decode 2 k ≡ some (get_or key_code_map_normal (c * 2 + 0) 0 ∷ 0 ∷ [], record k { input = xs })
unfolding decode
decode-typed k c xs e h l r =
    rw (press k c ((c + 128) ∷ xs) e h, release (record k { input = (c + 128) ∷ xs }) c xs refl h)
      (rw (table_key-plain c (record k { input = (c + 128) ∷ xs }) (ordinary_small c h) l r))

shift_down :
    (k : Keyboard) (xs : List ℕ)
    → k.input ≡ 0x2a ∷ xs
    → analyze_key_code k ≡ some (0, record k { shift_l = 1; input = xs })
shift_down k xs e = rw (analyze-plain k 0x2a xs e (omega arith)) (unfold plain_key in refl)

shift_up :
    (k : Keyboard) (xs : List ℕ)
    → k.input ≡ 0xaa ∷ xs
    → analyze_key_code k ≡ some (0, record k { shift_l = 0; input = xs })
shift_up k xs e = rw (analyze-plain k 0xaa xs e (omega arith)) (unfold plain_key in refl)

-- The same key between the press and the release of the left Shift gives the second column of its
-- row; the Shift state is back to up, and the four codes are consumed.
pub decode-shifted :
    (k : Keyboard) (c : ℕ) (xs : List ℕ)
    → k.input ≡ 0x2a ∷ c ∷ (c + 128) ∷ 0xaa ∷ xs
    → is_ordinary c ≡ true
    → decode 4 k
      ≡ some (
        0 ∷ get_or key_code_map_normal (c * 2 + 1) 0 ∷ 0 ∷ 0 ∷ [],
        record k { shift_l = 0; input = xs },
      )
unfolding decode
decode-shifted k c xs e h =
    rw
      (
        shift_down k (c ∷ (c + 128) ∷ 0xaa ∷ xs) e,
        press (record k { shift_l = 1; input = c ∷ (c + 128) ∷ 0xaa ∷ xs }) c
            ((c + 128) ∷ 0xaa ∷ xs) refl h,
        release (record k { shift_l = 1; input = (c + 128) ∷ 0xaa ∷ xs }) c (0xaa ∷ xs) refl h,
        shift_up (record k { shift_l = 1; input = 0xaa ∷ xs }) xs refl,
      )
      (rw (
        table_key-shifted c (record k { shift_l = 1; input = (c + 128) ∷ 0xaa ∷ xs })
          (ordinary_small c h) refl))

caps_code :
    (k : Keyboard) (x : ℕ) (xs : List ℕ)
    → k.input ≡ x ∷ xs
    → x < 0xe0
    → x % 128 ≡ 0x3a
    → analyze_key_code k ≡ some (0, record k { caps = bit_xor k.caps 1; input = xs })
caps_code k x xs e h c = rw (analyze-plain k x xs e h) (unfold plain_key in (rw c))

caps_twice : (c : ℕ) → (c ≡ 0) ⊎ (c ≡ 1) → bit_xor (bit_xor c 1) 1 ≡ c
caps_twice c (inl h) = rw h
caps_twice c (inr h) = rw h

-- A press and a release of Caps Lock: both codes flip `caps`, so the two leave it as it was.
pub decode-caps :
    (k : Keyboard) (xs : List ℕ)
    → k.input ≡ 0x3a ∷ 0xba ∷ xs
    → (k.caps ≡ 0) ⊎ (k.caps ≡ 1)
    → decode 2 k ≡ some (0 ∷ 0 ∷ [], record k { input = xs })
unfolding decode
decode-caps k xs e bit =
    rw
      (
        caps_code k 0x3a (0xba ∷ xs) e (omega arith) refl,
        caps_code (record k { caps = bit_xor k.caps 1; input = 0xba ∷ xs }) 0xba xs refl
            (omega arith) refl,
      )
      (rw (caps_twice k.caps bit))
