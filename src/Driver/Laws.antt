-- ===== src/Driver/Laws.antt =====
-- The buffer of kernel/keyboard.c as a queue of bytes, until its end is reached, and after.
use talios.Base.{
  zero, suc, ◌-◌, ◌%◌, ◌^◌, ◌⊎◌, ◌∙◌, ap, sym, ℕ, ◌+◌, ◌≤◌, ◌<◌, ◌≡◌, false, List, [], ◌∷◌, ◌++◌,
  ◌==◌, if◌then◌else◌, arith, refl, length, min, drop, suc, take, leb, ltb, some, true,
}
use mathlib.Core.Path.{subst}
use talios.Sched.{Cpu}
use talios.Strings.{Memory, store}
use talios.Strings.Copy.{store_same}
use talios.Fat.{task_size, copy_to_user, verify_area, copy_bytes}
use talios.Fat.Read.{copy_bytes-Delivered}
use talios.Sched.{task_uninterruptable}
use talios.Semaphore.Laws.{wake_up-nobody}
use talios.Semaphore.{Waiting}
use talios.Driver.{
  Driver, kb_buf_size, put, keyboard_handler, Read, keyboard_read, got, room_of, read_out,
}

-- `f` has the bytes `xs` from `p` on.
abbrev pub Holds : (ℕ → ℕ) → ℕ → List ℕ → Type 0
Holds f p [] = Unit {0}
Holds f p (x ∷ xs) = (f p ≡ x) × Holds f (p + 1) xs

-- The bytes `xs` wait between the tail and the head, which have not gone round.
pub record IsQueue (d : Driver) (xs : List ℕ) : Type 0 where
  pub between : d.p_tail + length xs ≡ d.p_head
  pub counted : d.count ≡ length xs
  pub inside : d.p_head ≤ kb_buf_size
  pub holds : Holds d.buf d.p_tail xs

Holds-put :
    (f : ℕ → ℕ) (p h x : ℕ) (xs : List ℕ)
    → p + length xs ≡ h
    → Holds f p xs
    → Holds (λ i. if i == h then x else f i) p (xs ++ (x ∷ []))
Holds-put f p h x [] e s = (ground arith, tt)
Holds-put f p h x (y ∷ ys) e (z, s) = (ground arith, Holds-put f (p + 1) h x ys (omega arith) s)

length-snoc : (x : ℕ) (xs : List ℕ) → length (xs ++ (x ∷ [])) ≡ length xs + 1
length-snoc x [] = refl
length-snoc x (y ∷ ys) = omega (arith, length-snoc x ys)

put-IsQueue :
    (x : ℕ) (d : Driver) (xs : List ℕ) (w : Waiting)
    → IsQueue d xs
    → d.p_head < kb_buf_size
    → IsQueue (record (put x d) { wait = w }) (xs ++ (x ∷ []))
unfolding put
put-IsQueue x d xs w q h =
    rw (test, put)
      (record {
        between = omega (arith, length-snoc x xs, q.between);
        counted = omega (arith, length-snoc x xs, q.counted);
        inside = omega arith;
        holds = Holds-put d.buf d.p_tail d.p_head x xs q.between q.holds;
      })
  where
    test : (d.p_head == kb_buf_size) ≡ false
    test = ground arith

-- With no task asleep and the head not at the end of the buffer, `KeyboardHandler` appends the byte
-- of the port to the queue.
pub keyboard_handler-IsQueue :
    (x : ℕ) (d : Driver) (xs : List ℕ)
    → IsQueue d xs
    → d.p_head < kb_buf_size
    → d.wait.waiters ≡ []
    → (d' : Driver) × (keyboard_handler x d ≡ some d') × IsQueue d' (xs ++ (x ∷ []))
unfolding keyboard_handler
keyboard_handler-IsQueue x d xs q h e =
    let w : Waiting = record { cpu = d.wait.cpu; waiters = [] } in
    (
      record (put x d) { wait = w },
      rw (wake_up-nobody task_uninterruptable d.wait e),
      put-IsQueue x d xs w q h,
    )

-- A copy of the first bytes holds the first elements.
Delivered-Holds :
    (f : ℕ → ℕ) (p q k n : ℕ) (xs : List ℕ) (m r : Memory)
    → Holds f p xs
    → k ≡ min n (length xs)
    → ((i : ℕ) → i < k → r (q + i) ≡ f (p + i))
    → Holds r q (take n xs)
Delivered-Holds f p q k zero xs m r s e h = tt
Delivered-Holds f p q k (suc n) [] m r s e h = tt
Delivered-Holds f p q k (suc n) (x ∷ xs) m r (y, s) e h = (
  ap r {y = q + 0} (omega arith) ∙ (h 0 (omega (arith, e)) ∙ (ap f {y = p} (omega arith) ∙ y)),
  Delivered-Holds f (p + 1) (q + 1) (k - 1) n xs m r s (omega (arith, e)) (λ i lt.
      ap r {y = q + (i + 1)} (omega arith)
      ∙ (h (i + 1) (omega (arith, lt)) ∙ ap f {y = p + 1 + i} (omega arith))),
)

Holds-drop :
    (f : ℕ → ℕ) (p k n : ℕ) (xs : List ℕ)
    → Holds f p xs
    → k ≡ min n (length xs)
    → Holds f (p + k) (drop n xs)
Holds-drop f p k zero xs s e = subst (λ a. Holds f a xs) (omega arith) s
Holds-drop f p k (suc n) [] s e = tt
Holds-drop f p k (suc n) (x ∷ xs) (h, s) e =
    subst (λ a. Holds f a (drop n xs)) (omega arith)
      (Holds-drop f (p + 1) (k - 1) n xs s (omega arith))

length-drop : (n : ℕ) (xs : List ℕ) → length (drop n xs) ≡ length xs - n
length-drop zero xs = omega arith
length-drop (suc n) [] = omega arith
length-drop (suc n) (x ∷ xs) = omega (arith, length-drop n xs)

-- The reader has the first `n` bytes of the queue at `user_buf` and their number, other memory of it
-- stays, and the queue holds the other bytes from then on.
pub data ReadOf (user_buf n : ℕ) (xs : List ℕ) (m : Memory) : Read → Type 0 where
  read_of :
      {r : Memory} {d : Driver}
      → Holds r user_buf (take n xs)
      → ((a : ℕ) → (a < user_buf) ⊎ (user_buf + min n (length xs) ≤ a) → r a ≡ m a)
      → IsQueue d (drop n xs)
      → ReadOf user_buf n xs m (got (min n (length xs), r, d))

taken :
    (user_buf n k : ℕ) (d : Driver) (xs : List ℕ) (m : Memory)
    → IsQueue d xs
    → k ≡ min n (length xs)
    → user_buf + min n (length xs) ≤ task_size
    → ReadOf user_buf n xs m (
        got (
          k,
          copy_to_user d.buf d.p_tail user_buf k m,
          record d { p_tail = d.p_tail + k; count = d.count - k },
        ))
unfolding copy_to_user verify_area
taken user_buf n k d xs m q e fits =
    let h = copy_bytes-Delivered d.buf d.p_tail user_buf k m in
    rw ok (
      subst
        (λ l. ReadOf user_buf n xs m (
          got (
            l,
            copy_bytes d.buf d.p_tail user_buf k m,
            record d { p_tail = d.p_tail + k; count = d.count - k },
          )))
        (sym e)
        (read_of
          (Delivered-Holds d.buf d.p_tail user_buf k n xs m (copy_bytes d.buf d.p_tail user_buf k m)
            q.holds e h.bytes_at)
          (λ a out. h.others a (ground (arith, out, e)))
          (record {
            between = omega (arith, length-drop n xs, q.between, e);
            counted = omega (arith, length-drop n xs, q.counted, e);
            inside = q.inside;
            holds = Holds-drop d.buf d.p_tail k n xs q.holds e;
          })))
  where
    ok : leb ((user_buf + k) % 2 ^ 64) task_size ≡ true
    ok = ground (arith, e, fits)

-- From a queue that is not empty and whose bytes have not gone round, `keyboard_read` to user memory
-- does not sleep: it puts the oldest bytes there, as many as are asked for or all of them, returns
-- their number, changes no other memory, and leaves the queue of the other bytes.
pub keyboard_read-ReadOf :
    (user_buf n : ℕ) (m : Memory) (d : Driver) (xs : List ℕ)
    → IsQueue d xs
    → 1 ≤ length xs
    → user_buf + min n (length xs) ≤ task_size
    → ReadOf user_buf n xs m (keyboard_read user_buf n m d)
unfolding keyboard_read read_out
keyboard_read-ReadOf user_buf n m d xs q h small =
    rw (awake, keyboard_read)
      (rw (fits, read_out)
        (taken user_buf n (if ltb n d.count then n else d.count) d xs m q
          (ground (arith, q.counted)) small))
  where
    awake : (d.count == 0) ≡ false
    awake = ground (arith, q.counted)

    fits : leb (if ltb n d.count then n else d.count) (room_of d.p_tail) ≡ true
    fits = ground (arith, q.counted, q.between, q.inside)

-- The driver when as many bytes as the buffer has were written and all of them read.
abbrev pub at_end : (ℕ → ℕ) → Cpu → Driver
at_end f k = record {
  p_head = kb_buf_size;
  p_tail = kb_buf_size;
  count = 0;
  buf = f;
  wait = record { cpu = k; waiters = [] };
}

-- Once all bytes up to the end of the buffer are written and read, the handler stores the next byte at
-- its start, but reading one byte to user memory then gives what stands at position 1.
pub keyboard_read-misread :
    (x user_buf : ℕ) (m : Memory) (f : ℕ → ℕ) (k : Cpu)
    → user_buf + 1 ≤ task_size
    → (d d' : Driver) × (r : Memory) × (keyboard_handler x (at_end f k) ≡ some d)
      × (d.buf 0 ≡ x)
      × (keyboard_read user_buf 1 m d ≡ got (1, r, d'))
      × (r user_buf ≡ f 1)
unfolding keyboard_handler keyboard_read read_out put copy_to_user copy_bytes verify_area
keyboard_read-misread x user_buf m f k small =
    let d = record (put x (at_end f k)) { wait = record { cpu = k; waiters = [] } } in
    let test : leb ((user_buf + 1) % 2 ^ 64) task_size ≡ true = ground (arith, small) in
    let test' : leb ((user_buf + 0) % 2 ^ 64) task_size ≡ true = ground (arith, small) in
    (
      d,
      record d { p_tail = 2; count = 0 },
      store m user_buf (f 1),
      rw (wake_up-nobody task_uninterruptable (at_end f k).wait refl),
      refl,
      rw (test, test'),
      store_same m user_buf (f 1) user_buf refl,
    )
