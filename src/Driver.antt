-- ===== src/Driver.antt =====
-- The driver of the keyboard: kernel/keyboard.c. The 100 bytes of the buffer are numbered from its
-- start, and `p_head` and `p_tail` are positions from there; `buf` also has the bytes behind it. The interrupt handler writes at the head,
-- `keyboard_read` reads from the tail.
pub mod Laws
mod Tests
use talios.Base.{
  ℕ, zero, suc, ◌+◌, ◌-◌, ◌%◌, ◌^◌, Bool, Option, none, some, ltb, leb, ◌==◌, if◌then◌else◌,
}
use talios.Fat.{copy_to_user}
use talios.Strings.{Memory}
use talios.Sched.{task_uninterruptable}
use talios.Semaphore.{Waiting, sleep_on, wake_up}

-- KB_BUF_SIZE
abbrev pub kb_buf_size : ℕ
kb_buf_size = 100

-- KEY_CMD_RESET_BUFFER
abbrev pub key_cmd_reset_buffer : ℕ
key_cmd_reset_buffer = 1

-- `KeyboardInBuf` and `keyboard_wait_queue`
pub record Driver : Type 0 where
  pub p_head : ℕ
  pub p_tail : ℕ
  pub count : ℕ
  pub buf : ℕ → ℕ
  pub wait : Waiting

-- The lines that empty the buffer, in `keyboard_open`, `keyboard_close` and `keyboard_ioctl`.
unfoldable pub reset : Driver → Driver
reset d = record d {
  p_head = 0;
  p_tail = 0;
  count = 0;
  buf = λ i. if ltb i kb_buf_size then 0 else d.buf i;
}

pub keyboard_open : Driver → ℕ × Driver
unfolding reset
keyboard_open d = (1, reset d)

pub keyboard_close : Driver → ℕ × Driver
unfolding reset
keyboard_close d = (1, reset d)

pub keyboard_ioctl : (cmd : ℕ) → Driver → ℕ × Driver
unfolding reset
keyboard_ioctl cmd d = (0, if cmd == key_cmd_reset_buffer then reset d else d)

-- `KBIB->buf - KBIB->PTail + KB_BUF_SIZE` as an unsigned long
abbrev pub room_of : (p_tail : ℕ) → ℕ
room_of p_tail = (kb_buf_size + 2 ^ 64 - p_tail) % 2 ^ 64

-- `keyboard_read` behind `sleep_on`: the count that it returns, the reader's memory, and the driver.
-- Both pieces of a read over the end are copied to `user_buf`, the second over the first.
unfoldable pub read_out : (user_buf count : ℕ) → Memory → Driver → ℕ × Memory × Driver
unfolding copy_to_user
read_out user_buf count m d =
    let counter = if ltb count d.count then count else d.count in
    let room = room_of d.p_tail in
    if leb counter room
    then (
      counter,
      copy_to_user d.buf d.p_tail user_buf counter m,
      record d { p_tail = d.p_tail + counter; count = d.count - counter },
    )
    else (
      counter,
      copy_to_user d.buf d.p_head user_buf (counter - room)
          (copy_to_user d.buf d.p_tail user_buf room m),
      record d { p_tail = d.p_head + (counter - room); count = d.count - counter },
    )

-- A read that has to sleep first goes on with `read_out` when its task runs again.
pub data Read : Type 0 where
  asleep : Option Waiting → Read
  got : ℕ × Memory × Driver → Read

pub keyboard_read : (user_buf count : ℕ) → Memory → Driver → Read
unfolding read_out
keyboard_read user_buf count m d =
    if d.count == 0 then asleep (sleep_on d.wait) else got (read_out user_buf count m d)

abbrev pub with_wait : Driver → Option Waiting → Option Driver
with_wait d none = none
with_wait d (some w) = some (record d { wait = w })

-- `KeyboardHandler` up to `wake_up`, for the byte `x` of the port.
unfoldable pub put : (x : ℕ) → Driver → Driver
put x d =
    let head = if d.p_head == kb_buf_size then 0 else d.p_head in
    record d { buf = λ i. if i == head then x else d.buf i; count = d.count + 1; p_head = head + 1 }

pub keyboard_handler : (x : ℕ) → Driver → Option Driver
unfolding put
keyboard_handler x d = with_wait (put x d) (wake_up task_uninterruptable d.wait)
