-- ===== src/Kernel/Tty/Cursor.antt =====
-- Where the terminal draws: after the line break and the scrolling the cell lies on the screen.
use orionis_os.Base.{◌+◌, ◌^◌, ◌≤◌, ◌<◌, arith}
use orionis_os.Kernel.Tty.{Framebuffer, Tty, scroll, scroll_height, make_room}

-- The cell at the cursor lies on the screen, and above its last row of pixels.
pub record IsOnScreen (fb : Framebuffer) (t : Tty) : Type 0 where
  pub columns : t.cursor_x + 9 ≤ fb.width
  pub rows : t.cursor_y + 17 ≤ fb.height

-- On a screen that has room for a cell, and for a line of text, the place that `tty_putc` makes for a
-- character lies on it, wherever the cursor stood below 2 ^ 32 - 34.
pub make_room-IsOnScreen :
    (fb : Framebuffer) (t : Tty)
    → 19 ≤ fb.width
    → fb.width < 2 ^ 16
    → scroll_height ≤ fb.height
    → fb.height < 2 ^ 16
    → t.cursor_x + 34 < 2 ^ 32
    → t.cursor_y + 34 < 2 ^ 32
    → IsOnScreen fb (make_room fb t)
unfolding make_room scroll
make_room-IsOnScreen fb t wide w tall h hx hy = record {
  columns = ground arith;
  rows = ground arith;
}
