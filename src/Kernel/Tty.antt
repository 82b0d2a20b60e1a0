-- ===== src/Kernel/Tty.antt =====
-- The terminal of kernel/drivers/tty.cpp, over the bytes of memory that hold the frame buffer. The
-- table of the glyphs, `console_tty_9x16`, is a parameter `font`. A string is the list of its
-- characters.
pub mod Frame
pub mod Cursor
pub mod Numbers
mod Tests
use orionis_os.Base.{
  ℕ, zero, suc, ◌+◌, ◌-◌, ◌*◌, ◌/◌, ◌%◌, ◌^◌, Bool, List, [], ◌∷◌, ltb, leb, ◌==◌, ◌||◌, u32, store,
  get_or, if◌then◌else◌,
}
use orionis_os.Base.Digits.{write_digits}
use orionis_os.Base.Printed.{text_from, dec_digit}
use orionis_os.Kernel.Libc.{memmove}

-- What `boot_info` says about the frame buffer; all but the address have 16 bits.
pub record Framebuffer : Type 0 where
  pub addr : ℕ
  pub width : ℕ
  pub height : ℕ
  pub pitch : ℕ

pub record Tty : Type 0 where
  pub cursor_x : ℕ
  pub cursor_y : ℕ
  pub current_bg_color : ℕ
  pub mem : ℕ → ℕ

-- A `uint32_t` is written at address `a`.
pub write32 : (ℕ → ℕ) → ℕ → ℕ → ℕ → ℕ
write32 mem a v =
    store
      (store (store (store mem a (v % 256)) (a + 1) (v / 2 ^ 8 % 256)) (a + 2) (v / 2 ^ 16 % 256))
      (a + 3) (v / 2 ^ 24 % 256)

pub put_pixel : Framebuffer → ℕ → ℕ → ℕ → (ℕ → ℕ) → ℕ → ℕ
put_pixel fb x y color mem =
    if leb fb.width x || leb fb.height y
    then mem
    else write32 mem (fb.addr + 4 * u32 (u32 (y * (fb.pitch / 4)) + x)) color

-- The pixels of a row from column `col` on, `n` of them.
pub fill_row : ℕ → ℕ → Framebuffer → ℕ → ℕ → ℕ → (ℕ → ℕ) → ℕ → ℕ
fill_row zero col fb x y color mem = mem
fill_row (suc n) col fb x y color mem =
    fill_row n (col + 1) fb x y color (put_pixel fb (u32 (x + col)) y color mem)

pub fill : ℕ → ℕ → ℕ → Framebuffer → ℕ → ℕ → ℕ → (ℕ → ℕ) → ℕ → ℕ
fill zero row columns fb x y color mem = mem
fill (suc n) row columns fb x y color mem =
    fill n (row + 1) columns fb x y color (fill_row columns 0 fb x (u32 (y + row)) color mem)

-- The cell of a character: 16 rows of 9 pixels.
abbrev pub fill_cell : Framebuffer → ℕ → ℕ → ℕ → (ℕ → ℕ) → ℕ → ℕ
fill_cell fb x y color mem = fill 16 0 9 fb x y color mem

-- Bit `8 - col` of the row of a glyph.
abbrev pub glyph_bit : ℕ → ℕ → Bool
glyph_bit row_data col = row_data / 2 ^ (8 - col) % 2 == 1

abbrev pub row_data : (ℕ → ℕ) → ℕ → ℕ → ℕ
row_data font c row = font (c * 32 + row * 2) + 256 * font (c * 32 + row * 2 + 1)

pub glyph_row : ℕ → ℕ → ℕ → Framebuffer → ℕ → ℕ → ℕ → (ℕ → ℕ) → ℕ → ℕ
glyph_row zero col bits fb x y color mem = mem
glyph_row (suc n) col bits fb x y color mem =
    glyph_row n (col + 1) bits fb x y color
      (if glyph_bit bits col then put_pixel fb (u32 (x + col)) y color mem else mem)

pub glyph_rows : ℕ → ℕ → (ℕ → ℕ) → ℕ → Framebuffer → ℕ → ℕ → ℕ → (ℕ → ℕ) → ℕ → ℕ
glyph_rows zero row font c fb x y color mem = mem
glyph_rows (suc n) row font c fb x y color mem =
    glyph_rows n (row + 1) font c fb x y color
      (glyph_row 9 0 (row_data font c row) fb x (u32 (y + row)) color mem)

pub putchar_at : (ℕ → ℕ) → Framebuffer → ℕ → ℕ → ℕ → ℕ → (ℕ → ℕ) → ℕ → ℕ
putchar_at font fb c x y color mem =
    glyph_rows 16 0 font (if leb 128 c then b'?' else c) fb x y color mem

pub tty_clear : Framebuffer → Tty → Tty
tty_clear fb t = record t {
  cursor_x = 10;
  cursor_y = 0;
  mem = fill fb.height 0 fb.width fb 0 0 t.current_bg_color t.mem;
}

pub tty_init : Framebuffer → Tty → Tty
tty_init fb t = tty_clear fb (record t { cursor_x = 10; cursor_y = 0; current_bg_color = 0x1E1E1E })

-- The loop that fills the last row with words, from word `i` on, `n` of them.
pub fill_words : ℕ → ℕ → ℕ → ℕ → (ℕ → ℕ) → ℕ → ℕ
fill_words zero i a color mem = mem
fill_words (suc n) i a color mem = fill_words n (i + 1) a color (write32 mem (a + 4 * i) color)

abbrev pub scroll_height : ℕ
scroll_height = 18

abbrev pub bytes_to_move : Framebuffer → ℕ
bytes_to_move fb = u32 (u32 (fb.height + 2 ^ 32 - scroll_height) * fb.pitch)

pub scroll : Framebuffer → Tty → Tty
scroll fb t = record t {
  cursor_x = 10;
  cursor_y = u32 (fb.height + 2 ^ 32 - scroll_height);
  mem =
      fill_words (scroll_height * fb.pitch / 4) 0 (fb.addr + bytes_to_move fb) t.current_bg_color
        (memmove fb.addr (fb.addr + scroll_height * fb.pitch) (bytes_to_move fb) t.mem);
}

abbrev pub next_line : Tty → Tty
next_line t = record t { cursor_x = 10; cursor_y = u32 (t.cursor_y + 18) }

-- The line break and the scrolling in front of a character.
pub make_room : Framebuffer → Tty → Tty
make_room fb t =
    let wrapped = if ltb fb.width (u32 (t.cursor_x + 9)) then next_line t else t in
    if ltb (u32 (fb.height + 2 ^ 32 - 1)) (u32 (wrapped.cursor_y + 16))
    then scroll fb wrapped
    else wrapped

abbrev pub draw : (ℕ → ℕ) → Framebuffer → ℕ → ℕ → Tty → Tty
draw font fb c color t = record t {
  cursor_x = u32 (t.cursor_x + 9);
  mem =
      putchar_at font fb c t.cursor_x t.cursor_y color
        (fill_cell fb t.cursor_x t.cursor_y t.current_bg_color t.mem);
}

pub tty_putc : (ℕ → ℕ) → Framebuffer → ℕ → ℕ → Tty → Tty
tty_putc font fb c color t =
    if c == 10
    then next_line t
    else if c == 8
    then (if ltb 10 t.cursor_x
        then record t {
          cursor_x = t.cursor_x - 9;
          mem = fill_cell fb (t.cursor_x - 9) t.cursor_y t.current_bg_color t.mem;
        }
        else t)
    else draw font fb c color (make_room fb t)

pub tty_print : (ℕ → ℕ) → Framebuffer → List ℕ → ℕ → Tty → Tty
tty_print font fb [] color t = t
tty_print font fb (c ∷ str) color t = tty_print font fb str color (tty_putc font fb c color t)

abbrev pub hex_digit : ℕ → ℕ
hex_digit d =
    get_or (48 ∷ 49 ∷ 50 ∷ 51 ∷ 52 ∷ 53 ∷ 54 ∷ 55 ∷ 56 ∷ 57 ∷ 65 ∷ 66 ∷ 67 ∷ 68 ∷ 69 ∷ 70 ∷ []) d 0

-- What `print_hex` and `print_dec` print; `i + 1` of the source is the first result of the loop.
pub hex_text : ℕ → List ℕ
hex_text value =
    if value == 0
    then b'0' ∷ []
    else let (start, buffer) = write_digits 64 16 hex_digit 16 value (λ i. 0) in
      text_from 17 buffer start

pub dec_text : ℕ → List ℕ
dec_text value =
    if value == 0
    then b'0' ∷ []
    else let (start, buffer) = write_digits 64 10 dec_digit 20 value (λ i. 0) in
      text_from 21 buffer start

unfoldable pub print_hex : (ℕ → ℕ) → Framebuffer → ℕ → ℕ → Tty → Tty
print_hex font fb value = tty_print font fb (hex_text value)

unfoldable pub print_dec : (ℕ → ℕ) → Framebuffer → ℕ → ℕ → Tty → Tty
print_dec font fb value = tty_print font fb (dec_text value)
