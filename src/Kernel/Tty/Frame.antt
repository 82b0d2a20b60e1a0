-- ===== src/Kernel/Tty/Frame.antt =====
-- The terminal writes to the frame buffer only.
use orionis_os.Base.{
  ◌∙◌, ℕ, zero, suc, ◌+◌, ◌-◌, ◌*◌, ◌/◌, ◌^◌, ◌≤◌, ◌<◌, ◌≡◌, ◌⊎◌, inl, inr, refl, ap, Bool, false,
  List, [], ◌∷◌, arith, ltb, leb, ◌==◌, ◌||◌, Bool-cases, u32, if◌then◌else◌,
}
use native.Mathlib.Nat.{mul-le-mul, mul-le-mul_left}
use orionis_os.Kernel.Libc.{memmove}
use orionis_os.Kernel.Libc.Memory.{inside, memmove-lem}
use orionis_os.Kernel.Tty.{
  Framebuffer, Tty, write32, put_pixel, fill_row, fill, fill_cell, glyph_bit, row_data, glyph_row,
  glyph_rows, putchar_at, tty_clear, fill_words, scroll_height, bytes_to_move, scroll, next_line,
  make_room, draw, tty_putc, tty_print,
}

-- A row of pixels fits in the pitch, and a line of text on the screen.
pub record IsFramebuffer (fb : Framebuffer) : Type 0 where
  pub rows : fb.width * 4 ≤ fb.pitch
  pub size : (fb.pitch < 2 ^ 16) × (fb.width < 2 ^ 16) × (fb.height < 2 ^ 16)
  pub tall : scroll_height ≤ fb.height

-- No byte outside the frame buffer differs.
abbrev pub Within : Framebuffer → (ℕ → ℕ) → (ℕ → ℕ) → Type 0
Within fb mem mem' = (a : ℕ) → (a < fb.addr) ⊎ (fb.addr + fb.height * fb.pitch ≤ a) → mem' a ≡ mem a

-- The test for scrolling.
abbrev is_low : Framebuffer → Tty → Bool
is_low fb t = ltb (u32 (fb.height + 2 ^ 32 - 1)) (u32 (t.cursor_y + 16))

module _ (fb : Framebuffer) (v : IsFramebuffer fb) where
  write32-Within :
      (p color : ℕ) (mem : ℕ → ℕ)
      → fb.addr ≤ p
      → p + 4 ≤ fb.addr + fb.height * fb.pitch
      → Within fb mem (write32 mem p color)
  unfolding write32
  write32-Within p color mem low high a out = ground (arith, out)

  pixel-lt :
      (x y : ℕ)
      → x < fb.width
      → y < fb.height
      → 4 * u32 (u32 (y * (fb.pitch / 4)) + x) + 4 ≤ fb.height * fb.pitch
  pixel-lt x y hx hy =
      let q = fb.pitch / 4 in
      let columns : x + 1 ≤ q = omega (arith, v.rows) in
      let narrow : q < 16384 = omega (arith, v.size.0) in
      let step : (y + 1) * q ≤ fb.height * q = grind arith in
      let expand : (y + 1) * q ≡ y * q + q = grind arith in
      let bytes : fb.height * (4 * q) ≤ fb.height * fb.pitch =
        mul-le-mul_left fb.height (omega arith) in
      let four : fb.height * (4 * q) ≡ 4 * (fb.height * q) = grind arith in
      let few : fb.height * q ≤ 65535 * q = grind (arith, v.size.2) in
      let linear : y * q + x + 1 ≤ fb.height * q = omega (arith, step, expand, columns) in
      let small : fb.height * q < 2 ^ 31 = omega (arith, few, narrow) in
      omega (arith, linear, small, bytes, four)

  put_pixel-Within : (x y color : ℕ) (mem : ℕ → ℕ) → Within fb mem (put_pixel fb x y color mem)
  unfolding put_pixel
  put_pixel-Within x y color mem = elim (Bool-cases (leb fb.width x || leb fb.height y)) [
    | inl off ↦ rw off (λ a out. refl)
    | inr on ↦ rw on (
        write32-Within (fb.addr + 4 * u32 (u32 (y * (fb.pitch / 4)) + x)) color mem (omega arith)
          (omega (arith, pixel-lt x y (ground (arith, on)) (ground (arith, on)))))
  ]

  fill_row-Within :
      (n col x y color : ℕ) (mem : ℕ → ℕ) → Within fb mem (fill_row n col fb x y color mem)
  unfolding fill_row
  fill_row-Within zero col x y color mem = λ a out. refl
  fill_row-Within (suc n) col x y color mem = λ a out.
      fill_row-Within n (col + 1) x y color (put_pixel fb (u32 (x + col)) y color mem) a out
      ∙ put_pixel-Within (u32 (x + col)) y color mem a out

  fill-Within :
      (n row columns x y color : ℕ) (mem : ℕ → ℕ)
      → Within fb mem (fill n row columns fb x y color mem)
  unfolding fill
  fill-Within zero row columns x y color mem = λ a out. refl
  fill-Within (suc n) row columns x y color mem = λ a out.
      fill-Within n (row + 1) columns x y color (fill_row columns 0 fb x (u32 (y + row)) color mem)
        a out
      ∙ fill_row-Within columns 0 x (u32 (y + row)) color mem a out

  glyph_row-Within :
      (n col bits x y color : ℕ) (mem : ℕ → ℕ)
      → Within fb mem (glyph_row n col bits fb x y color mem)
  unfolding glyph_row
  glyph_row-Within zero col bits x y color mem = λ a out. refl
  glyph_row-Within (suc n) col bits x y color mem = λ a out.
      elim (Bool-cases (glyph_bit bits col)) [
        | inl set ↦ rw set (
            glyph_row-Within n (col + 1) bits x y color (put_pixel fb (u32 (x + col)) y color mem) a
              out
            ∙ put_pixel-Within (u32 (x + col)) y color mem a out)
        | inr clear ↦ rw clear (glyph_row-Within n (col + 1) bits x y color mem a out)
      ]

  glyph_rows-Within :
      (n row : ℕ) (font : ℕ → ℕ) (c x y color : ℕ) (mem : ℕ → ℕ)
      → Within fb mem (glyph_rows n row font c fb x y color mem)
  unfolding glyph_rows
  glyph_rows-Within zero row font c x y color mem = λ a out. refl
  glyph_rows-Within (suc n) row font c x y color mem = λ a out.
      glyph_rows-Within n (row + 1) font c x y color
        (glyph_row 9 0 (row_data font c row) fb x (u32 (y + row)) color mem) a out
      ∙ glyph_row-Within 9 0 (row_data font c row) x (u32 (y + row)) color mem a out

  fill_words-Within :
      (n i offset color : ℕ) (mem : ℕ → ℕ)
      → offset + 4 * (i + n) ≤ fb.height * fb.pitch
      → Within fb mem (fill_words n i (fb.addr + offset) color mem)
  unfolding fill_words
  fill_words-Within zero i offset color mem h = λ a out. refl
  fill_words-Within (suc n) i offset color mem h = λ a out.
      fill_words-Within n (i + 1) offset color (write32 mem (fb.addr + offset + 4 * i) color)
        (omega arith) a out
      ∙ write32-Within (fb.addr + offset + 4 * i) color mem (omega arith) (omega arith) a out

  add_rows : (k p : ℕ) → (k + 18) * p ≡ k * p + 18 * p
  add_rows k p = grind arith

  -- The part that moves and the part that is filled make up the frame buffer.
  moved : bytes_to_move fb + scroll_height * fb.pitch ≡ fb.height * fb.pitch
  moved =
      let rows : u32 (fb.height + 2 ^ 32 - scroll_height) ≡ fb.height - 18 =
        omega (arith, v.tall, v.size.2) in
      let few : (fb.height - 18) * fb.pitch ≤ 65535 * 65535 =
        mul-le-mul {n₂ = 65535} {m₂ = 65535} (omega (arith, v.size.2)) (omega (arith, v.size.0)) in
      let whole : fb.height ≡ fb.height - 18 + 18 = omega (arith, v.tall) in
      let split = add_rows (fb.height - 18) fb.pitch in
      let product : fb.height * fb.pitch ≡ (fb.height - 18 + 18) * fb.pitch =
        ap (λ h. h * fb.pitch) whole in
      rw rows (omega (arith, few, split, product))

  scroll-Within : (t : Tty) → Within fb t.mem (scroll fb t).mem
  unfolding scroll
  scroll-Within t = λ a out.
      fill_words-Within (scroll_height * fb.pitch / 4) 0 (bytes_to_move fb) t.current_bg_color
        (memmove fb.addr (fb.addr + scroll_height * fb.pitch) (bytes_to_move fb) t.mem)
        (omega (arith, moved)) a out
      ∙ memmove-lem fb.addr (fb.addr + scroll_height * fb.pitch) (bytes_to_move fb) t.mem a
      ∙ (let outside : inside fb.addr (bytes_to_move fb) a ≡ false = ground (arith, out, moved) in
          rw outside refl)

  make_room-Within : (t : Tty) → Within fb t.mem (make_room fb t).mem
  unfolding make_room
  make_room-Within t = λ a out. elim (Bool-cases (ltb fb.width (u32 (t.cursor_x + 9)))) [
    | inl wide ↦ rw wide (elim (Bool-cases (is_low fb (next_line t))) [
      | inl low ↦ rw low (scroll-Within (next_line t) a out)
      | inr fits ↦ rw fits refl
    ])
    | inr narrow ↦ rw narrow (elim (Bool-cases (is_low fb t)) [
      | inl low ↦ rw low (scroll-Within t a out)
      | inr fits ↦ rw fits refl
    ])
  ]

  draw-Within :
      (font : ℕ → ℕ) (c color : ℕ) (t : Tty) → Within fb t.mem (draw font fb c color t).mem
  unfolding putchar_at
  draw-Within font c color t = λ a out.
      glyph_rows-Within 16 0 font (if leb 128 c then b'?' else c) t.cursor_x t.cursor_y color
        (fill_cell fb t.cursor_x t.cursor_y t.current_bg_color t.mem) a out
      ∙ fill-Within 16 0 9 t.cursor_x t.cursor_y t.current_bg_color t.mem a out

  tty_putc-Within :
      (font : ℕ → ℕ) (c color : ℕ) (t : Tty) → Within fb t.mem (tty_putc font fb c color t).mem
  unfolding tty_putc
  tty_putc-Within font c color t = λ a out. elim (Bool-cases (c == 10)) [
    | inl enter ↦ rw enter refl
    | inr other ↦ elim (Bool-cases (c == 8)) [
      | inl back ↦
          rw (other, back)
            (elim (Bool-cases (ltb 10 t.cursor_x)) [
              | inl some_left ↦
                  rw some_left
                    (fill-Within 16 0 9 (t.cursor_x - 9) t.cursor_y t.current_bg_color t.mem a out)
              | inr start ↦ rw start refl
            ])
      | inr plain ↦
          rw (other, plain)
            (draw-Within font c color (make_room fb t) a out ∙ make_room-Within t a out)
    ]
  ]

  -- Whatever is printed, and wherever the cursor stands, no byte outside the frame buffer changes.
  pub tty_print-Within :
      (font : ℕ → ℕ) (str : List ℕ) (color : ℕ) (t : Tty)
      → Within fb t.mem (tty_print font fb str color t).mem
  unfolding tty_print
  tty_print-Within font [] color t = λ a out. refl
  tty_print-Within font (c ∷ str) color t = λ a out.
      tty_print-Within font str color (tty_putc font fb c color t) a out
      ∙ tty_putc-Within font c color t a out

  pub tty_clear-Within : (t : Tty) → Within fb t.mem (tty_clear fb t).mem
  unfolding tty_clear
  tty_clear-Within t = fill-Within fb.height 0 fb.width 0 0 t.current_bg_color t.mem
