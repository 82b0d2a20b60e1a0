-- ===== src/Kernel/Pmm/Bitmap.antt =====
-- The bitmap's three primitives: what a test sees after a bit is set or cleared.
use orionis_os.Base.{
  ℕ, ◌+◌, ◌/◌, ◌%◌, ◌≡◌, true, false, arith, ◌==◌, if◌then◌else◌, test_bit-set_bit,
  test_bit-clear_bit, set_bit-lt, clear_bit-lt, IsBytes,
}
use orionis_os.Kernel.Pmm.{Pmm, pmm_bitmap_set, pmm_bitmap_clear, pmm_bitmap_test}

same_page : (i j : ℕ) → i / 8 ≡ j / 8 → i % 8 ≡ j % 8 → i ≡ j
same_page i j p q = omega arith

module _ (i j : ℕ) (s : Pmm) (bytes : IsBytes s.mem) where
  pub pmm_bitmap_test-set :
      pmm_bitmap_test j (pmm_bitmap_set i s) ≡ (if j == i then true else pmm_bitmap_test j s)
  unfolding pmm_bitmap_set pmm_bitmap_test
  pmm_bitmap_test-set = ground (
    arith,
    bytes (s.pmm_bitmap + i / 8),
    test_bit-set_bit (s.mem (s.pmm_bitmap + i / 8)) (i % 8) (j % 8),
    same_page i j,
  )

  pub pmm_bitmap_test-clear :
      pmm_bitmap_test j (pmm_bitmap_clear i s) ≡ (if j == i then false else pmm_bitmap_test j s)
  unfolding pmm_bitmap_clear pmm_bitmap_test
  pmm_bitmap_test-clear = ground (
    arith,
    bytes (s.pmm_bitmap + i / 8),
    test_bit-clear_bit (s.mem (s.pmm_bitmap + i / 8)) (i % 8) (j % 8),
    same_page i j,
  )

module _ (i : ℕ) (s : Pmm) (bytes : IsBytes s.mem) where
  pub pmm_bitmap_set-IsBytes : IsBytes (pmm_bitmap_set i s).mem
  unfolding pmm_bitmap_set
  pmm_bitmap_set-IsBytes a =
      ground (arith, bytes a, set_bit-lt (s.mem (s.pmm_bitmap + i / 8)) (i % 8))

  pub pmm_bitmap_clear-IsBytes : IsBytes (pmm_bitmap_clear i s).mem
  unfolding pmm_bitmap_clear
  pmm_bitmap_clear-IsBytes a = ground (
    arith,
    bytes a,
    bytes (s.pmm_bitmap + i / 8),
    clear_bit-lt (s.mem (s.pmm_bitmap + i / 8)) (i % 8),
  )
