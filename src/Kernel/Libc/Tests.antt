-- ===== src/Kernel/Libc/Tests.antt =====
-- Runs of the string and memory functions.
use orionis_os.Base.{ℕ, ◌≡◌, inr, List, [], ◌∷◌, some, arith, get_or, take}
use orionis_os.Kernel.Libc.{strcpy, strcmp, strncmp, strlen, memmove}
use orionis_os.Kernel.Libc.Memory.{memmove-lem}
use orionis_os.Kernel.Libc.Strings.{IsString, IsCopied, strcpy-IsCopied, strlen-length}
use orionis_os.Kernel.Libc.Compare.{dictionary, strcmp-dictionary, strncmp-dictionary}

-- "echo" at 0 and "echo hi" at 5.
abbrev bytes : ℕ → ℕ
bytes a = get_or (101 ∷ 99 ∷ 104 ∷ 111 ∷ 0 ∷ 101 ∷ 99 ∷ 104 ∷ 111 ∷ 32 ∷ 104 ∷ 105 ∷ 0 ∷ []) a 0

abbrev echo : List ℕ
echo = 101 ∷ 99 ∷ 104 ∷ 111 ∷ []

abbrev echo_hi : List ℕ
echo_hi = 101 ∷ 99 ∷ 104 ∷ 111 ∷ 32 ∷ 104 ∷ 105 ∷ []

echo-IsString : IsString bytes 0 echo
echo-IsString = omega arith

echo_hi-IsString : IsString bytes 5 echo_hi
echo_hi-IsString = omega arith

-- Two overlapping regions: the string at 5 moves one byte up.
memmove-lem_example : memmove 6 5 8 bytes 7 ≡ 99
memmove-lem_example = memmove-lem 6 5 8 bytes 7

strcmp-dictionary_example : strcmp 10 0 5 bytes ≡ some (dictionary echo echo_hi)
strcmp-dictionary_example =
    strcmp-dictionary 10 0 5 bytes echo echo_hi echo-IsString echo_hi-IsString (omega arith)

strncmp_run : strncmp 0 5 4 bytes ≡ dictionary (take 4 echo) (take 4 echo_hi)
strncmp_run = strncmp-dictionary 4 0 5 bytes echo echo_hi echo-IsString echo_hi-IsString

strcpy_run : (mem' : ℕ → ℕ) × (strcpy 10 20 5 bytes ≡ some mem') × IsCopied bytes 20 echo_hi mem'
strcpy_run =
    strcpy-IsCopied 10 20 5 bytes echo_hi echo_hi-IsString (inr (omega arith)) (omega arith)

strlen_run : strlen 20 5 bytes ≡ some 7
strlen_run = strlen-length 20 5 bytes echo_hi echo_hi-IsString (omega arith)
