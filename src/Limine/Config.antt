-- ===== src/Limine/Config.antt =====
-- The configuration: limine/stage2/lib/config.c, and `uri_open` of limine/stage2/lib/blib.c. The text from
-- `config_addr` up to its byte 0 is a list of characters, and so is every string. Reading the file is a
-- parameter of `uri_open`.
pub mod Values
pub mod Resolve
mod Tests
use orionis_os.Base.{
  ℕ, zero, suc, ◌+◌, ◌-◌, Bool, true, false, Option, none, some, List, [], ◌∷◌, ◌++◌, ltb, ◌==◌,
  ◌&&◌, take, if◌then◌else◌,
}
use orionis_os.Base.Text.{codes}
use orionis_os.Limine.Blib.{split_at, parse_bios_partition}
use orionis_os.Limine.Memmap.{Outcome, done, panic, out_of_bounds}

abbrev pub separator : ℕ
separator = b'\n'

-- The loop of `init_config` over the bytes of the file and the byte behind it. The character that comes to
-- the place of a carriage return is not looked at.
unfoldable pub remove_returns : List ℕ → List ℕ
remove_returns [] = []
remove_returns (c ∷ []) = if c == b'\r' then [] else c ∷ []
remove_returns (c ∷ d ∷ s) = elim (c == b'\r') [
  | true ↦ d ∷ remove_returns s
  | false ↦ c ∷ remove_returns (d ∷ s)
]

-- What stands behind the colon of the entry with an index; `start` says that a line begins here.
unfoldable pub find_entry : ℕ → Bool → List ℕ → Option (List ℕ)
find_entry index start [] = none
find_entry index start (c ∷ s) = elim (c == b':' && start) [
  | false ↦ find_entry index (c == separator) s
  | true ↦ elim (index == 0) [ true ↦ some s | false ↦ find_entry (index - 1) false s ]
]

unfoldable pub line_of : List ℕ → List ℕ
line_of [] = []
line_of (c ∷ s) = let rest = line_of s in if c == separator then [] else c ∷ rest

-- The string that is copied; the C code goes on behind the end of the text, but the byte 0 there ends the
-- string.
unfoldable pub config_get_entry_name : ℕ → ℕ → List ℕ → Option (List ℕ)
config_get_entry_name index limit config = elim (find_entry index true config) [
  | none ↦ none
  | some s ↦ some (take (limit - 1) (line_of s))
]

-- The text in front of the next entry.
unfoldable pub until_entry : Bool → List ℕ → List ℕ
until_entry start [] = []
until_entry start (c ∷ s) =
    let rest = until_entry (c == separator) s in if c == b':' && start then [] else c ∷ rest

unfoldable pub config_set_entry : ℕ → List ℕ → Option (List ℕ)
config_set_entry index config = elim (find_entry index true config) [
  | none ↦ none
  | some s ↦ some (until_entry false s)
]

-- `strncmp` with the key, and the equals sign.
unfoldable pub after_key : List ℕ → List ℕ → Option (List ℕ)
after_key key [] = none
after_key [] (c ∷ s) = if c == b'=' then some s else none
after_key (k ∷ key) (c ∷ s) = let rest = after_key key s in if c == k then rest else none

-- What stands behind the equals sign of the key for the time `index`.
pub find_value : List ℕ → ℕ → Bool → List ℕ → Option (List ℕ)
find_value key index start [] = none
find_value key index start (c ∷ s) = elim (after_key key (c ∷ s)) [
  | none ↦ find_value key index (c == separator) s
  | some value ↦ elim start [
    | false ↦ find_value key index (c == separator) s
    | true ↦ elim (index == 0) [
      | true ↦ some value
      | false ↦ find_value key (index - 1) (c == separator) s
    ]
  ]
]

pub config_get_value : ℕ → ℕ → List ℕ → List ℕ → Option (List ℕ)
config_get_value index limit key config =
    if limit == 0 then none else elim (find_value key index true config) [
      | none ↦ none
      | some value ↦ some (take (limit - 1) (line_of value))
    ]

-- What stands behind `://`.
abbrev pub after_slashes : List ℕ → Option (List ℕ)
after_slashes (a ∷ b ∷ c ∷ s) = if a == b':' && (b == b'/' && c == b'/') then some s else none
after_slashes _ = none

-- The text in front of the first `://`, and that behind it.
unfoldable pub split_resource : List ℕ → Option (List ℕ × List ℕ)
split_resource [] = none
split_resource (c ∷ s) = elim (after_slashes (c ∷ s)) [
  | some rest ↦ some ([], rest)
  | none ↦ elim (split_resource s) [
    | none ↦ none
    | some (before, behind) ↦ some (c ∷ before, behind)
  ]
]

-- The resource, the root and the path, of which those that are not found are null pointers. The result is
-- true when all are found.
pub record Uri : Type 0 where
  pub resource : Option (List ℕ)
  pub root : Option (List ℕ)
  pub path : Option (List ℕ)

abbrev pub path_of : List ℕ → Option (List ℕ)
path_of [] = none
path_of (c ∷ s) = some (c ∷ s)

pub config_resolve_uri : List ℕ → Uri
config_resolve_uri uri = elim (split_resource uri) [
  | none ↦ record { resource = none; root = none; path = none }
  | some (resource, rest) ↦ elim (split_at b'/' rest) [
    | none ↦ record { resource = some resource; root = none; path = none }
    | some (root, path) ↦ record { resource = some resource; root = some root; path = path_of path }
  ]
]

unfoldable pub same_text : List ℕ → List ℕ → Bool
same_text [] [] = true
same_text (c ∷ s) (d ∷ t) = c == d && same_text s t
same_text _ _ = false

-- `fopen` says whether it opens the path on the partition of the drive.
abbrev pub uri_bios_dispatch :
    (ℕ → ℕ → List ℕ → Bool) → ℕ → Option (List ℕ) → Option (List ℕ) → Outcome Bool
uri_bios_dispatch fopen boot_drive none path = out_of_bounds
uri_bios_dispatch fopen boot_drive (some root) path = elim (parse_bios_partition boot_drive root) [
  | none ↦ done false
  | some (drive, partition) ↦ elim path [
    | none ↦ out_of_bounds
    | some file ↦ done (fopen drive partition file)
  ]
]

-- It does not look at the result of `config_resolve_uri`; the use of a null pointer is `out_of_bounds`.
unfoldable pub open_uri : (ℕ → ℕ → List ℕ → Bool) → ℕ → Uri → Outcome Bool
open_uri fopen boot_drive u = elim u.resource [
  | none ↦ out_of_bounds
  | some resource ↦ elim (same_text resource (codes "bios")) [
    | false ↦ panic
    | true ↦ uri_bios_dispatch fopen boot_drive u.root u.path
  ]
]

pub uri_open : (ℕ → ℕ → List ℕ → Bool) → ℕ → List ℕ → Outcome Bool
uri_open fopen boot_drive uri = open_uri fopen boot_drive (config_resolve_uri uri)
