-- ===== src/Limine/Config/Tests.antt =====
-- A configuration of two entries.
use orionis_os.Base.{ℕ, ◌≡◌, ◌++◌, List, ◌∷◌, [], get_elem?, refl, arith, some, true, ◌==◌}
use orionis_os.Base.Text.{codes}
use orionis_os.Limine.Config.{
  remove_returns, find_entry, line_of, config_get_entry_name, until_entry, config_set_entry,
  config_get_value, uri_open,
}
use orionis_os.Limine.Config.Resolve.{uri_open-bios}
use orionis_os.Limine.Config.Values.{text_of, values, cut, config_get_value-values}
use orionis_os.Limine.Memmap.{done}
use orionis_os.Limine.Print.Expansion.{decimal}

abbrev lines : List (List ℕ)
lines =
    codes "TIMEOUT=5"
    ∷ []
    ∷ codes ":Orionis"
    ∷ codes "PATH=a"
    ∷ codes "PATH=b"
    ∷ codes ":Other"
    ∷ []

name_run : config_get_entry_name 1 20 (text_of lines) ≡ some (codes "Other")
unfolding config_get_entry_name find_entry line_of
name_run = refl

entry_run : config_set_entry 0 (text_of lines) ≡ some (codes "Orionis\nPATH=a\nPATH=b\n")
unfolding config_set_entry find_entry until_entry
entry_run = refl

-- The second of two carriage returns stays.
returns_run : remove_returns (codes "a\r\r\n") ≡ codes "a\r\n"
unfolding remove_returns
returns_run = refl

config_get_value-values_example :
    config_get_value 1 10 (codes "PATH") (text_of lines)
    ≡ cut 10 (get_elem? (values (codes "PATH") lines) 1)
config_get_value-values_example =
    config_get_value-values 1 10 (codes "PATH") lines (omega arith) (omega arith) (omega arith)

uri_open-bios_example :
    uri_open
      (λ drive partition path. partition == 2)
      0x80
      (codes "bios"
        ++ codes "://"
        ++ (decimal 129 ++ b':' ∷ decimal 2 ++ b'/' ∷ b'k' ∷ codes "ernel"))
    ≡ done true
uri_open-bios_example =
    uri_open-bios (λ drive partition path. partition == 2) 0x80 129 2 b'k' (codes "ernel")
      (omega arith) (omega arith)
