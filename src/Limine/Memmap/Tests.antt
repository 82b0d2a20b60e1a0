-- ===== src/Limine/Memmap/Tests.antt =====
-- Runs on small memory maps.
use orionis_os.Base.{ℕ, ◌≡◌, ◌≤◌, ◌<◌, get_or, refl, true, some, List, [], ◌∷◌, arith}
use orionis_os.Limine.Memmap.{
  Entry, no_entry, done, out_of_bounds, align_entry, trim, memmap_alloc_range, sanitise_entries,
  sanitise_loop, trim_loop, above_base, sort_loop, min_index, swap, merge_loop, contiguous,
  contains,
}
use orionis_os.Limine.Memmap.Align.{Aligned, align_entry-Aligned, align_entry_empty}
use orionis_os.Limine.Memmap.Trim.{Trimmed, holds, trim-Trimmed, trim_enclosed}
use orionis_os.Limine.Memmap.Sorted.{sort_loop-sorted}
use orionis_os.Limine.Memmap.Sort.{sort_loop-tally, merge_loop-tally}
use orionis_os.Limine.Memmap.Range.{tally, Moved, memmap_alloc_range-Moved}

abbrev low_memory : Entry
low_memory = record { base = 0; length = 0x9FC00; type = 1 }

abbrev high_memory : Entry
high_memory = record { base = 0x100000; length = 0x200000; type = 1 }

abbrev acpi : Entry
acpi = record { base = 0x2FF000; length = 0x2000; type = 3 }

abbrev inner_memory : Entry
inner_memory = record { base = 0x2FF800; length = 0x800; type = 1 }

abbrev bios_map : List Entry
bios_map = acpi ∷ low_memory ∷ high_memory ∷ []

abbrev clean_map : List Entry
clean_map = record { base = 0x100000; length = 0x1FF000; type = 1 } ∷ acpi ∷ []

sanitise_run : sanitise_entries bios_map ≡ done clean_map
unfolding sanitise_entries sanitise_loop trim_loop trim align_entry above_base sort_loop min_index
    swap merge_loop contiguous contains
sanitise_run = refl

-- A map without memory above 1 MiB.
sanitise_empty : sanitise_entries (low_memory ∷ []) ≡ out_of_bounds
unfolding sanitise_entries sanitise_loop trim_loop trim align_entry above_base sort_loop min_index
    swap merge_loop contiguous contains
sanitise_empty = refl

align_entry-Aligned_example : Aligned 0xFF800 0x4000 (align_entry 0xFF800 0x4000)
align_entry-Aligned_example = align_entry-Aligned 0xFF800 0x4000 (omega arith)

align_entry_empty_run : align_entry 0x100800 0x1000 ≡ some (0x101000, 0)
unfolding sanitise_entries sanitise_loop trim_loop trim align_entry above_base sort_loop min_index
    swap merge_loop contiguous contains
align_entry_empty_run =
    align_entry_empty 0x100800 0x1000 (omega arith) (omega arith) (omega arith) refl

trim-Trimmed_example : Trimmed high_memory acpi (trim high_memory acpi)
unfolding sanitise_entries sanitise_loop trim_loop trim align_entry above_base sort_loop min_index
    swap merge_loop contiguous contains
trim-Trimmed_example =
    trim-Trimmed high_memory acpi (omega arith) (omega arith) (omega arith) (omega arith) refl

trim_enclosed_run :
    (trim inner_memory acpi ≡ done inner_memory)
    × ((a : ℕ) → holds inner_memory a ≡ true → holds acpi a ≡ true)
unfolding sanitise_entries sanitise_loop trim_loop trim align_entry above_base sort_loop min_index
    swap merge_loop contiguous contains
trim_enclosed_run = trim_enclosed inner_memory acpi (omega arith) (omega arith) refl

memmap_alloc_range-Moved_example :
    (es' : List Entry) × (memmap_alloc_range 0x200000 0x1000 0x1001 clean_map ≡ done es')
    × Moved 0x200000 0x1000 0x1001 clean_map es'
unfolding sanitise_entries sanitise_loop trim_loop trim align_entry above_base sort_loop min_index
    swap merge_loop contiguous contains
memmap_alloc_range-Moved_example =
    memmap_alloc_range-Moved 0x200000 0x1000 0x1001 0 clean_map (omega arith, (omega arith, tt))
      (omega arith) (omega arith) refl (omega arith)

abbrev loader_map : List Entry
loader_map =
    record { base = 0x3000; length = 0x1000; type = 0x1000 }
    ∷ record { base = 0x1000; length = 0x2000; type = 0x1000 }
    ∷ record { base = 0x4000; length = 0x2000; type = 1 }
    ∷ []

abbrev sorted_map : List Entry
sorted_map =
    record { base = 0x1000; length = 0x2000; type = 0x1000 }
    ∷ record { base = 0x3000; length = 0x1000; type = 0x1000 }
    ∷ record { base = 0x4000; length = 0x2000; type = 1 }
    ∷ []

sort_run : sort_loop 2 0 loader_map ≡ sorted_map
unfolding sort_loop min_index swap
sort_run = refl

merge_run :
    merge_loop 2 0 sorted_map
    ≡ record { base = 0x1000; length = 0x3000; type = 0x1000 }
      ∷ record { base = 0x4000; length = 0x2000; type = 1 }
      ∷ []
unfolding merge_loop contiguous
merge_run = refl

sort_loop-tally_run :
    tally 0x1000 0x3800 (sort_loop 2 0 loader_map) ≡ tally 0x1000 0x3800 loader_map
sort_loop-tally_run = sort_loop-tally 0x1000 0x3800 2 0 loader_map (omega arith)

merge_loop-tally_run :
    tally 0x1000 0x3800 (merge_loop 2 0 sorted_map) ≡ tally 0x1000 0x3800 sorted_map
merge_loop-tally_run =
    merge_loop-tally 0x1000 0x3800 2 0 sorted_map (omega arith, (omega arith, (omega arith, tt)))
      (omega arith)

sort_loop-sorted_example :
    ((i j : ℕ)
      → i ≤ j
      → j < 3
      → (get_or (sort_loop 2 0 loader_map) i no_entry).base
        ≤ (get_or (sort_loop 2 0 loader_map) j no_entry).base)
    × ((t a : ℕ) → tally t a (sort_loop 2 0 loader_map) ≡ tally t a loader_map)
sort_loop-sorted_example = sort_loop-sorted loader_map (omega arith)
