-- ===== src/Limine/Disk/Reading.antt =====
-- `read` returns the bytes of the drive.
use orionis_os.Base.{
  ◌∙◌, ℕ, zero, suc, ◌+◌, ◌-◌, ◌*◌, ◌/◌, ◌%◌, ◌^◌, ◌≤◌, ◌<◌, ◌≡◌, ◌≢◌, inl, inr, refl, ap, sym,
  true, false, arith, ltb, leb, ◌==◌, ◌&&◌, Bool-cases, u64, if◌then◌else◌,
}
use native.Mathlib.Nat.{div-add-mod', div-le_self, mod-lt}
use orionis_os.Limine.Disk.{
  Bios, Cache, cache_invalid, block_size, cache_block, copy_in, chunk_of, read_loop, read,
}
use orionis_os.Limine.Memmap.{done}

-- The cache is empty or shows its block of the drive.
abbrev pub ShowsDrive : Bios → ℕ → Cache → Type 0
ShowsDrive bios drive c =
    (i : ℕ)
    → i < block_size (bios.bytes_per_sect drive)
    → c.cached_block ≢ cache_invalid
    → c.cache i ≡ bios.bytes drive (c.cached_block * block_size (bios.bytes_per_sect drive) + i)

-- Bytes of the drive, from `loc` on, stand at `buffer`, and no other byte of memory has changed.
pub record IsRead (bios : Bios) (drive buffer loc count : ℕ) (mem : ℕ → ℕ) (c' : Cache)
    (mem' : ℕ → ℕ) : Type 0 where
  pub shows : ShowsDrive bios drive c'
  pub bytes :
      (a : ℕ)
      → mem' a ≡ (
          if leb buffer a && ltb a (buffer + count)
          then bios.bytes drive (loc + (a - buffer))
          else mem a)

-- A chunk at the front of a region and the rest of it behind.
join_chunk :
    (dest chunk n src a v : ℕ) (f mem : ℕ → ℕ)
    → chunk ≤ n
    → (dest ≤ a → a < dest + chunk → v ≡ f (src + (a - dest)))
    → (if leb (dest + chunk) a && ltb a (dest + chunk + (n - chunk))
        then f (src + chunk + (a - (dest + chunk)))
        else (if leb dest a && ltb a (dest + chunk) then v else mem a))
      ≡ (if leb dest a && ltb a (dest + n) then f (src + (a - dest)) else mem a)
join_chunk dest chunk n src a v f mem le h =
    elim (Bool-cases (leb dest a && ltb a (dest + chunk))) [
      | inl front ↦ ground (arith, le, front, h (ground (arith, front)) (ground (arith, front)))
      | inr behind ↦
          let same : dest + chunk ≤ a → src + chunk + (a - (dest + chunk)) ≡ src + (a - dest) =
            λ x. omega arith in
          elim (Bool-cases (leb (dest + chunk) a)) [
            | inl far ↦
                let place = same (ground (arith, far)) in ground (arith, le, behind, far, place)
            | inr near ↦ ground (arith, le, behind, near)
          ]
    ]

-- The same region under other names of its ends.
same_region :
    (f mem : ℕ → ℕ) (a v b b' l l' n n' : ℕ)
    → b' ≡ b
    → l' ≡ l
    → n' ≡ n
    → v ≡ (if leb b a && ltb a (b + n) then f (l + (a - b)) else mem a)
    → v ≡ (if leb b' a && ltb a (b' + n') then f (l' + (a - b')) else mem a)
same_region f mem a v b b' l l' n n' p q r e = rw (p, q, r) e

chunk-bounds :
    (left size offset : ℕ)
    → 0 < left
    → offset < size
    → (0 < chunk_of left size offset)
      × (chunk_of left size offset ≤ left)
      × (offset + chunk_of left size offset ≤ size)
chunk-bounds left size offset some_left lt = (ground arith, ground arith, ground arith)

module _ (bios : Bios) (drive : ℕ) (some_bytes : 0 < bios.bytes_per_sect drive) where
  abbrev size : ℕ
  size = block_size (bios.bytes_per_sect drive)

  cache_block-ShowsDrive :
      (block : ℕ) (c : Cache)
      → block < cache_invalid
      → bios.can_read drive (block * 16) ≡ true
      → ShowsDrive bios drive c
      → (c' : Cache) × (cache_block bios drive block (bios.bytes_per_sect drive) c ≡ done c')
        × ((i : ℕ) → i < size → c'.cache i ≡ bios.bytes drive (block * size + i))
        × (c'.cached_block ≡ block)
  unfolding cache_block
  cache_block-ShowsDrive block c small good shows = elim (Bool-cases (block == c.cached_block)) [
    | inl hit ↦
        let same : c.cached_block ≡ block = ground (arith, hit) in
        (
          c,
          rw hit refl,
          λ i lt.
              shows i lt (λ e. omega (arith, e, same, small))
              ∙ ap (λ k. bios.bytes drive (k * size + i)) same,
          same,
        )
    | inr miss ↦ (
      record {
        cached_block = block;
        cache = λ i.
            if ltb i size
            then bios.bytes drive (block * 16 * bios.bytes_per_sect drive + i)
            else c.cache i;
      },
      rw (miss, good) refl,
      λ i lt.
          let here : ltb i size ≡ true = ground (arith, lt) in
          let start : block * 16 * bios.bytes_per_sect drive ≡ block * size = grind arith in
          rw (here, start) refl,
      refl,
    )
  ]

  -- What one round of the loop leaves in memory.
  module _ (buffer at left : ℕ) (some_left : 0 < left) (c : Cache)
      (shown : (i : ℕ) → i < size → c.cache i ≡ bios.bytes drive (at / size * size + i))
      (mem : ℕ → ℕ) where
    abbrev chunk : ℕ
    chunk = chunk_of left size (at % size)

    offset-lt : at % size < size
    offset-lt = mod-lt at (omega (arith, some_bytes))

    bounds : (0 < chunk) × (chunk ≤ left) × (at % size + chunk ≤ size)
    bounds = chunk-bounds left size (at % size) some_left offset-lt

    from_cache : (k : ℕ) → k < chunk → c.cache (at % size + k) ≡ bios.bytes drive (at + k)
    from_cache k lt =
        let place : at / size * size + (at % size + k) ≡ at + k =
          omega (arith, div-add-mod' at size) in
        shown (at % size + k) (omega (arith, bounds)) ∙ ap (bios.bytes drive) place

    round :
        (a : ℕ) (mem' : ℕ → ℕ)
        → mem' a ≡ (
            if leb (buffer + chunk) a && ltb a (buffer + chunk + (left - chunk))
            then bios.bytes drive (at + chunk + (a - (buffer + chunk)))
            else copy_in buffer (at % size) chunk c.cache mem a)
        → mem' a ≡ (
            if leb buffer a && ltb a (buffer + left)
            then bios.bytes drive (at + (a - buffer))
            else mem a)
    round a mem' e =
        e
        ∙ join_chunk buffer chunk left at a (c.cache (at % size + (a - buffer))) (bios.bytes drive)
            mem bounds.1 (λ low high. from_cache (a - buffer) (omega arith))

  -- Every block that holds a byte of the region can be read.
  abbrev pub AreReadable : ℕ → ℕ → Type 0
  AreReadable loc count =
      (block : ℕ)
      → block * size < loc + count
      → loc < (block + 1) * size
      → bios.can_read drive (block * 16) ≡ true

  read_loop-step :
      (fuel buffer loc count progress at : ℕ) (c c1 : Cache) (mem : ℕ → ℕ) (r : Cache × (ℕ → ℕ))
      → ltb progress count ≡ true
      → u64 (loc + progress) ≡ at
      → cache_block bios drive (at / size) (bios.bytes_per_sect drive) c ≡ done c1
      → read_loop fuel bios drive
          (bios.bytes_per_sect drive)
          buffer
          loc
          count
          (progress + chunk_of (count - progress) size (at % size))
          c1
          (copy_in
            (buffer + progress)
            (at % size)
            (chunk_of (count - progress) size (at % size))
            c1.cache
            mem)
        ≡ done r
      → read_loop (suc fuel) bios drive (bios.bytes_per_sect drive) buffer loc count progress c mem
        ≡ done r
  unfolding read_loop
  read_loop-step fuel buffer loc count progress at c c1 mem r more here cached reads =
      rw (more, here, cached, reads) refl

  read_loop-IsRead :
      (fuel buffer loc count progress : ℕ) (c : Cache) (mem : ℕ → ℕ)
      → AreReadable loc count
      → loc + count < 2 ^ 64
      → progress ≤ count
      → count ≤ progress + fuel
      → ShowsDrive bios drive c
      → (c' : Cache) × (mem' : ℕ → ℕ) × (read_loop fuel bios drive
            (bios.bytes_per_sect drive)
            buffer
            loc
            count
            progress
            c
            mem
          ≡ done (c', mem'))
        × IsRead bios drive (buffer + progress) (loc + progress) (count - progress) mem c' mem'
  unfolding read_loop
  read_loop-IsRead zero buffer loc count progress c mem good fits le enough shows =
      let end : ltb progress count ≡ false = ground arith in
      (c, mem, rw end refl, record { shows = shows; bytes = λ a. ground arith })
  read_loop-IsRead (suc fuel) buffer loc count progress c mem good fits le enough shows =
      elim (Bool-cases (ltb progress count)) [
        | inr end ↦
            (c, mem, rw end refl, record { shows = shows; bytes = λ a. ground (arith, end) })
        | inl more ↦
            let below : progress < count = ground (arith, more) in
            let at : u64 (loc + progress) ≡ loc + progress = ground (arith, more) in
            let block = (loc + progress) / size in
            let offset = (loc + progress) % size in
            let chunk = chunk_of (count - progress) size offset in
            let small : block < cache_invalid =
              omega (arith, div-le_self (loc + progress) size, fits, le, below) in
            let some_size : 0 < size = omega (arith, some_bytes) in
            let whole = div-add-mod' (loc + progress) size in
            let part = mod-lt (loc + progress) some_size in
            let start : block * size < loc + count = omega (arith, whole, below) in
            let end : loc < (block + 1) * size = grind (arith, whole, part) in
            let (c1, cached, shown, block1) =
              cache_block-ShowsDrive block c small (good block start end) shows in
            let some_left : 0 < count - progress = omega (arith, below) in
            let fit = bounds buffer (loc + progress) (count - progress) some_left c1 shown mem in
            let (c', mem', reads, isread) =
              read_loop-IsRead fuel buffer loc count (progress + chunk) c1
                (copy_in (buffer + progress) offset chunk c1.cache mem) good fits
                (omega (arith, fit)) (omega (arith, fit, enough))
                (λ i lt ne. shown i lt ∙ ap (λ k. bios.bytes drive (k * size + i)) (sym block1)) in
            (
              c',
              mem',
              read_loop-step fuel buffer loc count progress (loc + progress) c c1 mem (c', mem')
                  more at cached reads,
              record {
                shows = isread.shows;
                bytes = λ a.
                    round (buffer + progress) (loc + progress) (count - progress) some_left c1 shown
                      mem a mem'
                      (same_region (bios.bytes drive)
                        (copy_in (buffer + progress) offset chunk c1.cache mem) a (mem' a)
                        (buffer + (progress + chunk)) (buffer + progress + chunk)
                        (loc + (progress + chunk)) (loc + progress + chunk)
                        (count - (progress + chunk)) (count - progress - chunk) (omega arith)
                        (omega arith) (omega arith) (isread.bytes a));
              },
            )
      ]

  -- On a drive whose sectors are not empty, of which every block of 16 sectors that holds a byte of the
  -- region can be read, with a cache that is empty or shows its block of this drive, a region that ends
  -- below 2 ^ 64 and fuel for its bytes, `read` puts the bytes of the drive from `loc` on at `buffer`,
  -- changes no other byte, and leaves such a cache again.
  pub read-IsRead :
      (fuel buffer loc count : ℕ) (c : Cache) (mem : ℕ → ℕ)
      → bios.has_drive drive ≡ true
      → AreReadable loc count
      → loc + count < 2 ^ 64
      → count ≤ fuel
      → ShowsDrive bios drive c
      → (c' : Cache) × (mem' : ℕ → ℕ) × (read fuel bios drive buffer loc count c mem
          ≡ done (c', mem'))
        × IsRead bios drive buffer loc count mem c' mem'
  unfolding read
  read-IsRead fuel buffer loc count c mem there good fits enough shows =
      let (c', mem', reads, isread) =
        read_loop-IsRead fuel buffer loc count 0 c mem good fits (omega arith) (omega arith)
          shows in
      (
        c',
        mem',
        rw there reads,
        record {
          shows = isread.shows;
          bytes = λ a.
              same_region (bios.bytes drive) mem a (mem' a) (buffer + 0) buffer (loc + 0) loc
                (count - 0) count (omega arith) (omega arith) (omega arith) (isread.bytes a);
        },
      )
