-- ===== src/Limine/Config/Resolve.antt =====
-- A URI is taken apart where it was put together.
use orionis_os.Base.{
  ap, ◌∙◌, ℕ, ◌≡◌, ◌≢◌, ◌<◌, refl, arith, false, Bool, none, some, List, [], ◌∷◌, ◌++◌, All, ◌==◌,
}
use orionis_os.Base.Text.{codes}
use orionis_os.Limine.Blib.Numbers.{split_at_lem, parse_bios_partition-decimal, decimal-All}
use orionis_os.Limine.Config.{
  after_slashes, split_resource, config_resolve_uri, uri_bios_dispatch, same_text, open_uri,
  uri_open,
}
use orionis_os.Limine.Memmap.{done}
use orionis_os.Limine.Print.Expansion.{decimal}

no_slashes : (c : ℕ) (s : List ℕ) → c ≢ b':' → after_slashes (c ∷ s) ≡ none
no_slashes c [] ne = refl
no_slashes c (d ∷ []) ne = refl
no_slashes c (d ∷ e ∷ s) ne = let other : (c == b':') ≡ false = ground (arith, ne) in rw other refl

split_resource_lem :
    (s rest : List ℕ)
    → All (λ c. c ≢ b':') s
    → split_resource (s ++ codes "://" ++ rest) ≡ some (s, rest)
unfolding split_resource
split_resource_lem [] rest h = refl
split_resource_lem (c ∷ s) rest (ne, h) =
    rw (split_resource, no_slashes c (s ++ codes "://" ++ rest) ne, split_resource_lem s rest h)
      refl

-- A resource without a colon, a root without a slash and a path that is not empty are found again.
pub config_resolve_uri-join :
    (resource root path : List ℕ) (c : ℕ)
    → All (λ d. d ≢ b':') resource
    → All (λ d. d ≢ b'/') root
    → config_resolve_uri (resource ++ codes "://" ++ (root ++ b'/' ∷ c ∷ path))
      ≡ record { resource = some resource; root = some root; path = some (c ∷ path) }
unfolding config_resolve_uri
config_resolve_uri-join resource root path c h h' =
    rw
      (
        config_resolve_uri,
        split_resource_lem resource (root ++ b'/' ∷ c ∷ path) h,
        split_at_lem b'/' root (c ∷ path) h',
      )
      refl

All-append :
    (c : ℕ) (s t : List ℕ) → All (λ d. d ≢ c) s → All (λ d. d ≢ c) t → All (λ d. d ≢ c) (s ++ t)
All-append c [] t h h' = h'
All-append c (d ∷ s) t (ne, h) h' = (ne, All-append c s t h h')

dispatch_lem :
    (fopen : ℕ → ℕ → List ℕ → Bool) (boot_drive drive partition : ℕ) (path : List ℕ)
    → drive < 256
    → partition < 256
    → uri_bios_dispatch fopen boot_drive
        (some (decimal drive ++ b':' ∷ decimal partition))
        (some path)
      ≡ done (fopen drive partition path)
dispatch_lem fopen boot_drive drive partition path small small' =
    rw (uri_bios_dispatch, parse_bios_partition-decimal boot_drive drive partition small small')
      refl

-- A URI of the BIOS with the numbers of the drive and of the partition, each of a byte, and a path opens
-- that path on that partition of that drive.
pub uri_open-bios :
    (fopen : ℕ → ℕ → List ℕ → Bool) (boot_drive drive partition c : ℕ) (path : List ℕ)
    → drive < 256
    → partition < 256
    → uri_open fopen boot_drive (
        codes "bios"
        ++ codes "://"
        ++ (decimal drive ++ b':' ∷ decimal partition ++ b'/' ∷ c ∷ path))
      ≡ done (fopen drive partition (c ∷ path))
unfolding uri_open same_text open_uri
uri_open-bios fopen boot_drive drive partition c path small small' =
    let root =
      All-append b'/' (decimal drive) (b':' ∷ decimal partition)
        (decimal-All b'/' drive (omega arith) (omega arith))
        (omega arith, decimal-All b'/' partition (omega arith) (omega arith)) in
    ap (open_uri fopen boot_drive) (
      config_resolve_uri-join (codes "bios") (decimal drive ++ b':' ∷ decimal partition) path c
        (omega arith) root)
    ∙ dispatch_lem fopen boot_drive drive partition (c ∷ path) small small'
