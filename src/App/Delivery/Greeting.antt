-- ===== src/App/Delivery/Greeting.antt =====
-- HELLO, and the manifest that it carries.
use beam_drop.Prelude.{
  ℕ, ◌+◌, ◌<◌, ◌^◌, List, [], ◌∷◌, ◌++◌, arith, Bytes, length, length-append, All, All-append,
}
use beam_drop.Text.{codes, decimal}
use beam_drop.Text.Number.{length-decimal}
use beam_drop.Filesystem.{FileEntry, DirectoryEntry}
use beam_drop.Protocol.{IsByte}
use beam_drop.Payload.Manifest
use beam_drop.Payload.Manifest.{TransferManifest}
use beam_drop.Transfer.Wire.{decimal-IsByte}
use beam_drop.App.Request.{total_entry_bytes, add_sizes}

-- The manifest of what is sent.
abbrev pub manifest_of : List FileEntry → List DirectoryEntry → TransferManifest
manifest_of entries directories = record {
  file_count = length entries;
  total_bytes = total_entry_bytes entries;
  directory_count = length directories;
}

-- A manifest on the wire.
pub manifest_fits : (m : TransferManifest) → 52 + length (Manifest.encode m) < 2 ^ 64
unfolding Manifest.encode
manifest_fits m =
    let last : Bytes = b'\n' ∷ [] in
    let third : Bytes = b'\n' ∷ (codes "directory_count=" ++ (decimal m.directory_count ++ last)) in
    let second : Bytes = b'\n' ∷ (codes "total_bytes=" ++ (decimal m.total_bytes ++ third)) in
    let a = length-append (decimal m.file_count) second in
    let b = length-append (decimal m.total_bytes) third in
    let c = length-append (decimal m.directory_count) last in
    let d = length-decimal m.file_count in
    let e = length-decimal m.total_bytes in let f = length-decimal m.directory_count in omega arith

pub manifest-IsByte : (m : TransferManifest) → All IsByte (Manifest.encode m)
unfolding Manifest.encode
manifest-IsByte m = line (codes "beamdrop-manifest-v2\nfile_count=") m.file_count _ (omega arith) (
    line (codes "\ntotal_bytes=") m.total_bytes _ (omega arith) (
      line (codes "\ndirectory_count=") m.directory_count (b'\n' ∷ []) (omega arith) (omega arith)))
  where
    line :
        (name : Bytes) (n : ℕ) (rest : Bytes)
        → All IsByte name
        → All IsByte rest
        → All IsByte (name ++ (decimal n ++ rest))
    line name n rest p q =
        All-append IsByte name _ p (All-append IsByte (decimal n) rest (decimal-IsByte n) q)

pub add_sizes-lt :
    (entries : List FileEntry) (total : ℕ) → total < 2 ^ 64 → add_sizes total entries < 2 ^ 64
unfolding add_sizes
add_sizes-lt [] total fits = fits
add_sizes-lt (entry ∷ entries) total fits = add_sizes-lt entries _ (omega arith)
