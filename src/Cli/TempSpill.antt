-- ===== src/Cli/TempSpill.antt =====
-- crates/pgsleuth-cli/src/temp_spill.rs: the sample of the temp-file area, and its thresholds.
pub mod Report
pub mod Threshold
pub mod Footprint
pub mod Latch
pub mod Evidence
mod Tests
use pgsleuth.Base.{
  ℕ, ◌/◌, code, String, ◌<>◌, Bool, false, not, ◌&&◌, Option, none, some, List, [], ◌∷◌, ltb, ◌==◌,
  if◌then◌else◌, u8_max, u64_max, u128_max, saturating_add, saturating_mul, unwrap_or, try_from,
  Result, ◌>>=◌, context, ok,
}

pub record TempSpillConfig : Type 0 where
  pub pgdata : String
  pub footprint_threshold_bytes : ℕ  -- u64
  pub free_threshold_pct : ℕ  -- u8
  pub interval : ℕ  -- milliseconds
  pub pg_instance_id : String

pub record TempSpillSample : Type 0 where
  pub footprint_bytes : ℕ  -- u64
  pub mount_total_bytes : ℕ  -- u64
  pub mount_available_bytes : ℕ  -- u64

pub data BreachReason : Type 0 where
  -- bytes, threshold_bytes
  footprint_over : ℕ → ℕ → BreachReason
  -- free_pct, threshold_pct
  free_space : ℕ → ℕ → BreachReason

unfoldable pub free_pct : TempSpillSample → ℕ
free_pct s =
    if s.mount_total_bytes == 0
    then 100
    else let pct = saturating_mul u128_max s.mount_available_bytes 100 / s.mount_total_bytes in
      unwrap_or (try_from u8_max pct) u8_max

unfoldable pub breaches : TempSpillSample → TempSpillConfig → Option BreachReason
breaches s cfg =
    if ltb cfg.footprint_threshold_bytes s.footprint_bytes
    then some (footprint_over s.footprint_bytes cfg.footprint_threshold_bytes)
    else if ltb 0 cfg.free_threshold_pct && ltb (free_pct s) cfg.free_threshold_pct
    then some (free_space (free_pct s) cfg.free_threshold_pct)
    else none

-- What `walkdir` yields for a file below the root.
pub record DirEntry : Type 0 where
  pub is_file : Bool
  pub metadata_len : Option ℕ

-- nix::sys::statvfs::Statvfs
pub record Statvfs : Type 0 where
  pub fragment_size : ℕ
  pub blocks : ℕ
  pub blocks_available : ℕ

-- What the poller asks of the operating system; `none` stands for an error.
pub record FileSystem : Type 0 where
  pub exists : String → Bool
  pub walk : String → List (Option DirEntry)
  pub statvfs : String → Option Statvfs

needs_separator : String → Bool
needs_separator String.[] = false
needs_separator (String.◌∷◌ c String.[]) = not (code c == b'/')
needs_separator (String.◌∷◌ c (String.◌∷◌ d s)) = needs_separator (String.◌∷◌ d s)

-- `Path::join` of a relative path.
unfoldable pub join : String → String → String
unfolding needs_separator
join path rest = if needs_separator path then path <> "/" <> rest else path <> rest

-- The body of `footprint`'s loop.
unfoldable pub add_entry : ℕ → Option DirEntry → ℕ
add_entry total none = total
add_entry total (some e) =
    if e.is_file
    then elim e.metadata_len [ none ↦ total | some len ↦ saturating_add u64_max total len ]
    else total

unfoldable pub add_entries : ℕ → List (Option DirEntry) → ℕ
add_entries total [] = total
add_entries total (e ∷ es) = add_entries (add_entry total e) es

unfoldable pub footprint : FileSystem → String → ℕ
footprint fs pgdata =
    let tmp_dir = join pgdata "base/pgsql_tmp" in
    if not (fs.exists tmp_dir) then 0 else add_entries 0 (fs.walk tmp_dir)

unfoldable pub mount_capacity : FileSystem → String → Result (ℕ × ℕ)
mount_capacity fs pgdata = do
  let tmp_dir = join pgdata "base/pgsql_tmp"
  let target = if fs.exists tmp_dir then tmp_dir else join pgdata "base"
  v ← context (fs.statvfs target) ("statvfs(" <> target <> ") failed")
  ok (
    saturating_mul u64_max v.fragment_size v.blocks,
    saturating_mul u64_max v.fragment_size v.blocks_available,
  )

unfoldable pub sample : FileSystem → String → Result TempSpillSample
sample fs pgdata = do
  let footprint_bytes = footprint fs pgdata
  (total, available) ← mount_capacity fs pgdata
  ok (record {
    footprint_bytes = footprint_bytes;
    mount_total_bytes = total;
    mount_available_bytes = available;
  })
