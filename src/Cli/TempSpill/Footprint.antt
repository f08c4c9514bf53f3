-- ===== src/Cli/TempSpill/Footprint.antt =====
-- The footprint and the sample.
use pgsleuth.Base.{
  ℕ, ◌+◌, ◌≤◌, min, String, ◌≡◌, refl, ap, ◌∙◌, Option, none, some, List, [], ◌∷◌, arith,
  if◌then◌else◌, u64_max, unwrap_or,
}
use mathlib.Core.List.{Perm, Permᴰ}
use mathlib.Core.Logic.{∥∥₁_elim}
use mathlib.Core.Path.{ap₂}
use native.Mathlib.Nat.{ℕ_set}
use pgsleuth.Cli.TempSpill.{DirEntry, FileSystem, join, add_entry, add_entries, footprint}

-- The bytes of the regular files whose metadata can be read.
abbrev pub size : Option DirEntry → ℕ
size none = 0
size (some e) = if e.is_file then unwrap_or e.metadata_len 0 else 0

abbrev pub total_size : List (Option DirEntry) → ℕ
total_size [] = 0
total_size (e ∷ es) = size e + total_size es

add_entry_lem :
    (total : ℕ) (e : Option DirEntry)
    → total ≤ u64_max
    → add_entry total e ≡ min (total + size e) u64_max
unfolding add_entry
add_entry_lem total none h = omega arith
add_entry_lem total (some e) h = ground arith

add_entries-total_size :
    (total : ℕ) (es : List (Option DirEntry))
    → total ≤ u64_max
    → add_entries total es ≡ min (total + total_size es) u64_max
unfolding add_entries
add_entries-total_size total [] h = omega arith
add_entries-total_size total (e ∷ es) h = omega (
  arith,
  add_entry_lem total e h,
  add_entries-total_size (add_entry total e) es (omega (arith, add_entry_lem total e h)),
)

-- The footprint of a directory that is there is the size of the regular files below it whose metadata can be read, held at u64's largest value; entries that fail count nothing. Without the directory it is 0.
pub footprint_total :
    (fs : FileSystem) (pgdata : String)
    → footprint fs pgdata ≡ (
        if fs.exists (join pgdata "base/pgsql_tmp")
        then min (total_size (fs.walk (join pgdata "base/pgsql_tmp"))) u64_max
        else 0)
unfolding footprint
footprint_total fs pgdata =
    ground (arith, add_entries-total_size 0 (fs.walk (join pgdata "base/pgsql_tmp")) (omega arith))

total_size-Permᴰ : {es es' : List (Option DirEntry)} → Permᴰ es es' → total_size es ≡ total_size es'
total_size-Permᴰ Permᴰ.nil = refl
total_size-Permᴰ (Permᴰ.cons e p) = ap₂ (λ a n. size a + n) e (total_size-Permᴰ p)
total_size-Permᴰ (Permᴰ.swap e f) = omega (arith, ap size e, ap size f)
total_size-Permᴰ (Permᴰ.trans p q) = total_size-Permᴰ p ∙ total_size-Permᴰ q

-- The order of the walk does not matter: two file systems that agree on whether the directory is there, and walk the same entries in any order, have one footprint.
pub footprint_order :
    (fs fs' : FileSystem) (pgdata : String)
    → fs.exists (join pgdata "base/pgsql_tmp") ≡ fs'.exists (join pgdata "base/pgsql_tmp")
    → Perm (fs.walk (join pgdata "base/pgsql_tmp")) (fs'.walk (join pgdata "base/pgsql_tmp"))
    → footprint fs pgdata ≡ footprint fs' pgdata
footprint_order fs fs' pgdata e p =
    let same = ∥∥₁_elim p (ℕ_set _ _) total_size-Permᴰ in
    rw (footprint_total fs pgdata, footprint_total fs' pgdata, e, same)
