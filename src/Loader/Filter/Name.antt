-- ===== src/Loader/Filter/Name.antt =====
-- The name of the command line, as the kernel compares it.
use pgsleuth.Base.{
  ℕ, zero, suc, ◌≤◌, min, ◌≡◌, refl, ◌↔◌, true, not, ◌&&◌, List, [], ◌∷◌, arith, ◌==◌, length,
  replicate,
}
use mathlib.Core.Bool.{Bool}
use pgsleuth.Ebpf.Trace.Selection.{c_str, IsPrefix, name_matches-IsPrefix, IsPrefix-name_matches}
use pgsleuth.Ebpf.Trace.{name_matches}
use pgsleuth.Loader.Filter.{copy_from_slice, name_bytes}

abbrev pub take {ℓ} : {A : Type ℓ} → ℕ → List A → List A
take zero xs = []
take (suc n) [] = []
take (suc n) (x ∷ xs) = x ∷ take n xs

-- No byte of it is 0, as none of a command line is.
abbrev pub no_nul : List ℕ → Bool
no_nul [] = true
no_nul (b ∷ bs) = not (b == 0) && no_nul bs

c_str-replicate : (n : ℕ) → c_str (replicate n 0) ≡ []
c_str-replicate zero = refl
c_str-replicate (suc n) = refl

c_str-copy_from_slice :
    (len n : ℕ) (src : List ℕ)
    → len ≤ length src
    → len ≤ n
    → no_nul src ≡ true
    → c_str (copy_from_slice len src (replicate n 0)) ≡ take len src
unfolding copy_from_slice
c_str-copy_from_slice zero n src h k z = c_str-replicate n
c_str-copy_from_slice (suc len) n [] h k z = absurd (omega arith)
c_str-copy_from_slice (suc len) zero (b ∷ src) h k z = absurd (omega arith)
c_str-copy_from_slice (suc len) (suc n) (b ∷ src) h k z =
    ground (arith, c_str-copy_from_slice len n src)

c_str-name_bytes :
    (name : List ℕ)
    → no_nul name ≡ true
    → c_str (name_bytes name) ≡ take (min (length name) 15) name
unfolding name_bytes
c_str-name_bytes name z =
    c_str-copy_from_slice (min (length name) 15) 16 name (omega arith) (omega arith) z

-- The kernel matches a name without a 0 byte against the commands that its first 15 bytes are a prefix of, its own length or not.
pub name_matches-name_bytes :
    (name comm : List ℕ)
    → no_nul name ≡ true
    → (name_matches (name_bytes name) comm ≡ true)
      ↔ IsPrefix (take (min (length name) 15) name) comm
name_matches-name_bytes name comm z =
    rw (← c_str-name_bytes name z)
      (name_matches-IsPrefix (name_bytes name) comm, IsPrefix-name_matches (name_bytes name) comm)
