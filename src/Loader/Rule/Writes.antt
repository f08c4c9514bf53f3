-- ===== src/Loader/Rule/Writes.antt =====
-- The kernel's classes of operations, as the loader reads them.
use pgsleuth.Base.{ℕ, ◌≡◌, ◌↔◌, true, ◌&&◌, ◌||◌, List, [], ◌∷◌, arith, ◌==◌, any}
use mathlib.Core.Bool.{Bool}
use pgsleuth.Ebpf.Events.{to_u8, write_flush}
use pgsleuth.Ebpf.Block.{classify_rwbs, first_byte}
use pgsleuth.Loader.Rule.{is_write}

-- The flags of a flush or of a forced unit access.
abbrev pub has_flush : List ℕ → Bool
has_flush rwbs = any (λ c. c == b'F' || c == b'A') rwbs

abbrev pub starts_write : List ℕ → Bool
starts_write rwbs = first_byte rwbs == b'W' || first_byte rwbs == b'F'

-- The rule keeps the sample of a request exactly when its flags start with W or F, and the kernel has classed it a flush exactly when they also hold an F or an A.
pub is_write-classify_rwbs :
    (rwbs : List ℕ)
    → (is_write (classify_rwbs rwbs) ≡ starts_write rwbs)
      × ((classify_rwbs rwbs ≡ to_u8 write_flush) ↔ ((starts_write rwbs && has_flush rwbs) ≡ true))
unfolding is_write classify_rwbs to_u8
is_write-classify_rwbs [] = ground arith
is_write-classify_rwbs (c ∷ cs) = ground arith
