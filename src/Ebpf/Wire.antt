-- ===== src/Ebpf/Wire.antt =====
-- The bytes of a `repr(C)` struct on a little-endian machine of 64 bits, as Rust's language lays them
-- out: the keys of crates/pgsleuth-ebpf-common are compared by them.
pub mod Structs
mod Tests
use pgsleuth.Base.{
  ℕ, zero, suc, ◌+◌, ◌-◌, ◌*◌, ◌/◌, ◌%◌, ◌^◌, ◌<◌, max, ◌≡◌, refl, ap, List, [], ◌∷◌, ◌++◌,
  append_assoc, arith, length, All,
}

-- The types of the fields; `array n` is `[u8; n]`.
pub data FieldType : Type 0 where
  u8 u32 u64 : FieldType
  array : ℕ → FieldType

abbrev pub Value : FieldType → Type 0
Value u8 = ℕ
Value u32 = ℕ
Value u64 = ℕ
Value (array n) = List ℕ

-- The values that a Rust value of the type can have.
abbrev pub InRange : (t : FieldType) → Value t → Type 0
InRange u8 n = n < 2 ^ 8
InRange u32 n = n < 2 ^ 32
InRange u64 n = n < 2 ^ 64
InRange (array n) bs = (length bs ≡ n) × All (λ b. b < 2 ^ 8) bs

abbrev size : FieldType → ℕ
size u8 = 1
size u32 = 4
size u64 = 8
size (array n) = n

abbrev align : FieldType → ℕ
align u8 = 1
align u32 = 4
align u64 = 8
align (array n) = 1

-- The values of a struct's fields.
abbrev pub Values : List FieldType → Type 0
Values [] = Unit
Values (t ∷ ts) = Value t × Values ts

abbrev pub AllInRange : (ts : List FieldType) → Values ts → Type 0
AllInRange [] vs = Unit
AllInRange (t ∷ ts) (v, vs) = InRange t v × AllInRange ts vs

abbrev le_bytes : ℕ → ℕ → List ℕ
le_bytes zero n = []
le_bytes (suc w) n = n % 256 ∷ le_bytes w (n / 256)

abbrev le_value : List ℕ → ℕ
le_value [] = 0
le_value (b ∷ bs) = b + 256 * le_value bs

abbrev field_bytes : (t : FieldType) → Value t → List ℕ
field_bytes u8 n = le_bytes 1 n
field_bytes u32 n = le_bytes 4 n
field_bytes u64 n = le_bytes 8 n
field_bytes (array n) bs = bs

abbrev field_value : (t : FieldType) → List ℕ → Value t
field_value u8 bs = le_value bs
field_value u32 bs = le_value bs
field_value u64 bs = le_value bs
field_value (array n) bs = bs

abbrev take : ℕ → List ℕ → List ℕ
take zero bs = []
take (suc n) [] = []
take (suc n) (b ∷ bs) = b ∷ take n bs

abbrev drop : ℕ → List ℕ → List ℕ
drop zero bs = bs
drop (suc n) [] = []
drop (suc n) (b ∷ bs) = drop n bs

-- How far it is from an offset to the next multiple of the alignment.
abbrev padding : ℕ → ℕ → ℕ
padding at a = (a - at % a) % a

-- The bytes of a gap are what the memory held.
abbrev gap : (ℕ → ℕ) → ℕ → ℕ → List ℕ
gap memory at zero = []
gap memory at (suc n) = memory at ∷ gap memory (at + 1) n

abbrev end_of : ℕ → List FieldType → ℕ
end_of at [] = at
end_of at (t ∷ ts) = end_of (at + padding at (align t) + size t) ts

abbrev struct_align : List FieldType → ℕ
struct_align [] = 1
struct_align (t ∷ ts) = max (align t) (struct_align ts)

-- `size_of`.
abbrev pub size_of : List FieldType → ℕ
size_of ts = end_of 0 ts + padding (end_of 0 ts) (struct_align ts)

abbrev write_fields : (ℕ → ℕ) → ℕ → (ts : List FieldType) → Values ts → List ℕ
write_fields memory at [] vs = []
write_fields memory at (t ∷ ts) (v, vs) =
    gap memory at (padding at (align t))
    ++ (field_bytes t v ++ write_fields memory (at + padding at (align t) + size t) ts vs)

-- The bytes of a struct that is stored where the memory held others.
abbrev pub write_struct : (ℕ → ℕ) → (ts : List FieldType) → Values ts → List ℕ
write_struct memory ts vs =
    write_fields memory 0 ts vs
    ++ gap memory (end_of 0 ts) (padding (end_of 0 ts) (struct_align ts))

abbrev read_fields : ℕ → (ts : List FieldType) → List ℕ → Values ts
read_fields at [] bs = tt
read_fields at (t ∷ ts) bs =
    let rest = drop (padding at (align t)) bs in
    (
      field_value t (take (size t) rest),
      read_fields (at + padding at (align t) + size t) ts (drop (size t) rest),
    )

-- What a pointer to the bytes, cast to one to the struct, points at.
abbrev pub read_struct : (ts : List FieldType) → List ℕ → Values ts
read_struct ts bs = read_fields 0 ts bs

pow_suc : (w : ℕ) → 256 ^ suc w ≡ 256 * 256 ^ w
pow_suc w = grind arith

le_value-le_bytes : (w n : ℕ) → n < 256 ^ w → le_value (le_bytes w n) ≡ n
le_value-le_bytes zero n h = omega arith
le_value-le_bytes (suc w) n h =
    omega (arith, le_value-le_bytes w (n / 256) (omega (arith, pow_suc w)))

length-le_bytes : (w n : ℕ) → length (le_bytes w n) ≡ w
length-le_bytes zero n = refl
length-le_bytes (suc w) n = ap suc (length-le_bytes w (n / 256))

field_value-field_bytes :
    (t : FieldType) (v : Value t) → InRange t v → field_value t (field_bytes t v) ≡ v
field_value-field_bytes u8 v h = le_value-le_bytes 1 v h
field_value-field_bytes u32 v h = le_value-le_bytes 4 v h
field_value-field_bytes u64 v h = le_value-le_bytes 8 v h
field_value-field_bytes (array n) v h = refl

length-field_bytes : (t : FieldType) (v : Value t) → InRange t v → length (field_bytes t v) ≡ size t
length-field_bytes u8 v h = length-le_bytes 1 v
length-field_bytes u32 v h = length-le_bytes 4 v
length-field_bytes u64 v h = length-le_bytes 8 v
length-field_bytes (array n) v h = h.0

take-append : (n : ℕ) (xs ys : List ℕ) → length xs ≡ n → take n (xs ++ ys) ≡ xs
take-append zero [] ys h = refl
take-append zero (x ∷ xs) ys h = absurd (omega arith)
take-append (suc n) [] ys h = absurd (omega arith)
take-append (suc n) (x ∷ xs) ys h = ap (◌∷◌ x) (take-append n xs ys (omega arith))

drop-append : (n : ℕ) (xs ys : List ℕ) → length xs ≡ n → drop n (xs ++ ys) ≡ ys
drop-append zero [] ys h = refl
drop-append zero (x ∷ xs) ys h = absurd (omega arith)
drop-append (suc n) [] ys h = absurd (omega arith)
drop-append (suc n) (x ∷ xs) ys h = drop-append n xs ys (omega arith)

length-gap : (memory : ℕ → ℕ) (at n : ℕ) → length (gap memory at n) ≡ n
length-gap memory at zero = refl
length-gap memory at (suc n) = ap suc (length-gap memory (at + 1) n)

read_fields-write_fields :
    (memory : ℕ → ℕ) (at : ℕ) (ts : List FieldType) (vs : Values ts) (tail : List ℕ)
    → AllInRange ts vs
    → read_fields at ts (write_fields memory at ts vs ++ tail) ≡ vs
read_fields-write_fields memory at [] tt tail h = refl
read_fields-write_fields memory at (t ∷ ts) (v, vs) tail (h, hs) =
    let p = padding at (align t) in
    let later = write_fields memory (at + p + size t) ts vs in
    rw
      (
        append_assoc (gap memory at p) (field_bytes t v ++ later) tail,
        append_assoc (field_bytes t v) later tail,
        drop-append p (gap memory at p) (field_bytes t v ++ (later ++ tail))
            (length-gap memory at p),
        take-append (size t) (field_bytes t v) (later ++ tail) (length-field_bytes t v h),
        drop-append (size t) (field_bytes t v) (later ++ tail) (length-field_bytes t v h),
        field_value-field_bytes t v h,
        read_fields-write_fields memory (at + p + size t) ts vs tail hs,
      )
      refl

pub read_struct-write_struct :
    (memory : ℕ → ℕ) (ts : List FieldType) (vs : Values ts)
    → AllInRange ts vs
    → read_struct ts (write_struct memory ts vs) ≡ vs
read_struct-write_struct memory ts vs h = read_fields-write_fields memory 0 ts vs _ h
