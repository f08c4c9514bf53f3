-- ===== src/Loader/Median.antt =====
-- `p50_ns`: the middle of the sorted samples, and what it says of them.
use pgsleuth.Base.{
  ℕ, zero, suc, ◌/◌, ◌≤◌, ◌<◌, ◌≡◌, refl, ◌∙◌, ◌↔◌, false, ◌&&◌, Option, none, some, List, [], ◌∷◌,
  arith, ltb, leb, ◌==◌, if◌then◌else◌, length, get_elem?, count_if,
}
use mathlib.Core.Bool.{Bool}

-- `slice::sort_unstable`, as its result: the samples in ascending order.
unfoldable pub insert_sorted : ℕ → List ℕ → List ℕ
insert_sorted n [] = n ∷ []
insert_sorted n (m ∷ ms) = let rest = insert_sorted n ms in if leb n m then n ∷ m ∷ ms else m ∷ rest

unfoldable pub sort_unstable : List ℕ → List ℕ
unfolding insert_sorted
sort_unstable [] = []
sort_unstable (n ∷ ns) = insert_sorted n (sort_unstable ns)

unfoldable pub p50_ns : List ℕ → Option ℕ
unfolding sort_unstable
p50_ns samples =
    if length samples == 0
    then none
    else (let v = sort_unstable samples in get_elem? v (length v / 2))

-- Every sample behind is at least this.
abbrev IsAbove : ℕ → List ℕ → Type 0
IsAbove n [] = Unit
IsAbove n (m ∷ ms) = (n ≤ m) × IsAbove n ms

abbrev IsSorted : List ℕ → Type 0
IsSorted [] = Unit
IsSorted (n ∷ ns) = IsAbove n ns × IsSorted ns

insert_sorted-IsAbove :
    (b n : ℕ) (ns : List ℕ) → b ≤ n → IsAbove b ns → IsAbove b (insert_sorted n ns)
unfolding insert_sorted
insert_sorted-IsAbove b n [] h a = (h, tt)
insert_sorted-IsAbove b n (m ∷ ms) h a = ground (arith, insert_sorted-IsAbove b n ms)

IsAbove-le : (b n : ℕ) (ns : List ℕ) → b ≤ n → IsAbove n ns → IsAbove b ns
IsAbove-le b n [] h a = tt
IsAbove-le b n (m ∷ ms) h (p, a) = (omega arith, IsAbove-le b n ms h a)

insert_sorted-IsSorted : (n : ℕ) (ns : List ℕ) → IsSorted ns → IsSorted (insert_sorted n ns)
unfolding insert_sorted
insert_sorted-IsSorted n [] s = (tt, tt)
insert_sorted-IsSorted n (m ∷ ms) s =
    ground (arith, insert_sorted-IsSorted n ms, insert_sorted-IsAbove m n ms, IsAbove-le n m ms)

sort_unstable-IsSorted : (ns : List ℕ) → IsSorted (sort_unstable ns)
unfolding sort_unstable
sort_unstable-IsSorted [] = tt
sort_unstable-IsSorted (n ∷ ns) = insert_sorted-IsSorted n _ (sort_unstable-IsSorted ns)

insert_sorted-count :
    (p : ℕ → Bool) (n : ℕ) (ns : List ℕ) → count_if p (insert_sorted n ns) ≡ count_if p (n ∷ ns)
unfolding insert_sorted
insert_sorted-count p n [] = refl
insert_sorted-count p n (m ∷ ms) = ground (arith, insert_sorted-count p n ms)

sort_unstable-count : (p : ℕ → Bool) (ns : List ℕ) → count_if p (sort_unstable ns) ≡ count_if p ns
unfolding sort_unstable
sort_unstable-count p [] = refl
sort_unstable-count p (n ∷ ns) =
    omega (arith, insert_sorted-count p n (sort_unstable ns), sort_unstable-count p ns)

insert_sorted-length : (n : ℕ) (ns : List ℕ) → length (insert_sorted n ns) ≡ suc (length ns)
unfolding insert_sorted
insert_sorted-length n [] = refl
insert_sorted-length n (m ∷ ms) = ground (arith, insert_sorted-length n ms)

sort_unstable-length : (ns : List ℕ) → length (sort_unstable ns) ≡ length ns
unfolding sort_unstable
sort_unstable-length [] = refl
sort_unstable-length (n ∷ ns) =
    omega (arith, insert_sorted-length n (sort_unstable ns), sort_unstable-length ns)

-- Above a bound, none passes the bound's test.
count-IsAbove : (t n : ℕ) (ns : List ℕ) → t < n → IsAbove n ns → count_if (λ s. leb s t) ns ≡ 0
count-IsAbove t n [] h a = refl
count-IsAbove t n (m ∷ ms) h a = ground (arith, count-IsAbove t n ms)

-- Of sorted samples, the one at an index is above a bound when at most so many are not.
sorted-count :
    (t i v : ℕ) (ns : List ℕ)
    → IsSorted ns
    → get_elem? ns i ≡ some v
    → (t < v) ↔ (count_if (λ s. leb s t) ns ≤ i)
sorted-count t i v [] s e = ground arith
sorted-count t zero v (n ∷ ns) s e = ground (arith, count-IsAbove t n ns)
sorted-count t (suc i) v (n ∷ ns) s e = ground (arith, sorted-count t i v ns, count-IsAbove t n ns)

get_elem?-some : (i : ℕ) (ns : List ℕ) → i < length ns → (v : ℕ) × (get_elem? ns i ≡ some v)
get_elem?-some i [] h = absurd (omega arith)
get_elem?-some zero (n ∷ ns) h = (n, refl)
get_elem?-some (suc i) (n ∷ ns) h = get_elem?-some i ns (omega arith)

-- `p50.map(|ns| ns > threshold).unwrap_or(false)`.
abbrev pub is_above : ℕ → Option ℕ → Bool
is_above threshold_ns none = false
is_above threshold_ns (some ns) = ltb threshold_ns ns

-- The test on the samples themselves: there are some, and no more than half of them, rounded down, keep to the threshold.
abbrev pub is_slow : ℕ → List ℕ → Bool
is_slow threshold_ns samples =
    ltb 0 (length samples) && leb (count_if (λ s. leb s threshold_ns) samples) (length samples / 2)

p50_ns-sorted :
    (samples : List ℕ)
    → 0 < length samples
    → p50_ns samples ≡ get_elem? (sort_unstable samples) (length samples / 2)
unfolding p50_ns
p50_ns-sorted samples h = ground (arith, sort_unstable-length samples)

p50_ns-some :
    (samples : List ℕ) (t : ℕ)
    → 0 < length samples
    → is_above t (p50_ns samples) ≡ leb (count_if (λ s. leb s t) samples) (length samples / 2)
p50_ns-some samples t h =
    let (v, e) =
      get_elem?-some (length samples / 2) (sort_unstable samples)
        (omega (arith, sort_unstable-length samples)) in
    rw (p50_ns-sorted samples h, e)
      (ground (
        arith,
        sorted-count t (length samples / 2) v (sort_unstable samples)
            (sort_unstable-IsSorted samples) e,
        sort_unstable-count (λ s. leb s t) samples,
      ))

-- The middle sample is above a threshold exactly when there are samples and no more than half of them, rounded down, keep to the threshold, in whatever order they came.
pub p50_ns-is_slow :
    (threshold_ns : ℕ) (samples : List ℕ)
    → is_above threshold_ns (p50_ns samples) ≡ is_slow threshold_ns samples
unfolding p50_ns
p50_ns-is_slow t [] = refl
p50_ns-is_slow t (n ∷ ns) = p50_ns-some (n ∷ ns) t (omega arith) ∙ ground arith
