-- ===== src/Postgres/Activity/Counts.antt =====
-- stat_activity.rs: what the counts of a snapshot add up to, against the rows of its queries.
use pgsleuth.Base.{
  ℕ, ◌+◌, ◌%◌, ◌^◌, ◌≤◌, min, String, ◌≡◌, refl, true, false, not, ◌&&◌, Option, none, some, List,
  [], ◌∷◌, arith, if◌then◌else◌, str_eq, u64_max, i64_max, saturating_add, unwrap_or, try_from, ℤ,
  ok,
}
use pgsleuth.Postgres.Activity.{
  SessionSnapshot, starts_with, add_idle, sum_lock, idle_in_xact, active_waiting_on_lock,
}
use pgsleuth.Postgres.Activity.Poll.{clamp, insert_states, insert_waits, Client, poll}
use mathlib.Core.Bool.{Bool}
use pgsleuth.BTreeMap
use pgsleuth.BTreeMap.{BTreeMap, Key, key_eq, text_key, text_pair_key}

abbrev is_none {ℓ} : {A : Type ℓ} → Option A → Bool
is_none none = true
is_none (some a) = false

is_none-eq {ℓ} : {A : Type ℓ} (o : Option A) → is_none o ≡ true → o ≡ none
is_none-eq none h = refl
is_none-eq (some a) h = ground arith

-- Weights of the entries of a map, summed.
module _ {ℓ} {K : Type ℓ} ⦃o : Key K⦄ where
  abbrev sum_by : (K → ℕ → ℕ) → BTreeMap K ℕ → ℕ
  sum_by w [] = 0
  sum_by w ((k, v) ∷ m) = w k v + sum_by w m

  -- A key that is new adds its weight.
  sum_by-insert :
      (w : K → ℕ → ℕ) (k : K) (v : ℕ) (m : BTreeMap K ℕ)
      → BTreeMap.get k m ≡ none
      → sum_by w (BTreeMap.insert k v m) ≡ w k v + sum_by w m
  unfolding BTreeMap.get BTreeMap.insert
  sum_by-insert w k v [] h = refl
  sum_by-insert w k v ((j, u) ∷ m) h = ground (arith, sum_by-insert w k v m)

  -- A row's key is none of these.
  abbrev pub is_fresh : K → List (K × ℕ) → Bool
  is_fresh k [] = true
  is_fresh k ((j, n) ∷ rows) = not (key_eq k j) && is_fresh k rows

  -- The keys of the rows all differ, as `GROUP BY` has it.
  abbrev pub are_distinct : List (K × ℕ) → Bool
  are_distinct [] = true
  are_distinct ((k, n) ∷ rows) = is_fresh k rows && are_distinct rows

  abbrev are_new : BTreeMap K ℕ → List (K × ℕ) → Bool
  are_new m [] = true
  are_new m ((j, n) ∷ rows) = is_none (BTreeMap.get j m) && are_new m rows

  abbrev pub insert_all : BTreeMap K ℕ → List (K × ℕ) → BTreeMap K ℕ
  insert_all m [] = m
  insert_all m ((k, n) ∷ rows) = insert_all (BTreeMap.insert k n m) rows

  are_new-insert :
      (k : K) (v : ℕ) (m : BTreeMap K ℕ) (rows : List (K × ℕ))
      → are_new m rows ≡ true
      → is_fresh k rows ≡ true
      → are_new (BTreeMap.insert k v m) rows ≡ true
  are_new-insert k v m [] h f = refl
  are_new-insert k v m ((j, n) ∷ rows) h f =
      ground (arith, BTreeMap.get-insert k j v m, are_new-insert k v m rows)

  sum_by-insert_all :
      (w : K → ℕ → ℕ) (m : BTreeMap K ℕ) (rows : List (K × ℕ))
      → are_new m rows ≡ true
      → are_distinct rows ≡ true
      → sum_by w (insert_all m rows) ≡ sum_by w m + sum_by w rows
  sum_by-insert_all w m [] h d = omega arith
  sum_by-insert_all w m ((k, n) ∷ rows) h d = ground (
    arith,
    are_new-insert k n m rows,
    sum_by-insert w k n m,
    is_none-eq (BTreeMap.get k m),
    sum_by-insert_all w (BTreeMap.insert k n m) rows,
  )

  nil-are_new : (rows : List (K × ℕ)) → are_new [] rows ≡ true
  unfolding BTreeMap.get
  nil-are_new [] = refl
  nil-are_new ((k, n) ∷ rows) = nil-are_new rows

  -- The map of rows with distinct keys has the sum of the rows.
  pub sum_by-of_rows :
      (w : K → ℕ → ℕ) (rows : List (K × ℕ))
      → are_distinct rows ≡ true
      → sum_by w (insert_all [] rows) ≡ sum_by w rows
  sum_by-of_rows w rows d = omega (arith, sum_by-insert_all w [] rows (nil-are_new rows) d)

-- The entries that a query's rows make.
abbrev pub state_entries : List (String × ℤ) → List (String × ℕ)
state_entries [] = []
state_entries ((state, n) ∷ rows) = (state, clamp n) ∷ state_entries rows

abbrev pub wait_entries : List (String × String × ℤ) → List ((String × String) × ℕ)
wait_entries [] = []
wait_entries ((we_type, we_name, n) ∷ rows) = ((we_type, we_name), clamp n) ∷ wait_entries rows

insert_states-entries :
    (m : BTreeMap String ℕ) (rows : List (String × ℤ))
    → insert_states m rows ≡ insert_all m (state_entries rows)
unfolding insert_states
insert_states-entries m [] = refl
insert_states-entries m ((state, n) ∷ rows) =
    insert_states-entries (BTreeMap.insert state (clamp n) m) rows

insert_waits-entries :
    (m : BTreeMap (String × String) ℕ) (rows : List (String × String × ℤ))
    → insert_waits m rows ≡ insert_all m (wait_entries rows)
unfolding insert_waits
insert_waits-entries m [] = refl
insert_waits-entries m ((we_type, we_name, n) ∷ rows) =
    insert_waits-entries (BTreeMap.insert (we_type, we_name) (clamp n) m) rows

-- What a state's sessions, and a wait event's, count for.
abbrev pub idle_weight : String → ℕ → ℕ
idle_weight state n = if starts_with state "idle in transaction" then n else 0

abbrev pub lock_weight : String × String → ℕ → ℕ
lock_weight (cat, event) n = if str_eq cat "Lock" then n else 0

add_idle-sum :
    (total : ℕ) (m : BTreeMap String ℕ)
    → total ≤ u64_max
    → add_idle total m ≡ min (total + sum_by idle_weight m) u64_max
unfolding add_idle
add_idle-sum total [] h = omega arith
add_idle-sum total ((state, n) ∷ m) h =
    ground (arith, add_idle-sum (saturating_add u64_max total n) m, add_idle-sum total m)

idle-sum : (m : BTreeMap String ℕ) → add_idle 0 m ≡ min (sum_by idle_weight m) u64_max
idle-sum m = omega (arith, add_idle-sum 0 m (omega arith))

sum_lock-sum : (m : BTreeMap (String × String) ℕ) → sum_lock m ≡ sum_by lock_weight m
unfolding sum_lock
sum_lock-sum [] = refl
sum_lock-sum (((cat, event), n) ∷ m) = omega (arith, sum_lock-sum m)

try_from-min : (n : ℕ) → unwrap_or (try_from i64_max n) i64_max ≡ min n i64_max
try_from-min n = ground arith

-- What the counts of a snapshot say of the rows that it was made of.
pub record Counts (states : List (String × ℤ)) (waits : List (String × String × ℤ))
    (s : SessionSnapshot) : Type 0 where
  pub idle : idle_in_xact s ≡ min (sum_by idle_weight (state_entries states)) u64_max
  pub waiting : active_waiting_on_lock s ≡ sum_by lock_weight (wait_entries waits) % 2 ^ 64

maps-Counts :
    (states : List (String × ℤ)) (waits : List (String × String × ℤ)) (total xacts : ℕ)
    → are_distinct (state_entries states) ≡ true
    → are_distinct (wait_entries waits) ≡ true
    → Counts states waits (record {
      client_backends = total;
      by_state = insert_states [] states;
      by_wait = insert_waits [] waits;
      long_running_xacts = xacts;
    })
unfolding idle_in_xact active_waiting_on_lock
maps-Counts states waits total xacts ds dw = record {
  idle = rw (insert_states-entries [] states, idle-sum _, sum_by-of_rows idle_weight _ ds) refl;
  waiting =
      rw (insert_waits-entries [] waits, sum_lock-sum _, sum_by-of_rows lock_weight _ dw) refl;
}

-- When the four queries succeed, the poll does; with one row for each state and for each wait event, the sessions idle in a transaction are the sum over the rows whose state starts so, cut at 2^64 - 1, and those waiting on a lock the sum over the `Lock` rows, modulo 2^64. A negative count counts 0.
pub poll-Counts :
    (client : Client) (long_xact_threshold_seconds : ℕ) (total xacts : ℤ)
    (states : List (String × ℤ)) (waits : List (String × String × ℤ))
    → client.backend_count ≡ ok total
    → client.state_rows ≡ ok states
    → client.wait_rows ≡ ok waits
    → client.long_xact_count (min long_xact_threshold_seconds i64_max) ≡ ok xacts
    → are_distinct (state_entries states) ≡ true
    → are_distinct (wait_entries waits) ≡ true
    → (s : SessionSnapshot) × (poll client long_xact_threshold_seconds ≡ ok s)
      × Counts states waits s
unfolding poll
poll-Counts client t total xacts states waits e1 e2 e3 e4 ds dw =
    rw (e1, e2, e3, try_from-min t, e4) (_, refl, maps-Counts states waits _ _ ds dw)
