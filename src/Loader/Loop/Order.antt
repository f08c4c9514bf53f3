-- ===== src/Loader/Loop/Order.antt =====
-- The order in which the loop's `select!` takes the ring buffers.
use pgsleuth.Base.{
  ℕ, ◌+◌, ◌≤◌, ◌≡◌, refl, ap, ◌∙◌, true, List, [], ◌∷◌, arith, leb, if◌then◌else◌, length, count_if,
  count_if-append, u32_max,
}
use mathlib.Core.Bool.{Bool}
use mathlib.Core.Path.{ap₂}
use pgsleuth.External.{External}
use pgsleuth.Ebpf.Events.{BlockIoLatencyEvent, TempFileEvent}
use pgsleuth.Loader.Median.{is_slow}
use pgsleuth.Loader.Rule.{Settings, is_write, threshold_ns}
use pgsleuth.Loader.Spill.{Utf8}
use pgsleuth.Loader.Loop.{Event, latency, temp_file, tick, initial_loop, Pipelines, run_loop}
use pgsleuth.Loader.Loop.Alarms.{
  sampled, sent, windows, spill_keys, slow_sequence, run_loop-sent, cons_some,
}

-- One schedule for another: between two ticks latencies may come in any order, and before or behind a
-- file call; the file calls stay in their order.
pub data Reordered {x : External} : List (Event x) → List (Event x) → Type 0 where
  same : (es : List (Event x)) → Reordered es es
  behind : (e : Event x) {es es' : List (Event x)} → Reordered es es' → Reordered (e ∷ es) (e ∷ es')
  swap_latencies :
      (a b : BlockIoLatencyEvent) (es : List (Event x))
      → Reordered (latency a ∷ latency b ∷ es) (latency b ∷ latency a ∷ es)
  delay_latency :
      (a : BlockIoLatencyEvent) (now : x.DateTime) (b : TempFileEvent) (es : List (Event x))
      → Reordered (latency a ∷ temp_file now b ∷ es) (temp_file now b ∷ latency a ∷ es)
  delay_call :
      (a : BlockIoLatencyEvent) (now : x.DateTime) (b : TempFileEvent) (es : List (Event x))
      → Reordered (temp_file now b ∷ latency a ∷ es) (latency a ∷ temp_file now b ∷ es)
  next : {es es' es'' : List (Event x)} → Reordered es es' → Reordered es' es'' → Reordered es es''

-- The same samples, as often.
abbrev SameSamples : List ℕ → List ℕ → Type 0
SameSamples s s' = (p : ℕ → Bool) → count_if p s ≡ count_if p s'

count_if-true : (s : List ℕ) → count_if (λ _. true) s ≡ length s
count_if-true [] = refl
count_if-true (n ∷ s) = omega (arith, count_if-true s)

-- What one more event adds to the samples of a kind.
abbrev counted : (ℕ → Bool) → BlockIoLatencyEvent → ℕ
counted p e = if is_write e.op_class then (if p e.latency_ns then 1 else 0) else 0

count_if-sampled :
    (p : ℕ → Bool) (s : List ℕ) (e : BlockIoLatencyEvent)
    → count_if p (sampled s e) ≡ count_if p s + counted p e
count_if-sampled p s e = ground (arith, count_if-append p s (e.latency_ns ∷ []))

is_slow-SameSamples : (t : ℕ) (s s' : List ℕ) → SameSamples s s' → is_slow t s ≡ is_slow t s'
is_slow-SameSamples t s s' h =
    ground (arith, h (λ n. leb n t), h (λ _. true), count_if-true s, count_if-true s')

module _ {x : External} (cfg : Settings) where
  slow_sequence-same :
      (es : List (Event x)) (s s' : List ℕ)
      → SameSamples s s'
      → slow_sequence cfg (windows s es) ≡ slow_sequence cfg (windows s' es)
  slow_sequence-same [] s s' h = refl
  slow_sequence-same (latency a ∷ es) s s' h =
      slow_sequence-same es (sampled s a) (sampled s' a)
        (λ p. omega (arith, h p, count_if-sampled p s a, count_if-sampled p s' a))
  slow_sequence-same (temp_file now b ∷ es) s s' h = slow_sequence-same es s s' h
  slow_sequence-same (tick now ∷ es) s s' h =
      ap (λ b. b ∷ slow_sequence cfg (windows [] es))
        (is_slow-SameSamples (threshold_ns cfg) s s' h)

  slow_sequence-Reordered :
      {es es' : List (Event x)} (s s' : List ℕ)
      → Reordered es es'
      → SameSamples s s'
      → slow_sequence cfg (windows s es) ≡ slow_sequence cfg (windows s' es')
  slow_sequence-Reordered s s' (same es) h = slow_sequence-same es s s' h
  slow_sequence-Reordered s s' (behind (latency a) r) h =
      slow_sequence-Reordered (sampled s a) (sampled s' a) r
        (λ p. omega (arith, h p, count_if-sampled p s a, count_if-sampled p s' a))
  slow_sequence-Reordered s s' (behind (temp_file now b) r) h = slow_sequence-Reordered s s' r h
  slow_sequence-Reordered s s' (behind (tick now) r) h =
      ap₂ ◌∷◌ (is_slow-SameSamples (threshold_ns cfg) s s' h)
        (slow_sequence-Reordered [] [] r (λ p. refl))
  slow_sequence-Reordered s s' (swap_latencies a b es) h =
      slow_sequence-same es (sampled (sampled s a) b) (sampled (sampled s' b) a) (λ p. omega (
        arith,
        h p,
        count_if-sampled p s a,
        count_if-sampled p (sampled s a) b,
        count_if-sampled p s' b,
        count_if-sampled p (sampled s' b) a,
      ))
  slow_sequence-Reordered s s' (delay_latency a now b es) h =
      slow_sequence-same (latency a ∷ es) s s' h
  slow_sequence-Reordered s s' (delay_call a now b es) h =
      slow_sequence-same (latency a ∷ es) s s' h
  slow_sequence-Reordered s s' (next r r') h =
      slow_sequence-Reordered s s' r h ∙ slow_sequence-Reordered s' s' r' (λ p. refl)

spill_keys-Reordered :
    {x : External} (u : Utf8) {es es' : List (Event x)}
    → Reordered es es'
    → spill_keys u es ≡ spill_keys u es'
spill_keys-Reordered u (same es) = refl
spill_keys-Reordered u (behind (latency a) r) = spill_keys-Reordered u r
spill_keys-Reordered u (behind (temp_file now b) r) = ap (cons_some _) (spill_keys-Reordered u r)
spill_keys-Reordered u (behind (tick now) r) = spill_keys-Reordered u r
spill_keys-Reordered u (swap_latencies a b es) = refl
spill_keys-Reordered u (delay_latency a now b es) = refl
spill_keys-Reordered u (delay_call a now b es) = refl
spill_keys-Reordered u (next r r') = spill_keys-Reordered u r ∙ spill_keys-Reordered u r'

-- It does not matter in which order the loop's `select!` takes the ring buffers between two ticks: schedules that differ in the places of the latencies only send equally many findings.
pub run_loop-Reordered :
    (x : External) (u : Utf8) (ps : Pipelines) (cfg : Settings) {es es' : List (Event x)}
    → cfg.fsync_fire_after ≤ u32_max
    → Reordered es es'
    → sent (run_loop x u ps cfg initial_loop es) ≡ sent (run_loop x u ps cfg initial_loop es')
run_loop-Reordered x u ps cfg {es} {es'} h r =
    rw
      (
        run_loop-sent x u ps cfg es h,
        run_loop-sent x u ps cfg es' h,
        slow_sequence-Reordered cfg [] [] r (λ p. refl),
        spill_keys-Reordered u r,
      )
      refl
