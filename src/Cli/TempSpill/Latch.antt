-- ===== src/Cli/TempSpill/Latch.antt =====
-- The latch of the polling loop: one finding for each episode of breaching samples.
use pgsleuth.Base.{
  ◌≡◌, refl, ap, inl, inr, Bool, true, false, Option, none, some, List, [], ◌∷◌, ◌++◌, length,
  length-append, add_ok, Result-cases,
}
use pgsleuth.Agent.{
  emitted-fire-false, fired-append, emitted, fired, emitted-fire, emitted-append, fired-fire,
}
use pgsleuth.External.{External}
use pgsleuth.Core.Finding.{Finding}
use pgsleuth.Cli.TempSpill.{
  TempSpillConfig, TempSpillSample, BreachReason, breaches, FileSystem, sample,
}
use pgsleuth.Cli.TempSpill.Report.{build_finding, latch, run_from, run, tick}

-- The samples that could be taken, with their times.
abbrev pub samples :
    {T : Type 0} → TempSpillConfig → List (T × FileSystem) → List (T × TempSpillSample)
samples cfg [] = []
samples cfg ((now, fs) ∷ rounds) = add_ok now (sample fs cfg.pgdata) (samples cfg rounds)

abbrev is_breach : Option BreachReason → Bool
is_breach none = false
is_breach (some reason) = true

module _ (x : External) (cfg : TempSpillConfig) where
  open x use {DateTime}

  -- The finding of a sample that breaches while the one before it does not.
  abbrev pub onset :
      Option BreachReason → DateTime → TempSpillSample → Option BreachReason → List (Finding x)
  onset none now s (some reason) = build_finding x now cfg s reason ∷ []
  onset _ now s _ = []

  -- The findings that are due for a sequence of samples, behind the verdict on the one before it.
  abbrev pub due : Option BreachReason → List (DateTime × TempSpillSample) → List (Finding x)
  due before [] = []
  due before ((now, s) ∷ later) = onset before now s (breaches s cfg) ++ due (breaches s cfg) later

  latch-onset :
      (emitter : Bool) (before after : Option BreachReason) (now : DateTime) (s : TempSpillSample)
      → ((latch x emitter cfg now s after (is_breach before)).0 ≡ is_breach after)
        × (emitted (latch x true cfg now s after (is_breach before)).1 ≡ onset before now s after)
        × (fired (latch x emitter cfg now s after (is_breach before)).1
            ≡ length (onset before now s after))
  unfolding latch
  latch-onset emitter none none now s = (refl, refl, refl)
  latch-onset emitter none (some r) now s = (refl, emitted-fire _, fired-fire emitter _)
  latch-onset emitter (some r) none now s = (refl, refl, refl)
  latch-onset emitter (some r) (some r') now s = (refl, refl, refl)

  run_from-due :
      (before : Option BreachReason) (rounds : List (DateTime × FileSystem))
      → emitted (run_from x true cfg (is_breach before) rounds) ≡ due before (samples cfg rounds)
  unfolding run_from tick
  run_from-due before [] = refl
  run_from-due before ((now, fs) ∷ rounds) = elim (Result-cases (sample fs cfg.pgdata)) [
    | inl (s, e) ↦
        let (state, out, _) = latch-onset true before (breaches s cfg) now s in
        rw (e, emitted-append, state, out)
          (ap (◌++◌ (onset before now s (breaches s cfg))) (run_from-due (breaches s cfg) rounds))
    | inr (msg, e) ↦ rw e (run_from-due before rounds)
  ]

  -- With an emitter, the findings emitted over any rounds are those that are due: for each sample that breaches while the sample taken before it did not, or while there is none, the finding of that sample. A round whose sampling fails changes nothing.
  pub run-due :
      (rounds : List (DateTime × FileSystem))
      → emitted (run x true cfg rounds) ≡ due none (samples cfg rounds)
  unfolding run
  run-due rounds = run_from-due none rounds

  -- The log has a line for each, with or without an emitter.
  run_from-fired :
      (emitter : Bool) (before : Option BreachReason) (rounds : List (DateTime × FileSystem))
      → fired (run_from x emitter cfg (is_breach before) rounds)
        ≡ length (due before (samples cfg rounds))
  unfolding run_from tick
  run_from-fired emitter before [] = refl
  run_from-fired emitter before ((now, fs) ∷ rounds) = elim (Result-cases (sample fs cfg.pgdata)) [
    | inl (s, e) ↦
        let (state, _, out) = latch-onset emitter before (breaches s cfg) now s in
        rw
          (
            e,
            fired-append,
            state,
            out,
            run_from-fired emitter (breaches s cfg) rounds,
            length-append (onset before now s (breaches s cfg)),
          )
          refl
    | inr (msg, e) ↦ rw e (run_from-fired emitter before rounds)
  ]

  pub run-fired :
      (emitter : Bool) (rounds : List (DateTime × FileSystem))
      → fired (run x emitter cfg rounds) ≡ length (due none (samples cfg rounds))
  unfolding run
  run-fired emitter rounds = run_from-fired emitter none rounds

  latch-silent :
      (now : DateTime) (s : TempSpillSample) (breach : Option BreachReason) (firing : Bool)
      → emitted (latch x false cfg now s breach firing).1 ≡ []
  unfolding latch
  latch-silent now s none true = refl
  latch-silent now s none false = refl
  latch-silent now s (some reason) true = refl
  latch-silent now s (some reason) false = emitted-fire-false _

  run_from-silent :
      (firing : Bool) (rounds : List (DateTime × FileSystem))
      → emitted (run_from x false cfg firing rounds) ≡ []
  unfolding run_from tick
  run_from-silent firing [] = refl
  run_from-silent firing ((now, fs) ∷ rounds) = elim (Result-cases (sample fs cfg.pgdata)) [
    | inl (s, e) ↦
        rw
          (
            e,
            emitted-append,
            latch-silent now s (breaches s cfg) firing,
            run_from-silent (latch x false cfg now s (breaches s cfg) firing).0 rounds,
          )
          refl
    | inr (msg, e) ↦ rw e (run_from-silent firing rounds)
  ]

  pub run-silent : (rounds : List (DateTime × FileSystem)) → emitted (run x false cfg rounds) ≡ []
  unfolding run
  run-silent rounds = run_from-silent false rounds
