-- ===== src/Loader/Spill/Once.antt =====
-- Each process and path is reported once.
use pgsleuth.Base.{
  ◌+◌, String, ◌≡◌, refl, ap, ◌∙◌, inl, inr, true, false, ◌||◌, Option, none, some, List, [], ◌∷◌,
  ◌++◌, arith, if◌then◌else◌, str_eq_iff, Bool-cases, length, count_if,
}
use pgsleuth.Loader.Loop.Alarms.{sent, sent-append, cons_some}
use pgsleuth.Loader.Rule.{Effect}
use pgsleuth.Loader.Spill.{report_spill, on_key, on_temp_file, spill_key, Utf8, Key, key_eq, has}
use pgsleuth.External.{External}
use pgsleuth.Ebpf.Events.{TempFileEvent}

key_eq_sound : (j k : Key) → key_eq k j ≡ true → k ≡ j
key_eq_sound (pid, path) (pid', path') h = ground (arith, str_eq_iff path' path)

-- The set holds a key at most once.
abbrev OnceIn : Key → List Key → Type 0
OnceIn k seen = count_if (key_eq k) seen ≡ (if has k seen then 1 else 0)

cons-OnceIn :
    (j k : Key) (seen : List Key) → has j seen ≡ false → OnceIn k seen → OnceIn k (j ∷ seen)
cons-OnceIn j k seen h o = elim (Bool-cases (key_eq k j)) [
  | inl e ↦ ground (arith, ap (λ i. has i seen) (key_eq_sound j k e))
  | inr e ↦ ground arith
]

-- The keys of the events that are spills.
abbrev pub keys : {T : Type 0} → Utf8 → List (T × TempFileEvent) → List Key
keys u [] = []
keys u ((now, event) ∷ events) = cons_some (spill_key u event) (keys u events)

module _ (x : External) (u : Utf8) (pg_instance : String) where
  open x use {DateTime}

  -- The set, and the effects, of the events one after another, with an emitter.
  unfoldable pub drain : List (DateTime × TempFileEvent) → List Key → List Key × List (Effect x)
  drain [] seen = (seen, [])
  drain ((now, event) ∷ events) seen =
      let (seen', es) = on_temp_file x true u pg_instance now event seen in
      let (last, later) = drain events seen' in (last, es ++ later)

  on_key-OnceIn :
      (now : DateTime) (event : TempFileEvent) (o : Option Key) (k : Key) (seen : List Key)
      → OnceIn k seen
      → OnceIn k (on_key x true u pg_instance now event o seen).0
  unfolding on_key
  on_key-OnceIn now event none k seen h = h
  on_key-OnceIn now event (some j) k seen h = elim (Bool-cases (has j seen)) [
    | inl e ↦ rw e h
    | inr e ↦ rw e (cons-OnceIn j k seen e h)
  ]

  on_key-has :
      (now : DateTime) (event : TempFileEvent) (o : Option Key) (k : Key) (seen ks : List Key)
      → (has k (on_key x true u pg_instance now event o seen).0 || has k ks)
        ≡ (has k seen || has k (cons_some o ks))
  unfolding on_key
  on_key-has now event none k seen ks = refl
  on_key-has now event (some j) k seen ks = elim (Bool-cases (has j seen)) [
    | inl e ↦ elim (Bool-cases (key_eq k j)) [
      | inl same ↦ rw e (ground (arith, ap (λ i. has i seen) (key_eq_sound j k same)))
      | inr other ↦ rw e (ground arith)
    ]
    | inr e ↦ rw e (ground arith)
  ]

  on_key-sent :
      (now : DateTime) (event : TempFileEvent) (o : Option Key) (seen : List Key)
      → sent (on_key x true u pg_instance now event o seen).1 + length seen
        ≡ length (on_key x true u pg_instance now event o seen).0
  unfolding on_key report_spill
  on_key-sent now event none seen = omega arith
  on_key-sent now event (some j) seen = ground arith

  -- Behind any events, a key is in the set if it was there or is that of a spill, and at most once; and the findings sent are as many as the keys that are new.
  drain-once :
      (events : List (DateTime × TempFileEvent)) (k : Key) (seen : List Key)
      → OnceIn k seen
      → OnceIn k (drain events seen).0
        × (has k (drain events seen).0 ≡ (has k seen || has k (keys u events)))
        × (sent (drain events seen).1 + length seen ≡ length (drain events seen).0)
  unfolding drain on_temp_file
  drain-once [] k seen h = (h, ground arith, omega arith)
  drain-once ((now, event) ∷ events) k seen h =
      let seen' = (on_key x true u pg_instance now event (spill_key u event) seen).0 in
      let es = (on_key x true u pg_instance now event (spill_key u event) seen).1 in
      let (once, member, count) =
        drain-once events k seen' (on_key-OnceIn now event (spill_key u event) k seen h) in
      (
        once,
        member ∙ on_key-has now event (spill_key u event) k seen (keys u events),
        omega (
          arith,
          count,
          on_key-sent now event (spill_key u event) seen,
          sent-append es (drain events seen').1,
        ),
      )

  -- With an emitter and from an empty set, the set behind any temp-file events holds each process and path of a spill exactly once, and no other; and the findings sent are as many as it holds.
  pub drain-keys :
      (events : List (DateTime × TempFileEvent)) (k : Key)
      → (count_if (key_eq k) (drain events []).0 ≡ (if has k (keys u events) then 1 else 0))
        × (sent (drain events []).1 ≡ length (drain events []).0)
  drain-keys events k =
      let (once, member, count) = drain-once events k [] refl in
      (once ∙ ap (λ b. if b then 1 else 0) member, omega (arith, count))
