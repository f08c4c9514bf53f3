-- ===== src/Ebpf/Wire/Tests.antt =====
-- The bytes of concrete keys.
use pgsleuth.Base.{ℕ, ◌≡◌, refl, ◌↔◌, true, ◌∷◌, arith, replicate}
use pgsleuth.Ebpf.Events.{RqKey, rq_key_eq}
use pgsleuth.Ebpf.Wire.{size_of}
use pgsleuth.Ebpf.Wire.Structs.{rq_key_pod, store, store-rq_key_eq}

abbrev key : ℕ → RqKey
key sector = record { dev = 8388624; sector = sector }

store-rq_key_eq_example :
    (store rq_key_pod (λ at. 0) (key 5) ≡ store rq_key_pod (λ at. 255) (key 5))
    ↔ (rq_key_eq (key 5) (key 5) ≡ true)
store-rq_key_eq_example =
    store-rq_key_eq (λ at. 0) (λ at. 255) (key 5) (key 5)
      (omega arith, (omega arith, (omega arith, tt)))
      (omega arith, (omega arith, (omega arith, tt)))

-- `size_of::<RqKey>()`.
key_size : size_of rq_key_pod.fields ≡ 16
key_size = refl

-- The device, the padding and the sector, each with its low byte first.
key_bytes :
    store rq_key_pod (λ at. 255) (record { dev = 8388624; sector = 258 })
    ≡ (16 ∷ 0 ∷ 128 ∷ 0 ∷ 0 ∷ 0 ∷ 0 ∷ 0 ∷ 2 ∷ 1 ∷ replicate 6 0)
key_bytes = refl
