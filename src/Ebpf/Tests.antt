-- ===== src/Ebpf/Tests.antt =====
-- Concrete events through the programs, and the theorems at concrete inputs.
use pgsleuth.Base.{◌≡◌, refl, ◌↔◌, some, [], ◌∷◌, ◌==◌, if◌then◌else◌, replicate}
use pgsleuth.Ebpf.Events.{to_u8}
use pgsleuth.Ebpf.Trace.{vfs_open}
use pgsleuth.Ebpf.Kernel.Example.{unbounded, put_same, config, postgres, context, history}
use pgsleuth.Ebpf.Trace.Selection.{Selected, vfs_open-Selected}
use pgsleuth.Ebpf.Block.{classify_rwbs, key_of, latency_event, block_rq_issue, block_rq_complete}
use pgsleuth.Ebpf.Block.InFlight.{after, initial}
use pgsleuth.Ebpf.Block.Latency.{latencies, IsSublist, after-IsSublist, after-latencies}

vfs_open-Selected_example :
    (((vfs_open (context 0 0) (initial unbounded)).1 ≡ 0) ↔ Selected config 7 0 postgres)
    × ((vfs_open (context 0 0) (initial unbounded)).0.events ≡ (
        if (vfs_open (context 0 0) (initial unbounded)).1 == 0
        then record { pid = 7; port = 0; comm = postgres } ∷ []
        else []))
vfs_open-Selected_example = vfs_open-Selected (context 0 0) (initial unbounded) config refl

after-IsSublist_example : IsSublist (after unbounded history).latency_events (latencies history)
after-IsSublist_example = after-IsSublist unbounded history

after-latencies_example : (after unbounded history).latency_events ≡ latencies history
after-latencies_example =
    after-latencies unbounded (λ k v m. put_same k (some v) m) history
      (refl, (refl, (refl, (refl, (refl, tt)))))

-- The second completion of sector 5 reports nothing, and the first is against the latest issue.
one_latency :
    (after unbounded history).latency_events
    ≡ record { dev = 8388608; op_class = 2; bytes = 4096; latency_ns = 20 } ∷ []
unfolding after block_rq_issue block_rq_complete key_of latency_event classify_rwbs
one_latency = refl

-- A synchronous write with no flush is a plain write.
sync_write : classify_rwbs (b'W' ∷ b'S' ∷ replicate 6 0) ≡ 1
unfolding classify_rwbs to_u8
sync_write = refl
