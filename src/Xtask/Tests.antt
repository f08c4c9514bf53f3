-- ===== src/Xtask/Tests.antt =====
-- The build task on a build that fails.
use pgsleuth.Base.{◌≡◌, refl, false, [], ◌∷◌, ok, err}
use pgsleuth.Xtask.{build_ebpf, out, error, main}

-- A build that fails says so, and returns an error.
failed_build :
    main
      (λ program args. ok (record { success = false; stdout = ""; stderr = "no linker" }))
      build_ebpf
    ≡ (
      err "eBPF build failed",
      out "Building eBPF program..." ∷ error "Build failed:" ∷ error "no linker" ∷ [],
    )
unfolding main
failed_build = refl
