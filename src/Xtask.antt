-- ===== src/Xtask.antt =====
-- crates/xtask/src/main.rs: the task that builds the kernel programs.
mod Tests
use pgsleuth.Base.{String, ◌<>◌, List, [], ◌∷◌, if◌then◌else◌, lines, Result, ok, err}
use mathlib.Core.Bool.{Bool}

pub data Cmd : Type 0 where
  build_ebpf : Cmd

-- What a child process leaves: whether it succeeded, and its output as text.
pub record ChildOutput : Type 0 where
  pub success : Bool
  pub stdout : String
  pub stderr : String

pub data Line : Type 0 where
  out : String → Line
  error : String → Line

abbrev pub cargo_args : List String
cargo_args =
    "build" ∷ "-Zbuild-std" ∷ "--target" ∷ "bpfel-unknown-none" ∷ "--release" ∷ "-p"
    ∷ "pgsleuth-ebpf" ∷ []

-- What follows of the child that ran, or of the error of starting it.
unfoldable pub finish_build : Result ChildOutput → Result (Unit {0}) × List Line
finish_build (err e) = (err e, [])
finish_build (ok output) =
    if output.success
    then (ok tt, out "Build successful!" ∷ out ("Output: " <> output.stdout) ∷ [])
    else (err "eBPF build failed", error "Build failed:" ∷ error output.stderr ∷ [])

-- `main`, over what running a program with these arguments gives.
unfoldable pub main :
    (String → List String → Result ChildOutput) → Cmd → Result (Unit {0}) × List Line
unfolding finish_build
main run build_ebpf =
    let (result, lines) = finish_build (run "cargo" cargo_args) in
    (result, out "Building eBPF program..." ∷ lines)
