-- ===== src/Judge/Sandbox.antt =====
-- services/judge/app/sandbox.py: the argument vector of `docker run`. `list(env.items())` is a list.
use dsa_platform.Prelude.{ℕ, String, Bool, List, [], ◌∷◌, ◌++◌, codes, list_eq, if◌then◌else◌}
use dsa_platform.Prelude.Decimal.{decimal}

abbrev pub Text : Type 0
Text = List ℕ

pub record SandboxSpec : Type 0 where
  pub image : Text
  pub argv : List Text
  pub artifact_dir : Text
  pub memory_mb : ℕ
  pub pids_limit : ℕ
  pub name : Text
  pub cpus : Text
  pub output_bytes : ℕ
  pub writable_artifact : Bool
  pub env : List (Text × Text)
  pub runtime : Text

abbrev pub work_dir : Text
work_dir = codes "/work"

abbrev pub artifact_mount : Text
artifact_mount = codes "/art"

abbrev pub tmpfs_size : Text
tmpfs_size = codes "64m"

abbrev pub nofile_limit : ℕ
nofile_limit = 256

abbrev pub nproc_limit : ℕ
nproc_limit = 256

abbrev pub megabytes : ℕ → Text
megabytes n = decimal n ++ codes "m"

-- `f"{name}={n}:{n}"`
abbrev pub ulimit : String → ℕ → Text
ulimit name n = codes name ++ codes "=" ++ decimal n ++ codes ":" ++ decimal n

abbrev pub mount : SandboxSpec → Text
mount spec =
    spec.artifact_dir
    ++ codes ":"
    ++ artifact_mount
    ++ codes ":"
    ++ (if spec.writable_artifact then codes "rw" else codes "ro")

abbrev pub tmpfs : Text
tmpfs = work_dir ++ codes ":rw,noexec,nosuid,nodev,size=" ++ tmpfs_size ++ codes ",mode=1777"

abbrev pub env_flags : List (Text × Text) → List Text
env_flags [] = []
env_flags ((key, value) ∷ rest) = codes "--env" ∷ (key ++ codes "=" ++ value) ∷ env_flags rest

abbrev pub runtime_flags : Text → List Text
runtime_flags runtime =
    if list_eq runtime (codes "runc") then [] else codes "--runtime" ∷ runtime ∷ []

-- what follows the choice of a runtime, up to the environment
abbrev pub limit_flags : SandboxSpec → List Text
limit_flags spec =
    codes "--user"
    ∷ codes "1000:1000"
    ∷ codes "--cap-drop"
    ∷ codes "ALL"
    ∷ codes "--security-opt"
    ∷ codes "no-new-privileges"
    ∷ codes "--pids-limit"
    ∷ decimal spec.pids_limit
    ∷ codes "--memory"
    ∷ megabytes spec.memory_mb
    ∷ codes "--memory-swap"
    ∷ megabytes spec.memory_mb
    ∷ codes "--cpus"
    ∷ spec.cpus
    ∷ codes "--ulimit"
    ∷ ulimit "fsize" spec.output_bytes
    ∷ codes "--ulimit"
    ∷ ulimit "nofile" nofile_limit
    ∷ codes "--ulimit"
    ∷ ulimit "nproc" nproc_limit
    ∷ []

unfoldable pub build_run_command : SandboxSpec → List Text
build_run_command spec =
    codes "docker"
      ∷ codes "run"
      ∷ codes "--rm"
      ∷ codes "--interactive"
      ∷ codes "--name"
      ∷ spec.name
      ∷ codes "--network"
      ∷ codes "none"
      ∷ codes "--read-only"
      ∷ codes "--tmpfs"
      ∷ tmpfs
      ∷ codes "--volume"
      ∷ mount spec
      ∷ codes "--workdir"
      ∷ work_dir
      ∷ runtime_flags spec.runtime
    ++ limit_flags spec
    ++ env_flags spec.env
    ++ spec.image ∷ spec.argv
