-- ===== src/Judge/Contained.antt =====
-- The command line of a container, read back the way docker reads it: options up to the first
-- argument that is none, which is the image, and then the command inside the container.
use dsa_platform.Prelude.{
  ap, ◌∙◌, Bool, true, false, Option, none, some, List, [], ◌∷◌, ◌++◌, ◌≡◌, refl, ◌⊎◌, inl, inr,
  any, Bool-cases, codes, list_eq, if◌then◌else◌,
}
use dsa_platform.Judge.Sandbox.{
  Text, SandboxSpec, build_run_command, env_flags, mount, megabytes, tmpfs,
}
use dsa_platform.Prelude.Decimal.{decimal}

abbrev switches : List Text
switches = codes "--rm" ∷ codes "--interactive" ∷ codes "--read-only" ∷ []

abbrev valued : List Text
valued =
    codes "--name"
    ∷ codes "--network"
    ∷ codes "--tmpfs"
    ∷ codes "--volume"
    ∷ codes "--workdir"
    ∷ codes "--runtime"
    ∷ codes "--user"
    ∷ codes "--cap-drop"
    ∷ codes "--security-opt"
    ∷ codes "--pids-limit"
    ∷ codes "--memory"
    ∷ codes "--memory-swap"
    ∷ codes "--cpus"
    ∷ codes "--ulimit"
    ∷ codes "--env"
    ∷ []

abbrev pub is_switch : Text → Bool
is_switch word = any (list_eq word) switches

abbrev pub is_valued : Text → Bool
is_valued word = any (list_eq word) valued

-- The options in force, and the image with its command.
pub record Container : Type 0 where
  pub switched : List Text
  pub options : List (Text × Text)
  pub command : List Text

abbrev finished : List Text → Container
finished words = record { switched = []; options = []; command = words }

-- With an option that waits for its value.
unfoldable read : Option Text → List Text → Container
read waiting [] = finished []
read (some option) (value ∷ words) =
    let inner = read none words in record inner { options = (option, value) ∷ inner.options }
read none (word ∷ words) = elim (is_switch word) [
  | true ↦ let inner = read none words in record inner { switched = word ∷ inner.switched }
  | false ↦ elim (is_valued word) [
    | true ↦ read (some word) words
    | false ↦ finished (word ∷ words)
  ]
]

-- `docker run` and what it is given
unfoldable pub container_of : List Text → Container
unfolding read
container_of (docker ∷ run ∷ words) = read none words
container_of _ = finished []

-- The values of an option, in their order.
abbrev pub values : Text → List (Text × Text) → List Text
values name [] = []
values name (o ∷ os) = let rest = values name os in if list_eq (o.0) name then o.1 ∷ rest else rest

-- A text that docker does not take for an option.
abbrev pub IsPlain : Text → Type 0
IsPlain word = (is_switch word ≡ false) × (is_valued word ≡ false)

abbrev env_options : List (Text × Text) → List (Text × Text)
env_options [] = []
env_options ((key, value) ∷ rest) = (codes "--env", key ++ codes "=" ++ value) ∷ env_options rest

read-env :
    (env : List (Text × Text)) (image : Text) (argv : List Text)
    → IsPlain image
    → read none (env_flags env ++ image ∷ argv)
      ≡ record { switched = []; options = env_options env; command = image ∷ argv }
unfolding read
read-env [] image argv (not_switch, not_valued) = rw (not_switch, read) (rw (not_valued, read) refl)
read-env ((key, value) ∷ rest) image argv h = rw (read-env rest image argv h) refl

values-env :
    (name : Text) (env : List (Text × Text))
    → list_eq (codes "--env") name ≡ false
    → values name (env_options env) ≡ []
values-env name [] h = refl
values-env name ((key, value) ∷ rest) h = rw h (values-env name rest h)

-- An option given once, before the environment.
single :
    (spec : SandboxSpec)
    → IsPlain spec.image
    → (name value : Text) → list_eq (codes "--env") name ≡ false
    → value ∷ values name (read none (env_flags spec.env ++ spec.image ∷ spec.argv)).options
      ≡ value ∷ []
single spec h name value other =
    ap (λ (c : Container). value ∷ values name c.options) (read-env spec.env spec.image spec.argv h)
    ∙ ap (λ vs. value ∷ vs) (values-env name spec.env other)

-- The one volume, with its mode as docker reads it.
abbrev pub Mounted : SandboxSpec → List Text → Type 0
Mounted spec volumes =
    ((spec.writable_artifact ≡ true)
      × (volumes
          ≡ (spec.artifact_dir ++ codes ":" ++ codes "/art" ++ codes ":" ++ codes "rw") ∷ []))
    ⊎ ((spec.writable_artifact ≡ false)
        × (volumes
            ≡ (spec.artifact_dir ++ codes ":" ++ codes "/art" ++ codes ":" ++ codes "ro") ∷ []))

mount-Mounted :
    (spec : SandboxSpec) (volumes : List Text) → volumes ≡ mount spec ∷ [] → Mounted spec volumes
mount-Mounted spec volumes h = elim (Bool-cases spec.writable_artifact) [
  | inl writable ↦ inl (writable, h ∙ rw writable refl)
  | inr fixed ↦ inr (fixed, h ∙ rw fixed refl)
]

-- What a container is held to, by what docker reads in its command line.
abbrev pub Held : SandboxSpec → Container → Type 0
Held spec c =
    (c.command ≡ spec.image ∷ spec.argv)
    × (any (list_eq (codes "--read-only")) c.switched ≡ true)
    × (values (codes "--network") c.options ≡ codes "none" ∷ [])
    × (values (codes "--user") c.options ≡ codes "1000:1000" ∷ [])
    × (values (codes "--cap-drop") c.options ≡ codes "ALL" ∷ [])
    × (values (codes "--security-opt") c.options ≡ codes "no-new-privileges" ∷ [])
    × (values (codes "--pids-limit") c.options ≡ decimal spec.pids_limit ∷ [])
    × (values (codes "--memory") c.options ≡ (decimal spec.memory_mb ++ codes "m") ∷ [])
    × (values (codes "--memory-swap") c.options ≡ (decimal spec.memory_mb ++ codes "m") ∷ [])
    × (values (codes "--tmpfs") c.options
        ≡ (codes "/work"
            ++ codes ":rw,noexec,nosuid,nodev,size="
            ++ codes "64m"
            ++ codes ",mode=1777")
          ∷ [])
    × Mounted spec (values (codes "--volume") c.options)

-- Docker reads the image and its command where they are meant to be, whatever the environment and
-- the runtime are, for an image that does not look like an option; and before them each of these
-- exactly once: no network, an unprivileged user without capabilities and without a way to gain
-- privileges, the limit of processes, the memory with no swap beyond it, the temporary file system
-- of 64 MB on /work without programs, and the job's directory on /art, writable if the specification
-- says so and else read-only; and the read-only root.
pub build_run_command-Held :
    (spec : SandboxSpec) → IsPlain spec.image → Held spec (container_of (build_run_command spec))
unfolding container_of build_run_command read decimal
build_run_command-Held spec h =
    let once = single spec h in
    let memory = once (codes "--memory") (megabytes spec.memory_mb) refl in
    let swap = once (codes "--memory-swap") (megabytes spec.memory_mb) refl in
    elim (Bool-cases (list_eq spec.runtime (codes "runc"))) [
      | inl plain ↦ rw plain (
        ap (λ (c : Container). c.command) (read-env spec.env spec.image spec.argv h),
        refl,
        once (codes "--network") (codes "none") refl,
        once (codes "--user") (codes "1000:1000") refl,
        once (codes "--cap-drop") (codes "ALL") refl,
        once (codes "--security-opt") (codes "no-new-privileges") refl,
        once (codes "--pids-limit") (decimal spec.pids_limit) refl,
        memory,
        swap,
        once (codes "--tmpfs") tmpfs refl,
        mount-Mounted spec _ (once (codes "--volume") (mount spec) refl),
      )
      | inr other ↦ rw other (
        ap (λ (c : Container). c.command) (read-env spec.env spec.image spec.argv h),
        refl,
        once (codes "--network") (codes "none") refl,
        once (codes "--user") (codes "1000:1000") refl,
        once (codes "--cap-drop") (codes "ALL") refl,
        once (codes "--security-opt") (codes "no-new-privileges") refl,
        once (codes "--pids-limit") (decimal spec.pids_limit) refl,
        memory,
        swap,
        once (codes "--tmpfs") tmpfs refl,
        mount-Mounted spec _ (once (codes "--volume") (mount spec) refl),
      )
    ]
