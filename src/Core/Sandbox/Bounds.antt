-- ===== src/Core/Sandbox/Bounds.antt =====
-- sandbox.rs: what a request that passes the checks may contain.
use gobrowseos.Prelude.{
  ◌≤◌, ◌<◌, ◌≡◌, refl, Bool, true, false, ◌||◌, List, [], ◌∷◌, any, All, arith, length, ok,
  Bool-cases, Result-cases, inl, inr,
}
use gobrowseos.Core.Sandbox.{
  ResourceLimits, hard_resource_limits, has_zero, exceeds, validate_hard_ceiling, narrow_to, Bytes,
  is_empty, has_nul, total_length, bad_argument, validate_command, Component, escapes,
  validate_workspace_path, TerminalStartRequest, valid_terminal_size, validate,
}

-- Limits that are positive and no larger than others.
pub record IsWithin (l c : ResourceLimits) : Type 0 where
  pub cpu : (0 < l.cpu_millis) × (l.cpu_millis ≤ c.cpu_millis)
  pub memory : (0 < l.memory_bytes) × (l.memory_bytes ≤ c.memory_bytes)
  pub storage :
      (0 < l.writable_storage_bytes) × (l.writable_storage_bytes ≤ c.writable_storage_bytes)
  pub processes : (0 < l.pids) × (l.pids ≤ c.pids)
  pub seconds : (0 < l.execution_seconds) × (l.execution_seconds ≤ c.execution_seconds)

limits_sound : (l c : ResourceLimits) → has_zero l ≡ false → exceeds l c ≡ false → IsWithin l c
limits_sound l c z e = record {
  cpu = (ground arith, ground arith);
  memory = (ground arith, ground arith);
  storage = (ground arith, ground arith);
  processes = (ground arith, ground arith);
  seconds = (ground arith, ground arith);
}

pub validate_hard_ceiling_sound :
    (l k : ResourceLimits) → validate_hard_ceiling l ≡ ok k → IsWithin l hard_resource_limits
unfolding validate_hard_ceiling
validate_hard_ceiling_sound l k h = elim (Bool-cases (has_zero l)) [
  | inl z ↦ absurd (ground arith)
  | inr z ↦ elim (Bool-cases (exceeds l hard_resource_limits)) [
    | inl e ↦ absurd (ground arith)
    | inr e ↦ limits_sound l hard_resource_limits z e
  ]
]

pub limits_complete :
    (l c : ResourceLimits) → IsWithin l c → (has_zero l ≡ false) × (exceeds l c ≡ false)
limits_complete l c h = (
  ground (arith, h.cpu, h.memory, h.storage, h.processes, h.seconds),
  ground (arith, h.cpu, h.memory, h.storage, h.processes, h.seconds),
)

-- Positive limits that are narrowed to a ceiling which passes the check pass it as well, and none
-- of them is above the ceiling or above what was asked for.
pub narrow_to-valid :
    (l c : ResourceLimits)
    → has_zero l ≡ false
    → validate_hard_ceiling c ≡ ok c
    → (validate_hard_ceiling (narrow_to l c) ≡ ok (narrow_to l c))
      × IsWithin (narrow_to l c) c
      × IsWithin (narrow_to l c) l
unfolding validate_hard_ceiling
narrow_to-valid l c z h =
    let top = validate_hard_ceiling_sound c c h in
    let own = limits_sound l l z (ground arith) in
    let narrow : IsWithin (narrow_to l c) hard_resource_limits = record {
      cpu = (omega (arith, own.cpu, top.cpu), omega (arith, top.cpu));
      memory = (omega (arith, own.memory, top.memory), omega (arith, top.memory));
      storage = (omega (arith, own.storage, top.storage), omega (arith, top.storage));
      processes = (omega (arith, own.processes, top.processes), omega (arith, top.processes));
      seconds = (omega (arith, own.seconds, top.seconds), omega (arith, top.seconds));
    } in
    let (positive, below) = limits_complete (narrow_to l c) hard_resource_limits narrow in
    (
      rw positive (rw below refl),
      record {
        cpu = (narrow.cpu.0, omega arith);
        memory = (narrow.memory.0, omega arith);
        storage = (narrow.storage.0, omega arith);
        processes = (narrow.processes.0, omega arith);
        seconds = (narrow.seconds.0, omega arith);
      },
      record {
        cpu = (narrow.cpu.0, omega arith);
        memory = (narrow.memory.0, omega arith);
        storage = (narrow.storage.0, omega arith);
        processes = (narrow.processes.0, omega arith);
        seconds = (narrow.seconds.0, omega arith);
      },
    )

-- A command within the bounds of the protocol.
pub record IsCommand (command : List Bytes) : Type 0 where
  pub some_program : 0 < length command
  pub few : length command ≤ 128
  pub arguments : All (λ a. (0 < length a) × (length a ≤ 4096) × (has_nul a ≡ false)) command
  pub short : total_length command ≤ 32768

arguments_sound :
    (command : List Bytes)
    → any bad_argument command ≡ false
    → All (λ a. (0 < length a) × (length a ≤ 4096) × (has_nul a ≡ false)) command
arguments_sound [] h = tt
arguments_sound ([] ∷ args) h = absurd (ground arith)
arguments_sound ((b ∷ bs) ∷ args) h =
    ((omega arith, ground arith, ground arith), arguments_sound args (ground arith))

validate_command_sound :
    (command : List Bytes) → validate_command command ≡ ok tt → IsCommand command
unfolding validate_command
validate_command_sound [] h = absurd (ground arith)
validate_command_sound (a ∷ args) h = record {
  some_program = omega arith;
  few = ground arith;
  arguments = arguments_sound (a ∷ args) (ground arith);
  short = ground arith;
}

All-inside : (cs : List Component) → any escapes cs ≡ false → All (λ c. escapes c ≡ false) cs
All-inside [] h = tt
All-inside (c ∷ cs) h = (ground arith, All-inside cs (ground arith))

module _ (components : Bytes → List Component) (is_absolute : Bytes → Bool) where
  -- A path that stays below the workspace.
  pub record IsInside (path : Bytes) : Type 0 where
    pub some_bytes : 0 < length path
    pub short : length path ≤ 4096
    pub no_nul : has_nul path ≡ false
    pub few : length (components path) ≤ 128
    pub relative : is_absolute path ≡ false
    pub inside : All (λ c. escapes c ≡ false) (components path)

  IsInside-sound :
      (value : Bytes)
      → has_nul value ≡ false
      → is_empty value ≡ false
      → length value ≤ 4096
      → length (components value) ≤ 128
      → (is_absolute value || any escapes (components value)) ≡ false
      → IsInside value
  IsInside-sound [] n e l c s = absurd cc
  IsInside-sound (b ∷ bs) n e l c s = record {
    some_bytes = omega arith;
    short = l;
    no_nul = n;
    few = c;
    relative = ground arith;
    inside = All-inside (components (b ∷ bs)) (ground arith);
  }

  validate_workspace_path_sound :
      (value path : Bytes)
      → validate_workspace_path components is_absolute value ≡ ok path
      → IsInside value × (path ≡ value)
  unfolding validate_workspace_path
  validate_workspace_path_sound value path h = (
    IsInside-sound value (ground arith) (ground arith) (ground arith) (ground arith) (ground arith),
    ground arith,
  )

  -- For any splitting of paths into components, a start request passes the check only if its
  -- command and its path are within the bounds of the protocol, the path has no component that
  -- leaves the workspace and is the one returned, the size of the terminal is supported, and the
  -- limits are positive and no higher than the hard ceiling.
  pub validate_sound :
      (r : TerminalStartRequest) (path : Bytes)
      → validate components is_absolute r ≡ ok path
      → IsCommand r.command
        × IsInside r.working_directory
        × (path ≡ r.working_directory)
        × (valid_terminal_size r.cols r.rows ≡ true)
        × IsWithin r.limits hard_resource_limits
  unfolding validate
  validate_sound r path h = elim (Result-cases (validate_command r.command)) [
    | inr (e, bad) ↦ absurd (ground arith)
    | inl (u, command) ↦
        elim (Result-cases (validate_workspace_path components is_absolute r.working_directory)) [
          | inr (e, bad) ↦ absurd (ground arith)
          | inl (p, inside) ↦ elim (Bool-cases (valid_terminal_size r.cols r.rows)) [
            | inr bad ↦ absurd (ground arith)
            | inl size ↦ elim (Result-cases (validate_hard_ceiling r.limits)) [
              | inr (e, bad) ↦ absurd (ground arith)
              | inl (k, limits) ↦ (
                validate_command_sound r.command command,
                (validate_workspace_path_sound r.working_directory p inside).0,
                ground (arith, (validate_workspace_path_sound r.working_directory p inside).1),
                size,
                validate_hard_ceiling_sound r.limits k limits,
              )
            ]
          ]
        ]
  ]
