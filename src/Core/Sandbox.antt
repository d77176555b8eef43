-- ===== src/Core/Sandbox.antt =====
-- crates/gobrowse-core/src/sandbox.rs: the checks of what a sandbox is asked to run, and of the
-- addresses that it may reach.
pub mod Bounds
pub mod Addresses
pub mod Network
use gobrowseos.Prelude.{
  ℕ, ◌+◌, ◌*◌, min, Bool, true, false, not, ◌&&◌, ◌||◌, List, [], ◌∷◌, any, leb, ltb, ◌==◌, length,
  Result, ok, err, ◌>>=◌, if◌then◌else◌,
}

pub data SandboxValidationError : Type 0 where
  empty_command command_too_large unsafe_path path_too_large : SandboxValidationError
  invalid_terminal_size invalid_limits limits_exceed_hard_ceiling invalid_network :
      SandboxValidationError

pub record ResourceLimits : Type 0 where
  pub cpu_millis : ℕ
  pub memory_bytes : ℕ
  pub writable_storage_bytes : ℕ
  pub pids : ℕ
  pub execution_seconds : ℕ

abbrev pub hard_resource_limits : ResourceLimits
hard_resource_limits = record {
  cpu_millis = 8000;
  memory_bytes = 17179869184;
  writable_storage_bytes = 17179869184;
  pids = 1024;
  execution_seconds = 86400;
}

abbrev pub has_zero : ResourceLimits → Bool
has_zero l =
    l.cpu_millis == 0
    || (l.memory_bytes == 0
        || (l.writable_storage_bytes == 0 || (l.pids == 0 || l.execution_seconds == 0)))

abbrev pub exceeds : ResourceLimits → ResourceLimits → Bool
exceeds l c =
    ltb c.cpu_millis l.cpu_millis
    || (ltb c.memory_bytes l.memory_bytes
        || (ltb c.writable_storage_bytes l.writable_storage_bytes
            || (ltb c.pids l.pids || ltb c.execution_seconds l.execution_seconds)))

unfoldable pub validate_hard_ceiling : ResourceLimits → Result ResourceLimits SandboxValidationError
validate_hard_ceiling l =
    if has_zero l
    then err invalid_limits
    else if exceeds l hard_resource_limits
    then err limits_exceed_hard_ceiling
    else ok l

abbrev pub narrow_to : ResourceLimits → ResourceLimits → ResourceLimits
narrow_to l c = record {
  cpu_millis = min l.cpu_millis c.cpu_millis;
  memory_bytes = min l.memory_bytes c.memory_bytes;
  writable_storage_bytes = min l.writable_storage_bytes c.writable_storage_bytes;
  pids = min l.pids c.pids;
  execution_seconds = min l.execution_seconds c.execution_seconds;
}

-- A `String` is the list of its UTF-8 bytes.
abbrev pub Bytes : Type 0
Bytes = List ℕ

abbrev pub is_empty : Bytes → Bool
is_empty [] = true
is_empty (b ∷ bs) = false

abbrev pub has_nul : Bytes → Bool
has_nul bs = any (λ b. b == 0) bs

abbrev pub total_length : List Bytes → ℕ
total_length [] = 0
total_length (a ∷ args) = length a + total_length args

abbrev pub bad_argument : Bytes → Bool
bad_argument a = is_empty a || (has_nul a || ltb 4096 (length a))

-- `command.is_empty() || command[0].is_empty()`.
abbrev pub no_program : List Bytes → Bool
no_program [] = true
no_program (a ∷ args) = is_empty a

unfoldable pub validate_command : List Bytes → Result (Unit {0}) SandboxValidationError
validate_command command =
    if no_program command
    then err empty_command
    else if ltb 128 (length command)
        || (any bad_argument command || ltb 32768 (total_length command))
    then err command_too_large
    else ok tt

-- `std::path::Component`, with the text of a name.
pub data Component : Type 0 where
  prefix root_dir cur_dir parent_dir : Component
  normal : Bytes → Component

abbrev pub escapes : Component → Bool
escapes prefix = true
escapes root_dir = true
escapes parent_dir = true
escapes cur_dir = false
escapes (normal name) = false

-- The workspace and the network policy are not read by the checks.
pub record TerminalStartRequest : Type 0 where
  pub command : List Bytes
  pub working_directory : Bytes
  pub cols : ℕ
  pub rows : ℕ
  pub limits : ResourceLimits

abbrev pub valid_terminal_size : ℕ → ℕ → Bool
valid_terminal_size cols rows = (leb 20 cols && leb cols 1000) && (leb 5 rows && leb rows 500)

-- `std::path` splits the text: `components` and `is_absolute` are parameters.
module _ (components : Bytes → List Component) (is_absolute : Bytes → Bool) where
  unfoldable pub validate_workspace_path : Bytes → Result Bytes SandboxValidationError
  validate_workspace_path value =
      if is_empty value || has_nul value
      then err unsafe_path
      else if ltb 4096 (length value)
      then err path_too_large
      else if ltb 128 (length (components value))
      then err path_too_large
      else if is_absolute value || any escapes (components value)
      then err unsafe_path
      else ok value

  unfoldable pub validate : TerminalStartRequest → Result Bytes SandboxValidationError
  unfolding validate_command validate_hard_ceiling validate_workspace_path
  validate r = do
    started ← validate_command r.command
    path ← validate_workspace_path r.working_directory
    if not (valid_terminal_size r.cols r.rows)
        then err invalid_terminal_size
        else do checked ← validate_hard_ceiling r.limits; ok path

-- The four octets of an address.
pub record Ipv4Addr : Type 0 where
  pub a : ℕ
  pub b : ℕ
  pub c : ℕ
  pub d : ℕ

unfoldable pub is_public_v4 : Ipv4Addr → Bool
is_public_v4 ip =
    let a = ip.a in
    let b = ip.b in
    let c = ip.c in
    not (
      a == 0
      || (a == 10
          || (a == 127
              || ((a == 100 && (leb 64 b && leb b 127))
                  || ((a == 169 && b == 254)
                      || ((a == 172 && (leb 16 b && leb b 31))
                          || ((a == 192 && (b == 0 && c == 0))
                              || ((a == 192 && (b == 0 && c == 2))
                                  || ((a == 192 && b == 168)
                                      || ((a == 198 && (b == 18 || b == 19))
                                          || ((a == 198 && (b == 51 && c == 100))
                                              || ((a == 203 && (b == 0 && c == 113))
                                                  || leb 224 a))))))))))))
