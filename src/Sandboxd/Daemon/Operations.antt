-- ===== src/Sandboxd/Daemon/Operations.antt =====
-- crates/gobrowse-core/src/sandbox.rs, `SandboxOperation` and `RequestEnvelope`, and how
-- crates/gobrowse-sandboxd/src/daemon.rs sorts the operations.
use Prim.Native.String.{String}
use text.Mathlib.Text.{◌==◌ as str_eq}
use gobrowseos.Prelude.{
  ℕ, Bool, true, false, ◌&&◌, ◌||◌, Option, none, some, List, [], ◌∷◌, any, all, if◌then◌else◌,
}
use gobrowseos.Core.Sandbox.{Bytes, TerminalStartRequest}
use gobrowseos.Core.Sandbox.Network.{NetworkPolicy}

-- `TerminalStartRequest` with the fields that its checks do not read.
pub record StartRequest : Type 0 where
  pub workspace_id : ℕ
  pub checked : TerminalStartRequest
  pub network_policy : NetworkPolicy

pub data SandboxOperation : Type 0 where
  health : SandboxOperation
  provision_workspace : ℕ → SandboxOperation
  start : ℕ → StartRequest → SandboxOperation
  input : ℕ → ℕ → Bytes → SandboxOperation
  read_output : ℕ → ℕ → ℕ → ℕ → SandboxOperation
  ack_output : ℕ → ℕ → SandboxOperation
  resize : ℕ → ℕ → ℕ → SandboxOperation
  interrupt processes : ℕ → SandboxOperation
  kill : ℕ → ℕ → SandboxOperation
  terminate inspect reconnect : ℕ → SandboxOperation
  fs_list fs_read fs_metadata : ℕ → Bytes → SandboxOperation
  fs_search : ℕ → Bytes → Bytes → SandboxOperation
  fs_write : ℕ → Bytes → Bytes → SandboxOperation
  fs_patch : ℕ → Bytes → Bytes → Bytes → SandboxOperation
  fs_mkdir : ℕ → Bytes → SandboxOperation
  fs_move fs_copy : ℕ → Bytes → Bytes → SandboxOperation
  fs_delete : ℕ → Bytes → SandboxOperation

pub record RequestEnvelope : Type 0 where
  pub version : ℕ
  pub request_id : ℕ
  pub token : Bytes
  pub operation : SandboxOperation

unfoldable pub is_non_idempotent : SandboxOperation → Bool
is_non_idempotent (start terminal_id request) = true
is_non_idempotent (input terminal_id input_id data_base64) = true
is_non_idempotent (resize terminal_id cols rows) = true
is_non_idempotent (terminate terminal_id) = true
is_non_idempotent (fs_write workspace_id path data_base64) = true
is_non_idempotent (fs_patch workspace_id path sha data_base64) = true
is_non_idempotent (fs_mkdir workspace_id path) = true
is_non_idempotent (fs_move workspace_id source target) = true
is_non_idempotent (fs_copy workspace_id source target) = true
is_non_idempotent (fs_delete workspace_id path) = true
is_non_idempotent _ = false

unfoldable pub terminal_mutation : SandboxOperation → Option (ℕ × String)
terminal_mutation (start terminal_id request) = some (terminal_id, "start")
terminal_mutation (input terminal_id input_id data_base64) = some (terminal_id, "input")
terminal_mutation (ack_output terminal_id cursor) = some (terminal_id, "ack_output")
terminal_mutation (resize terminal_id cols rows) = some (terminal_id, "resize")
terminal_mutation (interrupt terminal_id) = some (terminal_id, "interrupt")
terminal_mutation (kill terminal_id pid) = some (terminal_id, "kill")
terminal_mutation (terminate terminal_id) = some (terminal_id, "terminate")
terminal_mutation _ = none

unfoldable pub terminal_id : SandboxOperation → Option ℕ
terminal_id (start id request) = some id
terminal_id (input id input_id data_base64) = some id
terminal_id (read_output id after_cursor max_bytes wait_ms) = some id
terminal_id (ack_output id cursor) = some id
terminal_id (resize id cols rows) = some id
terminal_id (interrupt id) = some id
terminal_id (processes id) = some id
terminal_id (kill id pid) = some id
terminal_id (terminate id) = some id
terminal_id (inspect id) = some id
terminal_id (reconnect id) = some id
terminal_id _ = none

-- The fields that an operation may have, by its name.
abbrev pub allowed : String → Option (List String)
allowed name =
    if str_eq name "health"
    then some ("op" ∷ [])
    else if str_eq name "provision_workspace"
    then some ("op" ∷ "workspace_id" ∷ [])
    else if str_eq name "start"
    then some ("op" ∷ "terminal_id" ∷ "request" ∷ [])
    else if str_eq name "input"
    then some ("op" ∷ "terminal_id" ∷ "input_id" ∷ "data_base64" ∷ [])
    else if str_eq name "read_output"
    then some ("op" ∷ "terminal_id" ∷ "after_cursor" ∷ "max_bytes" ∷ "wait_ms" ∷ [])
    else if str_eq name "ack_output"
    then some ("op" ∷ "terminal_id" ∷ "cursor" ∷ [])
    else if str_eq name "resize"
    then some ("op" ∷ "terminal_id" ∷ "cols" ∷ "rows" ∷ [])
    else if any (str_eq name)
        ("interrupt" ∷ "processes" ∷ "terminate" ∷ "inspect" ∷ "reconnect" ∷ [])
    then some ("op" ∷ "terminal_id" ∷ [])
    else if str_eq name "kill"
    then some ("op" ∷ "terminal_id" ∷ "pid" ∷ [])
    else if any (str_eq name)
        ("fs_list" ∷ "fs_read" ∷ "fs_metadata" ∷ "fs_mkdir" ∷ "fs_delete" ∷ [])
    then some ("op" ∷ "workspace_id" ∷ "path" ∷ [])
    else if str_eq name "fs_search"
    then some ("op" ∷ "workspace_id" ∷ "path" ∷ "query" ∷ [])
    else if str_eq name "fs_write"
    then some ("op" ∷ "workspace_id" ∷ "path" ∷ "data_base64" ∷ [])
    else if str_eq name "fs_patch"
    then some ("op" ∷ "workspace_id" ∷ "path" ∷ "expected_sha256" ∷ "data_base64" ∷ [])
    else if str_eq name "fs_move" || str_eq name "fs_copy"
    then some ("op" ∷ "workspace_id" ∷ "from" ∷ "to" ∷ [])
    else none

abbrev pub contains : List String → String → Bool
contains names key = any (str_eq key) names

module _ {V : Type 0} where
  -- The keys of an object are all different.
  abbrev pub get : String → List (String × V) → Option V
  get key [] = none
  get key ((k, v) ∷ rest) = if str_eq k key then some v else get key rest

-- `serde_json::Value` stands outside: whether a value is an object or a string is a parameter.
module _ {Value : Type 0} (as_object : Value → Option (List (String × Value)))
    (as_str : Value → Option String) where
  abbrev pub keys : List (String × Value) → List String
  keys [] = []
  keys ((k, v) ∷ rest) = k ∷ keys rest

  abbrev pub keys_allowed : List (String × Value) → Option (List String) → Bool
  keys_allowed operation none = false
  keys_allowed operation (some names) = all (contains names) (keys operation)

  abbrev pub named_shape : List (String × Value) → Option String → Bool
  named_shape operation none = false
  named_shape operation (some name) = keys_allowed operation (allowed name)

  abbrev pub text_of : Option Value → Option String
  text_of none = none
  text_of (some v) = as_str v

  abbrev pub object_of : Option Value → Option (List (String × Value))
  object_of none = none
  object_of (some v) = as_object v

  abbrev pub operation_shape : Option (List (String × Value)) → Bool
  operation_shape none = false
  operation_shape (some operation) = named_shape operation (text_of (get "op" operation))

  abbrev pub envelope_shape : Option (List (String × Value)) → Bool
  envelope_shape none = false
  envelope_shape (some envelope) =
      all (contains ("version" ∷ "request_id" ∷ "token" ∷ "operation" ∷ [])) (keys envelope)
      && operation_shape (object_of (get "operation" envelope))

  unfoldable pub valid_wire_shape : Value → Bool
  valid_wire_shape value = envelope_shape (as_object value)
