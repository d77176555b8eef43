-- ===== src/Sandboxd/Daemon/Dispatch/Tests.antt =====
-- Tests of the operations of daemon.rs. The world counts the calls.
use gobrowseos.Prelude.{ℕ, suc, true, false, Option, none, some, List, [], ◌∷◌, length, ok}
use gobrowseos.Core.Sandbox.{Bytes, Component, normal, ResourceLimits, hard_resource_limits}
use gobrowseos.Core.Sandbox.Network.{full}
use gobrowseos.Sandboxd.Journal.Tables.{TerminalState}
use gobrowseos.Sandboxd.Journal.Terminals.{TerminalRecord}
use gobrowseos.Sandboxd.Daemon.Operations.{StartRequest}
use gobrowseos.Sandboxd.Daemon.Workspaces.{Pauses}
use gobrowseos.Sandboxd.Daemon.Dispatch.{NetworkPolicyConfig, Services, SandboxResult}

-- Every four characters stand for three bytes that are dropped.
abbrev encode : Bytes → Bytes
encode bytes = 65 ∷ 66 ∷ 67 ∷ 68 ∷ []

abbrev decode : Bytes → Option Bytes
decode value = some (1 ∷ 2 ∷ 3 ∷ [])

abbrev terminal : TerminalRecord
terminal = record {
  terminal_id = 3;
  workspace_id = 5;
  state = TerminalState.running;
  cols = 80;
  rows = 24;
  exit_code = none;
  reason = none;
  output_start_cursor = 0;
  output_end_cursor = 0;
  acked_cursor = 0;
  output_complete = true;
}

abbrev pauses : Pauses ℕ
pauses = record {
  pause_workspace = λ ws w. (suc w, ok (record { terminal_ids = [] }));
  resume_workspace = λ pause w. (suc w, ok tt);
  chown_workspace_path = λ ws path recursive w. (suc w, ok tt);
  terminate = λ t w. (suc w, ok tt);
  require_directory = λ ws path w. (suc w, ok tt);
}

abbrev services : Services ℕ ℕ
services = record {
  pauses = pauses;
  start = λ s w. (suc w, ok tt);
  input = λ t i bytes w. (suc w, ok (record { bytes = length bytes; replayed = false }));
  read_output = λ t after max wait w.
      (suc w, ok (record { start_cursor = 0; next_cursor = 0; bytes = []; terminal = terminal }));
  ack_output = λ t cursor w. (suc w, ok cursor);
  resize = λ t cols rows w. (suc w, ok tt);
  interrupt = λ t w. (suc w, ok tt);
  processes = λ t w. (suc w, ok []);
  kill = λ t pid w. (suc w, ok tt);
  inspect = λ t w. (suc w, ok terminal);
  provision_workspace = λ ws w. (suc w, ok tt);
  ensure_workspace = λ ws w. (suc w, ok tt);
  workspace_storage = λ ws w. (suc w, ok []);
  list = λ ws path w. (suc w, ok []);
  read = λ ws path w. (suc w, ok ([], []));
  metadata = λ ws path w. (suc w, ok 0);
  search = λ ws path query w. (suc w, ok []);
  write = λ ws path bytes w. (suc w, ok []);
  patch = λ ws path sha bytes w. (suc w, ok []);
  mkdir = λ ws path w. (suc w, ok tt);
  move_entry = λ ws source target w. (suc w, ok tt);
  copy = λ ws source target w. (suc w, ok tt);
  delete = λ ws path w. (suc w, ok tt);
}

abbrev one_name : Bytes → List Component
one_name path = normal path ∷ []

abbrev asked : ResourceLimits
asked = record hard_resource_limits { cpu_millis = 500 }

abbrev request : StartRequest
request = record {
  workspace_id = 5;
  checked = record {
    command = (115 ∷ 104 ∷ []) ∷ [];
    working_directory = 97 ∷ [];
    cols = 80;
    rows = 24;
    limits = asked;
  };
  network_policy = full;
}

abbrev config : NetworkPolicyConfig
config = record { restricted_network = none; allow_full = true }

abbrev answer : SandboxResult ℕ
answer = SandboxResult.started 3 asked full
