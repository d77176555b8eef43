-- ===== src/Server/Authorize.antt =====
-- crates/gobrowse-server/src/authorize.rs: who may do what. A key that the code renders as a string is
-- kept unrendered: different keys are rendered differently. `log` is the table of audited decisions.
pub mod Decide
pub mod Matrix
pub mod Coherence
pub mod Overlap
pub mod Agreement
mod Tests
use Prim.Native.String.{String}
use text.Mathlib.Text.{◌==◌ as str_eq}
use gobrowseos.Prelude.{
  ℕ, ◌+◌, Bool, true, false, ◌&&◌, Option, List, [], ◌∷◌, any, leb, ltb, ◌==◌, if◌then◌else◌,
}

pub record PermissionPreview : Type 0 where
  pub action : String
  pub resource_pattern : String

pub data Actor : Type 0 where
  human : ℕ → String → Actor
  agent : ℕ → List String → Actor
  plugin mcp : ℕ → List PermissionPreview → Actor
  webhook : ℕ → Actor
  system : Actor

pub data RiskClass : Type 0 where
  read write destructive system : RiskClass

pub data Action : Type 0 where
  read write delete admin context_retrieve access_secret webhook_deliver : Action
  execute : RiskClass → Action

pub data Resource : Type 0 where
  book conversation workspace plugin mcp_server : ℕ → Resource
  provider model secret : String → Resource
  sandbox system : Resource

pub data Decision : Type 0 where
  allow ask deny : Decision

pub record AuthorizationContext : Type 0 where
  pub profile_id : ℕ
  pub user_id : Option ℕ

unfoldable pub from_tool_risk : String → RiskClass
from_tool_risk risk =
    if str_eq risk "read"
    then RiskClass.read
    else if str_eq risk "write"
    then RiskClass.write
    else if str_eq risk "destructive"
    then RiskClass.destructive
    else if str_eq risk "system"
    then RiskClass.system
    else RiskClass.write

-- The derived order of the classes.
abbrev pub risk_rank : RiskClass → ℕ
risk_rank RiskClass.read = 0
risk_rank RiskClass.write = 1
risk_rank RiskClass.destructive = 2
risk_rank RiskClass.system = 3

-- The keys of the cache and of the table of policies, by a number for the kind, and the role.
pub record ActorKey : Type 0 where
  pub kind : ℕ
  pub role : String

abbrev pub actor_key : Actor → ActorKey
actor_key (human user role) = record { kind = 0; role = role }
actor_key (agent run permissions) = record { kind = 1; role = "" }
actor_key (plugin id permissions) = record { kind = 2; role = "" }
actor_key (mcp id permissions) = record { kind = 3; role = "" }
actor_key (webhook id) = record { kind = 4; role = "" }
actor_key Actor.system = record { kind = 5; role = "" }

abbrev pub action_key : Action → ℕ
action_key Action.read = 0
action_key Action.write = 1
action_key Action.delete = 2
action_key admin = 3
action_key context_retrieve = 4
action_key access_secret = 5
action_key webhook_deliver = 6
action_key (execute risk) = 7 + risk_rank risk

abbrev pub resource_key : Resource → ℕ
resource_key (book id) = 0
resource_key (conversation id) = 1
resource_key (provider name) = 2
resource_key (model name) = 3
resource_key (workspace id) = 4
resource_key (Resource.plugin id) = 5
resource_key (mcp_server id) = 6
resource_key sandbox = 7
resource_key (secret name) = 8
resource_key Resource.system = 9

-- `*risk >= RiskClass::Destructive`.
abbrev pub is_dangerous : RiskClass → Bool
is_dangerous risk = leb 2 (risk_rank risk)

abbrev pub allow_if : Bool → Decision
allow_if b = if b then allow else deny

abbrev pub is_owned_kind : Resource → Bool
is_owned_kind (book id) = true
is_owned_kind (conversation id) = true
is_owned_kind _ = false

abbrev pub member_decision : Action → Resource → Decision
member_decision Action.read resource = allow
member_decision Action.write resource = allow_if (is_owned_kind resource)
member_decision Action.delete resource = allow_if (is_owned_kind resource)
member_decision (execute risk) resource = if is_dangerous risk then deny else allow
member_decision _ resource = deny

abbrev pub viewer_decision : Action → Decision
viewer_decision Action.read = allow
viewer_decision _ = deny

abbrev pub role_decision : String → Action → Resource → Decision
role_decision role action resource =
    if str_eq role "OWNER"
    then allow
    else if str_eq role "ADMIN"
    then allow
    else if str_eq role "MEMBER"
    then member_decision action resource
    else if str_eq role "VIEWER"
    then viewer_decision action
    else deny

abbrev pub agent_decision : List String → Action → Decision
agent_decision permissions Action.read = allow
agent_decision permissions Action.write = allow
agent_decision permissions (execute risk) = if is_dangerous risk then ask else allow
agent_decision permissions Action.delete = deny
agent_decision permissions admin = deny
agent_decision permissions context_retrieve = allow
agent_decision permissions access_secret = allow_if (any (str_eq "access_secret") permissions)
agent_decision permissions webhook_deliver = deny

abbrev pub has_permission : String → List PermissionPreview → Bool
has_permission name permissions = any (λ p. str_eq p.action name) permissions

-- Plugins and servers of the Model Context Protocol.
abbrev pub permitted_decision : List PermissionPreview → Action → Decision
permitted_decision permissions Action.read = allow_if (has_permission "read" permissions)
permitted_decision permissions Action.write = allow_if (has_permission "write" permissions)
permitted_decision permissions context_retrieve =
    allow_if (has_permission "context_retrieve" permissions)
permitted_decision permissions _ = deny

abbrev pub webhook_decision : Action → Decision
webhook_decision webhook_deliver = allow
webhook_decision _ = deny

unfoldable pub default_matrix_decision : Actor → Action → Resource → Decision
default_matrix_decision (human user role) action resource = role_decision role action resource
default_matrix_decision (agent run permissions) action resource = agent_decision permissions action
default_matrix_decision (plugin id permissions) action resource =
    permitted_decision permissions action
default_matrix_decision (mcp id permissions) action resource = permitted_decision permissions action
default_matrix_decision (webhook id) action resource = webhook_decision action
default_matrix_decision Actor.system action resource = allow
