-- ===== src/Server/Authorize/Matrix.antt =====
-- crates/gobrowse-server/src/authorize.rs: what the default matrix allows.
use Prim.Native.String.{String}
use text.Mathlib.Text.{◌==◌ as str_eq}
use gobrowseos.Prelude.{◌≡◌, refl, Bool, true, false, ◌||◌, List, any, arith, if◌then◌else◌}
use gobrowseos.Server.Authorize.{
  Actor, human, agent, plugin, mcp, webhook, Action, admin, context_retrieve, access_secret,
  webhook_deliver, execute, Resource, RiskClass, allow, member_decision, viewer_decision,
  role_decision, agent_decision, permitted_decision, webhook_decision, default_matrix_decision,
  PermissionPreview,
}

-- An owner, an administrator or the system.
abbrev pub is_trusted : Actor → Bool
is_trusted (human user role) = str_eq role "OWNER" || str_eq role "ADMIN"
is_trusted Actor.system = true
is_trusted _ = false

-- Administration, and running what destroys or changes the system.
abbrev pub is_privileged : Action → Bool
is_privileged admin = true
is_privileged (execute RiskClass.destructive) = true
is_privileged (execute RiskClass.system) = true
is_privileged _ = false

abbrev pub may_read_secrets : Actor → Bool
may_read_secrets (agent run permissions) = any (str_eq "access_secret") permissions
may_read_secrets actor = is_trusted actor

-- The actions that only the trusted may take.
abbrev pub is_guarded : Action → Bool
is_guarded access_secret = true
is_guarded action = is_privileged action

member_denied :
    (action : Action) (resource : Resource)
    → is_guarded action ≡ true
    → member_decision action resource ≡ allow
    → ⊥
member_denied Action.read resource r h = absurd (ground arith)
member_denied Action.write resource r h = absurd (ground arith)
member_denied Action.delete resource r h = absurd (ground arith)
member_denied admin resource r h = absurd (ground arith)
member_denied context_retrieve resource r h = absurd (ground arith)
member_denied access_secret resource r h = absurd (ground arith)
member_denied webhook_deliver resource r h = absurd (ground arith)
member_denied (execute RiskClass.read) resource r h = absurd (ground arith)
member_denied (execute RiskClass.write) resource r h = absurd (ground arith)
member_denied (execute RiskClass.destructive) resource r h = absurd (ground arith)
member_denied (execute RiskClass.system) resource r h = absurd (ground arith)

viewer_denied : (action : Action) → is_guarded action ≡ true → viewer_decision action ≡ allow → ⊥
viewer_denied Action.read r h = absurd (ground arith)
viewer_denied Action.write r h = absurd (ground arith)
viewer_denied Action.delete r h = absurd (ground arith)
viewer_denied admin r h = absurd (ground arith)
viewer_denied context_retrieve r h = absurd (ground arith)
viewer_denied access_secret r h = absurd (ground arith)
viewer_denied webhook_deliver r h = absurd (ground arith)
viewer_denied (execute RiskClass.read) r h = absurd (ground arith)
viewer_denied (execute RiskClass.write) r h = absurd (ground arith)
viewer_denied (execute RiskClass.destructive) r h = absurd (ground arith)
viewer_denied (execute RiskClass.system) r h = absurd (ground arith)

role_trusted :
    (role : String) (action : Action) (resource : Resource)
    → is_guarded action ≡ true
    → role_decision role action resource ≡ allow
    → (str_eq role "OWNER" || str_eq role "ADMIN") ≡ true
role_trusted role action resource r h =
    ground (arith, member_denied action resource r, viewer_denied action r)

agent_guarded :
    (permissions : List String) (action : Action)
    → is_guarded action ≡ true
    → agent_decision permissions action ≡ allow
    → (is_privileged action ≡ false) × (any (str_eq "access_secret") permissions ≡ true)
agent_guarded permissions Action.read r h = absurd (ground arith)
agent_guarded permissions Action.write r h = absurd (ground arith)
agent_guarded permissions Action.delete r h = absurd (ground arith)
agent_guarded permissions admin r h = absurd (ground arith)
agent_guarded permissions context_retrieve r h = absurd (ground arith)
agent_guarded permissions access_secret r h = (refl, ground arith)
agent_guarded permissions webhook_deliver r h = absurd (ground arith)
agent_guarded permissions (execute RiskClass.read) r h = absurd (ground arith)
agent_guarded permissions (execute RiskClass.write) r h = absurd (ground arith)
agent_guarded permissions (execute RiskClass.destructive) r h = absurd (ground arith)
agent_guarded permissions (execute RiskClass.system) r h = absurd (ground arith)

permitted_denied :
    (permissions : List PermissionPreview) (action : Action)
    → is_guarded action ≡ true
    → permitted_decision permissions action ≡ allow
    → ⊥
permitted_denied permissions Action.read r h = absurd (ground arith)
permitted_denied permissions Action.write r h = absurd (ground arith)
permitted_denied permissions Action.delete r h = absurd (ground arith)
permitted_denied permissions admin r h = absurd (ground arith)
permitted_denied permissions context_retrieve r h = absurd (ground arith)
permitted_denied permissions access_secret r h = absurd (ground arith)
permitted_denied permissions webhook_deliver r h = absurd (ground arith)
permitted_denied permissions (execute RiskClass.read) r h = absurd (ground arith)
permitted_denied permissions (execute RiskClass.write) r h = absurd (ground arith)
permitted_denied permissions (execute RiskClass.destructive) r h = absurd (ground arith)
permitted_denied permissions (execute RiskClass.system) r h = absurd (ground arith)

webhook_denied : (action : Action) → is_guarded action ≡ true → webhook_decision action ≡ allow → ⊥
webhook_denied Action.read r h = absurd (ground arith)
webhook_denied Action.write r h = absurd (ground arith)
webhook_denied Action.delete r h = absurd (ground arith)
webhook_denied admin r h = absurd (ground arith)
webhook_denied context_retrieve r h = absurd (ground arith)
webhook_denied access_secret r h = absurd (ground arith)
webhook_denied webhook_deliver r h = absurd (ground arith)
webhook_denied (execute RiskClass.read) r h = absurd (ground arith)
webhook_denied (execute RiskClass.write) r h = absurd (ground arith)
webhook_denied (execute RiskClass.destructive) r h = absurd (ground arith)
webhook_denied (execute RiskClass.system) r h = absurd (ground arith)

-- Administration and the execution of what is destructive or changes the system are allowed by the
-- matrix only to owners, administrators and the system, and secrets besides them only to an agent
-- that has the permission.
pub guarded_allow :
    (actor : Actor) (action : Action) (resource : Resource)
    → is_guarded action ≡ true
    → default_matrix_decision actor action resource ≡ allow
    → (if is_privileged action then is_trusted actor else may_read_secrets actor) ≡ true
unfolding default_matrix_decision
guarded_allow (human user role) action resource r h =
    ground (arith, role_trusted role action resource r h)
guarded_allow (agent run permissions) action resource r h =
    let (ordinary, permitted) = agent_guarded permissions action r h in rw ordinary permitted
guarded_allow (plugin id permissions) action resource r h =
    absurd (permitted_denied permissions action r h)
guarded_allow (mcp id permissions) action resource r h =
    absurd (permitted_denied permissions action r h)
guarded_allow (webhook id) action resource r h = absurd (webhook_denied action r h)
guarded_allow Actor.system action resource r h = ground arith
