-- ===== src/Server/Authorize/Decide.antt =====
-- crates/gobrowse-server/src/authorize.rs, `authorize`: the short cut of a single owner, the cache, the
-- table of policies and the matrix. A query of the database that fails is left out.
use Prim.Native.String.{String}
use text.Mathlib.Text.{◌==◌ as str_eq}
use gobrowseos.Prelude.{
  ℕ, ◌+◌, Bool, false, ◌&&◌, Option, none, some, List, [], ◌∷◌, leb, ◌==◌, if◌then◌else◌,
}
use gobrowseos.Server.Authorize.{
  Actor, human, Action, Resource, Decision, allow, ask, deny, AuthorizationContext, ActorKey,
  actor_key, action_key, resource_key, default_matrix_decision,
}

pub record User : Type 0 where
  pub profile_id : ℕ
  pub role : String

-- A row of `authorization_policies`.
pub record Policy : Type 0 where
  pub profile_id : ℕ
  pub actor : ActorKey
  pub action : ℕ
  pub resource : ℕ
  pub enabled : Bool
  pub priority : ℕ
  pub decision : String

-- `workspaces` holds the profile of each.
pub record Database : Type 0 where
  pub users : List User
  pub workspaces : List ℕ
  pub policies : List Policy

pub record CacheKey : Type 0 where
  pub actor : ActorKey
  pub action : ℕ
  pub resource : ℕ

pub data Reason : Type 0 where
  cache matrix : Reason

-- A row of `audit_events`.
pub record AuditEvent : Type 0 where
  pub context : AuthorizationContext
  pub actor : Actor
  pub action : Action
  pub resource : Resource
  pub outcome : Decision
  pub reason : Reason

pub record Authority : Type 0 where
  pub policy_cache : List (CacheKey × Decision)
  pub log : List AuditEvent

abbrev pub same_actor : ActorKey → ActorKey → Bool
same_actor a b = a.kind == b.kind && str_eq a.role b.role

abbrev pub same_key : CacheKey → CacheKey → Bool
same_key a b = same_actor a.actor b.actor && (a.action == b.action && a.resource == b.resource)

abbrev pub key_of : Actor → Action → Resource → CacheKey
key_of actor action resource = record {
  actor = actor_key actor;
  action = action_key action;
  resource = resource_key resource;
}

-- The latest decision for a key stands first.
abbrev pub cached : CacheKey → List (CacheKey × Decision) → Option Decision
cached k [] = none
cached k ((j, d) ∷ rest) = if same_key j k then some d else cached k rest

abbrev pub users_of : ℕ → List User → List User
users_of profile [] = []
users_of profile (u ∷ us) =
    let rest = users_of profile us in if u.profile_id == profile then u ∷ rest else rest

abbrev pub is_lone_owner : List User → Bool
is_lone_owner [] = false
is_lone_owner (u ∷ []) = str_eq u.role "OWNER"
is_lone_owner (u ∷ v ∷ us) = false

abbrev pub workspace_count : ℕ → List ℕ → ℕ
workspace_count profile [] = 0
workspace_count profile (p ∷ ps) = (if p == profile then 1 else 0) + workspace_count profile ps

abbrev pub is_single_user_owner : Database → ℕ → Bool
is_single_user_owner db profile =
    is_lone_owner (users_of profile db.users) && workspace_count profile db.workspaces == 0

abbrev pub matches : ℕ → CacheKey → Policy → Bool
matches profile k p =
    p.profile_id == profile
    && (same_actor p.actor k.actor
        && (p.action == k.action && (p.resource == k.resource && p.enabled)))

abbrev pub first_of : Policy → Option Policy → Option Policy
first_of p none = some p
first_of p (some q) = if leb p.priority q.priority then some p else some q

-- `ORDER BY priority ASC LIMIT 1`; of equal priorities, the row that stands first.
abbrev pub first_policy : ℕ → CacheKey → List Policy → Option Policy
first_policy profile k [] = none
first_policy profile k (p ∷ ps) =
    let rest = first_policy profile k ps in if matches profile k p then first_of p rest else rest

abbrev pub named_decision : String → Decision → Decision
named_decision name otherwise =
    if str_eq name "ALLOW"
    then allow
    else if str_eq name "ASK"
    then ask
    else if str_eq name "DENY"
    then deny
    else otherwise

abbrev pub policy_decision : Option Policy → Decision → Decision
policy_decision none otherwise = otherwise
policy_decision (some p) otherwise = named_decision p.decision otherwise

-- The policy, or the matrix.
unfoldable pub decide : Database → AuthorizationContext → Actor → Action → Resource → Decision
decide db context actor action resource =
    policy_decision (first_policy context.profile_id (key_of actor action resource) db.policies)
      (default_matrix_decision actor action resource)

abbrev pub is_owner : Actor → Bool
is_owner (human user role) = str_eq role "OWNER"
is_owner _ = false

abbrev pub short_circuits : Database → AuthorizationContext → Actor → Bool
short_circuits db context actor = is_owner actor && is_single_user_owner db context.profile_id

abbrev pub audit_decision :
    Authority → AuthorizationContext → Actor → Action → Resource → Decision → Reason → Authority
audit_decision s context actor action resource decision reason =
    let event : AuditEvent = record {
      context = context;
      actor = actor;
      action = action;
      resource = resource;
      outcome = decision;
      reason = reason;
    } in
    record s { log = event ∷ s.log }

-- What the cache, read under its lock, answers: none for a miss.
abbrev pub hit :
    Authority
    → AuthorizationContext
    → Actor
    → Action
    → Resource
    → Option Decision
    → Authority × Option Decision
hit s context actor action resource (some d) =
    (audit_decision s context actor action resource d Reason.cache, some d)
hit s context actor action resource none = (s, none)

-- The first step of a call: the short cut or the cache answers, or the call goes on without the
-- lock to query the policies.
abbrev pub look_up :
    Database
    → Authority
    → AuthorizationContext
    → Actor
    → Action
    → Resource
    → Authority × Option Decision
look_up db s context actor action resource =
    if short_circuits db context actor
    then (s, some allow)
    else hit s context actor action resource (cached (key_of actor action resource) s.policy_cache)

-- The last step of a call that missed: it takes the lock again and puts its decision into the
-- cache, over one that another call may have put there since.
abbrev pub store_decision :
    Authority → AuthorizationContext → Actor → Action → Resource → Decision → Authority
store_decision s context actor action resource d =
    let s' = record s { policy_cache = (key_of actor action resource, d) ∷ s.policy_cache } in
    audit_decision s' context actor action resource d Reason.matrix

abbrev pub finish_call :
    Database
    → AuthorizationContext
    → Actor
    → Action
    → Resource
    → Authority × Option Decision
    → Authority × Decision
finish_call db context actor action resource (s, some d) = (s, d)
finish_call db context actor action resource (s, none) =
    let d = decide db context actor action resource in
    (store_decision s context actor action resource d, d)

abbrev pub authorize_uncached :
    Database
    → Authority
    → AuthorizationContext
    → Actor
    → Action
    → Resource
    → Option Decision
    → Authority × Decision
authorize_uncached db s context actor action resource o =
    finish_call db context actor action resource (hit s context actor action resource o)

-- A call whose two steps no step of another call comes between; calls that overlap are sequences of
-- their steps (`Overlap`).
unfoldable pub authorize :
    Database → Authority → AuthorizationContext → Actor → Action → Resource → Authority × Decision
authorize db s context actor action resource =
    finish_call db context actor action resource (look_up db s context actor action resource)

unfoldable pub invalidate_policy_cache : Authority → Authority
invalidate_policy_cache s = record s { policy_cache = [] }
