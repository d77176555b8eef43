-- ===== src/Server/Authorize/Agreement.antt =====
-- crates/gobrowse-server/src/authorize.rs: when the cache gives the answer of the policies and the
-- matrix.
use Prim.Native.String.{String}
use text.Mathlib.Text.{◌==◌ as str_eq}
use gobrowseos.Prelude.{
  ℕ, ◌≡◌, refl, sym, ap, ◌∙◌, subst, Bool, true, false, ◌||◌, Option, none, some, List, [], ◌∷◌,
  all, arith, ◌==◌, if◌then◌else◌, Bool-cases, inl, inr,
}
use gobrowseos.Server.Authorize.{
  Actor, human, agent, plugin, mcp, webhook, RiskClass, Action, admin, context_retrieve,
  access_secret, webhook_deliver, execute, Resource, book, conversation, provider, model, workspace,
  mcp_server, sandbox, secret, Decision, allow, deny, action_key, resource_key, allow_if,
  is_owned_kind, member_decision, viewer_decision, webhook_decision, default_matrix_decision,
}
use gobrowseos.Server.Authorize.Decide.{
  Database, CacheKey, Authority, same_key, key_of, cached, policy_decision, first_policy, decide,
  authorize_uncached, authorize,
}
use gobrowseos.Server.Authorize.Coherence.{
  AuthCall, authorize_call, call_key, call_short_circuits, run_calls, same_key_sound,
}

-- Actors whose permissions are all in their key.
abbrev pub is_keyed : Actor → Bool
is_keyed (human user role) = true
is_keyed (webhook id) = true
is_keyed Actor.system = true
is_keyed _ = false

abbrev pub member_by_key : ℕ → ℕ → Decision
member_by_key action resource =
    if action == 0
    then allow
    else if action == 1 || action == 2
    then allow_if (resource == 0 || resource == 1)
    else if action == 7 || action == 8
    then allow
    else deny

abbrev pub role_by_key : String → ℕ → ℕ → Decision
role_by_key role action resource =
    if str_eq role "OWNER"
    then allow
    else if str_eq role "ADMIN"
    then allow
    else if str_eq role "MEMBER"
    then member_by_key action resource
    else if str_eq role "VIEWER"
    then allow_if (action == 0)
    else deny

-- The matrix for such an actor, from the keys alone.
abbrev pub matrix_by_key : CacheKey → Decision
matrix_by_key k =
    if k.actor.kind == 0
    then role_by_key k.actor.role k.action k.resource
    else if k.actor.kind == 4
    then allow_if (k.action == 6)
    else allow

owned_by_key :
    (resource : Resource)
    → is_owned_kind resource ≡ (resource_key resource == 0 || resource_key resource == 1)
owned_by_key (book id) = refl
owned_by_key (conversation id) = refl
owned_by_key (provider name) = refl
owned_by_key (model name) = refl
owned_by_key (workspace id) = refl
owned_by_key (Resource.plugin id) = refl
owned_by_key (mcp_server id) = refl
owned_by_key sandbox = refl
owned_by_key (secret name) = refl
owned_by_key Resource.system = refl

member_agrees :
    (action : Action) (resource : Resource)
    → member_decision action resource ≡ member_by_key (action_key action) (resource_key resource)
member_agrees Action.read resource = refl
member_agrees Action.write resource = ap allow_if (owned_by_key resource)
member_agrees Action.delete resource = ap allow_if (owned_by_key resource)
member_agrees admin resource = refl
member_agrees context_retrieve resource = refl
member_agrees access_secret resource = refl
member_agrees webhook_deliver resource = refl
member_agrees (execute RiskClass.read) resource = refl
member_agrees (execute RiskClass.write) resource = refl
member_agrees (execute RiskClass.destructive) resource = refl
member_agrees (execute RiskClass.system) resource = refl

viewer_agrees : (action : Action) → viewer_decision action ≡ allow_if (action_key action == 0)
viewer_agrees Action.read = refl
viewer_agrees Action.write = refl
viewer_agrees Action.delete = refl
viewer_agrees admin = refl
viewer_agrees context_retrieve = refl
viewer_agrees access_secret = refl
viewer_agrees webhook_deliver = refl
viewer_agrees (execute RiskClass.read) = refl
viewer_agrees (execute RiskClass.write) = refl
viewer_agrees (execute RiskClass.destructive) = refl
viewer_agrees (execute RiskClass.system) = refl

webhook_agrees : (action : Action) → webhook_decision action ≡ allow_if (action_key action == 6)
webhook_agrees Action.read = refl
webhook_agrees Action.write = refl
webhook_agrees Action.delete = refl
webhook_agrees admin = refl
webhook_agrees context_retrieve = refl
webhook_agrees access_secret = refl
webhook_agrees webhook_deliver = refl
webhook_agrees (execute RiskClass.read) = refl
webhook_agrees (execute RiskClass.write) = refl
webhook_agrees (execute RiskClass.destructive) = refl
webhook_agrees (execute RiskClass.system) = refl

matrix_agrees :
    (actor : Actor) (action : Action) (resource : Resource)
    → is_keyed actor ≡ true
    → default_matrix_decision actor action resource ≡ matrix_by_key (key_of actor action resource)
unfolding default_matrix_decision
matrix_agrees (human user role) action resource h =
    rw (member_agrees action resource, viewer_agrees action) refl
matrix_agrees (webhook id) action resource h = webhook_agrees action
matrix_agrees Actor.system action resource h = refl
matrix_agrees (agent run permissions) action resource h = absurd cc
matrix_agrees (plugin id permissions) action resource h = absurd cc
matrix_agrees (mcp id permissions) action resource h = absurd cc

-- What is decided for a key.
abbrev pub decide_by_key : Database → ℕ → CacheKey → Decision
decide_by_key db profile k = policy_decision (first_policy profile k db.policies) (matrix_by_key k)

-- A question for one profile.
pub record Ask : Type 0 where
  pub user_id : Option ℕ
  pub actor : Actor
  pub action : Action
  pub resource : Resource

module _ (db : Database) (profile : ℕ) where
  abbrev pub call_of : Ask → AuthCall
  call_of a = record {
    database = db;
    context = record { profile_id = profile; user_id = a.user_id };
    actor = a.actor;
    action = a.action;
    resource = a.resource;
  }

  abbrev pub calls_of : List Ask → List AuthCall
  calls_of [] = []
  calls_of (a ∷ rest) = call_of a ∷ calls_of rest

  -- What is decided without a cache.
  abbrev pub decide_ask : Ask → Decision
  decide_ask a =
      decide db (record { profile_id = profile; user_id = a.user_id }) a.actor a.action a.resource

  decide_ask-key :
      (a : Ask)
      → is_keyed a.actor ≡ true
      → decide_ask a ≡ decide_by_key db profile (call_key (call_of a))
  unfolding decide
  decide_ask-key a keyed =
      ap (policy_decision (first_policy profile (call_key (call_of a)) db.policies))
        (matrix_agrees a.actor a.action a.resource keyed)

  Agrees : Authority → Type 0
  Agrees s =
      (k : CacheKey) (d : Decision)
      → cached k s.policy_cache ≡ some d
      → d ≡ decide_by_key db profile k

  uncached-Agrees :
      (a : Ask) (s : Authority) (o : Option Decision)
      → is_keyed a.actor ≡ true
      → cached (call_key (call_of a)) s.policy_cache ≡ o
      → Agrees s
      → let c = call_of a in
        let answer = authorize_uncached db s c.context a.actor a.action a.resource o in
        Agrees answer.0 × (answer.1 ≡ decide_ask a)
  unfolding Agrees
  uncached-Agrees a s (some d) keyed e h =
      (h, h (call_key (call_of a)) d e ∙ sym (decide_ask-key a keyed))
  uncached-Agrees a s none keyed e h = (
    λ k d found. elim (Bool-cases (same_key (call_key (call_of a)) k)) [
      | inr other ↦ h k d (
          subst (λ b. (if b then some (decide_ask a) else cached k s.policy_cache) ≡ some d) other
            found)
      | inl same ↦
          let first : some (decide_ask a) ≡ some d =
            subst (λ b. (if b then some (decide_ask a) else cached k s.policy_cache) ≡ some d) same
              found in
          let is_decided : d ≡ decide_ask a = cc in
          is_decided
          ∙ decide_ask-key a keyed
          ∙ ap (decide_by_key db profile) (same_key_sound (call_key (call_of a)) k same)
    ],
    refl,
  )

  -- The answer to a question, with the short cut.
  abbrev pub answer_of : Ask → Decision
  answer_of a = if call_short_circuits (call_of a) then allow else decide_ask a

  ask-Agrees :
      (a : Ask) (s : Authority)
      → is_keyed a.actor ≡ true
      → Agrees s
      → Agrees (authorize_call (call_of a) s).0 × ((authorize_call (call_of a) s).1 ≡ answer_of a)
  unfolding authorize
  ask-Agrees a s keyed h = elim (Bool-cases (call_short_circuits (call_of a))) [
    | inl short ↦ rw short (h, refl)
    | inr long ↦
        rw long (uncached-Agrees a s (cached (call_key (call_of a)) s.policy_cache) keyed refl h)
  ]

  run-Agrees :
      (asks : List Ask) (s : Authority)
      → all (λ a. is_keyed a.actor) asks ≡ true
      → Agrees s
      → Agrees (run_calls (calls_of asks) s)
  unfolding run_calls
  run-Agrees [] s keyed h = h
  run-Agrees (a ∷ asks) s keyed h =
      run-Agrees asks (authorize_call (call_of a) s).0 (ground arith)
        (ask-Agrees a s (ground arith) h).0

  -- From an empty cache, with unchanged policies and over any questions for one profile by people,
  -- webhooks and the system, asked one after the other, every answer is that of the short cut or
  -- else of the policies and the matrix, as if there were no cache.
  pub authorize_agrees :
      (asks : List Ask) (a : Ask) (s : Authority)
      → s.policy_cache ≡ []
      → all (λ a. is_keyed a.actor) asks ≡ true
      → is_keyed a.actor ≡ true
      → (authorize_call (call_of a) (run_calls (calls_of asks) s)).1 ≡ answer_of a
  unfolding Agrees
  authorize_agrees asks a s empty keyed here =
      (ask-Agrees a (run_calls (calls_of asks) s) here
        (run-Agrees asks s keyed (λ k d found. absurd (ground arith)))).1
