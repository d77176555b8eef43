-- ===== src/Server/Authorize/Coherence.antt =====
-- crates/gobrowse-server/src/authorize.rs: sequences of calls of `authorize`.
use text.Mathlib.TextEquality.{eq_iff}
use gobrowseos.Prelude.{
  ℕ, suc, ◌+◌, ◌≡◌, refl, Bool, true, Option, none, some, List, [], ◌∷◌, length, arith,
  if◌then◌else◌, Bool-cases, inl, inr,
}
use gobrowseos.Server.Authorize.{Actor, Action, Resource, Decision, AuthorizationContext}
use gobrowseos.Server.Authorize.Decide.{
  Database, CacheKey, Authority, same_key, key_of, cached, short_circuits, authorize_uncached,
  authorize,
}

pub record AuthCall : Type 0 where
  pub database : Database
  pub context : AuthorizationContext
  pub actor : Actor
  pub action : Action
  pub resource : Resource

abbrev pub authorize_call : AuthCall → Authority → Authority × Decision
authorize_call c s = authorize c.database s c.context c.actor c.action c.resource

abbrev pub call_key : AuthCall → CacheKey
call_key c = key_of c.actor c.action c.resource

abbrev pub call_short_circuits : AuthCall → Bool
call_short_circuits c = short_circuits c.database c.context c.actor

unfoldable pub run_calls : List AuthCall → Authority → Authority
run_calls [] s = s
run_calls (c ∷ cs) s = run_calls cs (authorize_call c s).0

pub same_key_sound : (a b : CacheKey) → same_key a b ≡ true → a ≡ b
same_key_sound a b h =
    let role : a.actor.role ≡ b.actor.role = (eq_iff a.actor.role b.actor.role).0 (ground arith) in
    let kind : a.actor.kind ≡ b.actor.kind = ground arith in
    let action : a.action ≡ b.action = ground arith in
    let resource : a.resource ≡ b.resource = ground arith in
    λ i. record {
      actor = record { kind = kind i; role = role i };
      action = action i;
      resource = resource i;
    }

abbrev pub shortcuts : List AuthCall → ℕ
shortcuts [] = 0
shortcuts (c ∷ cs) = (if call_short_circuits c then 1 else 0) + shortcuts cs

uncached-log :
    (c : AuthCall) (s : Authority) (o : Option Decision)
    → length (authorize_uncached c.database s c.context c.actor c.action c.resource o).0.log
      ≡ suc (length s.log)
uncached-log c s none = refl
uncached-log c s (some d) = refl

call-log :
    (c : AuthCall) (s : Authority)
    → length (authorize_call c s).0.log + (if call_short_circuits c then 1 else 0)
      ≡ suc (length s.log)
unfolding authorize
call-log c s = elim (Bool-cases (call_short_circuits c)) [
  | inl short ↦ rw short (omega arith)
  | inr long ↦ rw long (omega (arith, uncached-log c s (cached (call_key c) s.policy_cache)))
]

-- Over any calls, one after the other, as many decisions are audited as there are calls that the
-- short cut does not answer.
pub run_calls-log :
    (cs : List AuthCall) (s : Authority)
    → length (run_calls cs s).log + shortcuts cs ≡ length s.log + length cs
unfolding run_calls
run_calls-log [] s = omega arith
run_calls-log (c ∷ cs) s = omega (arith, call-log c s, run_calls-log cs (authorize_call c s).0)
