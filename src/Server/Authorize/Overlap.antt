-- ===== src/Server/Authorize/Overlap.antt =====
-- crates/gobrowse-server/src/authorize.rs: calls of `authorize` that overlap. A call looks up the
-- cache under its lock, queries the policies without it, and takes it again to store its decision.
use gobrowseos.Prelude.{
  ℕ, ◌≡◌, refl, sym, subst, Bool, false, ◌||◌, Option, none, some, List, [], ◌∷◌, arith, ◌==◌,
  Bool-cases, Option-cases, inl, inr, Assoc, lookup, insert, remove,
}
use gobrowseos.Server.Authorize.{Decision}
use gobrowseos.Server.Authorize.Decide.{
  CacheKey, Authority, same_key, cached, decide, hit, look_up, store_decision, authorize,
}
use gobrowseos.Server.Authorize.Coherence.{
  AuthCall, authorize_call, call_key, call_short_circuits, same_key_sound,
}

-- The cache and the log, with the calls that missed the cache and have not stored their decision.
pub record AuthServer : Type 0 where
  pub authority : Authority
  pub in_flight : Assoc AuthCall

-- `look t c` starts the call `c` under the number `t`, `store t` is its end if it missed, and
-- `abandon t` its cancellation between the two.
pub data AuthEvent : Type 0 where
  look : ℕ → AuthCall → AuthEvent
  store abandon : ℕ → AuthEvent

abbrev pub look_up_call : AuthCall → Authority → Authority × Option Decision
look_up_call c s = look_up c.database s c.context c.actor c.action c.resource

abbrev pub looked : AuthServer → ℕ → AuthCall → Authority × Option Decision → AuthServer
looked s t c (a, some d) = record s { authority = a }
looked s t c (a, none) = record s { authority = a; in_flight = insert t c s.in_flight }

abbrev pub stored : AuthServer → ℕ → Option AuthCall → AuthServer
stored s t none = s
stored s t (some c) =
    let d = decide c.database c.context c.actor c.action c.resource in
    record {
      authority = store_decision s.authority c.context c.actor c.action c.resource d;
      in_flight = remove t s.in_flight;
    }

unfoldable pub apply_auth : AuthEvent → AuthServer → AuthServer
apply_auth (look t c) s = looked s t c (look_up_call c s.authority)
apply_auth (store t) s = stored s t (lookup t s.in_flight)
apply_auth (abandon t) s = record s { in_flight = remove t s.in_flight }

unfoldable pub run_auth : List AuthEvent → AuthServer → AuthServer
run_auth [] s = s
run_auth (e ∷ es) s = run_auth es (apply_auth e s)

-- Whether a call that missed this key has still to store its decision.
abbrev pub has_miss : CacheKey → Assoc AuthCall → Bool
has_miss k [] = false
has_miss k ((t, c) ∷ m) = same_key (call_key c) k || has_miss k m

has_miss-remove :
    (k : CacheKey) (t : ℕ) (m : Assoc AuthCall)
    → has_miss k m ≡ false
    → has_miss k (remove t m) ≡ false
has_miss-remove k t [] h = refl
has_miss-remove k t ((j, c) ∷ m) h = ground (arith, has_miss-remove k t m)

has_miss-lookup :
    (k : CacheKey) (t : ℕ) (c : AuthCall) (m : Assoc AuthCall)
    → has_miss k m ≡ false
    → lookup t m ≡ some c
    → same_key (call_key c) k ≡ false
has_miss-lookup k t c [] h e = absurd cc
has_miss-lookup k t c ((j, u) ∷ m) h e = elim (Bool-cases (j == t)) [
  | inl here ↦
      let same : u ≡ c = ground arith in
      subst (λ v. same_key (call_key v) k ≡ false) same (ground arith)
  | inr there ↦ has_miss-lookup k t c m (ground arith) (ground arith)
]

-- A key is decided if it is in the cache and no call is left that may store another decision.
pub record IsDecided (k : CacheKey) (d : Decision) (s : AuthServer) : Type 0 where
  pub is_cached : cached k s.authority.policy_cache ≡ some d
  pub no_miss : has_miss k s.in_flight ≡ false

-- A lookup that misses is one of another key.
look-IsDecided :
    (k : CacheKey) (d : Decision) (s : AuthServer) (t : ℕ) (c : AuthCall) (o : Option Decision)
    → cached (call_key c) s.authority.policy_cache ≡ o
    → IsDecided k d s
    → IsDecided k d (looked s t c (hit s.authority c.context c.actor c.action c.resource o))
look-IsDecided k d s t c (some e) held h = record { is_cached = h.is_cached; no_miss = h.no_miss }
look-IsDecided k d s t c none held h = elim (Bool-cases (same_key (call_key c) k)) [
  | inr other ↦ record {
    is_cached = h.is_cached;
    no_miss = rw other (has_miss-remove k t s.in_flight h.no_miss);
  }
  | inl same ↦
      let e : cached (call_key c) s.authority.policy_cache ≡ some d =
        subst (λ x. cached x s.authority.policy_cache ≡ some d)
          (sym (same_key_sound (call_key c) k same)) h.is_cached in
      absurd cc
]

stored-IsDecided :
    (k : CacheKey) (d : Decision) (s : AuthServer) (t : ℕ) (o : Option AuthCall)
    → lookup t s.in_flight ≡ o
    → IsDecided k d s
    → IsDecided k d (stored s t o)
stored-IsDecided k d s t none e h = h
stored-IsDecided k d s t (some c) e h = record {
  is_cached = rw (has_miss-lookup k t c s.in_flight h.no_miss e) h.is_cached;
  no_miss = has_miss-remove k t s.in_flight h.no_miss;
}

apply_auth-IsDecided :
    (k : CacheKey) (d : Decision) (e : AuthEvent) (s : AuthServer)
    → IsDecided k d s
    → IsDecided k d (apply_auth e s)
unfolding apply_auth
apply_auth-IsDecided k d (look t c) s h = elim (Bool-cases (call_short_circuits c)) [
  | inl short ↦ rw short (record { is_cached = h.is_cached; no_miss = h.no_miss })
  | inr long ↦
      rw long (look-IsDecided k d s t c (cached (call_key c) s.authority.policy_cache) refl h)
]
apply_auth-IsDecided k d (store t) s h = stored-IsDecided k d s t (lookup t s.in_flight) refl h
apply_auth-IsDecided k d (abandon t) s h = record {
  is_cached = h.is_cached;
  no_miss = has_miss-remove k t s.in_flight h.no_miss;
}

run_auth-IsDecided :
    (k : CacheKey) (d : Decision) (es : List AuthEvent) (s : AuthServer)
    → IsDecided k d s
    → IsDecided k d (run_auth es s)
unfolding run_auth
run_auth-IsDecided k d [] s h = h
run_auth-IsDecided k d (e ∷ es) s h =
    run_auth-IsDecided k d es (apply_auth e s) (apply_auth-IsDecided k d e s h)

-- Once a decision is in the cache and no call that missed its key is left to store another, every
-- later call with the same kinds of actor, action and resource, and the same role, gets that
-- decision from its lookup until the cache is cleared, however other calls overlap, for whatever
-- profile, actor, permissions, resource and policies it is, unless the short cut answers it.
pub answer_repeated :
    (c : AuthCall) (d : Decision) (es : List AuthEvent) (s : AuthServer)
    → IsDecided (call_key c) d s
    → call_short_circuits c ≡ false
    → (look_up_call c (run_auth es s).authority).1 ≡ some d
answer_repeated c d es s decided long =
    rw (long, (run_auth-IsDecided (call_key c) d es s decided).is_cached) refl

-- A call that no other call overlaps is `authorize`.
pub look-store :
    (c : AuthCall) (s : Authority)
    → run_auth (look 0 c ∷ store 0 ∷ []) (record { authority = s; in_flight = [] })
      ≡ record { authority = (authorize_call c s).0; in_flight = [] }
unfolding run_auth apply_auth authorize
look-store c s = elim (Bool-cases (call_short_circuits c)) [
  | inl short ↦ rw short refl
  | inr long ↦ elim (Option-cases (cached (call_key c) s.policy_cache)) [
    | inl miss ↦ rw (long, miss) refl
    | inr (d, found) ↦ rw (long, found) refl
  ]
]
