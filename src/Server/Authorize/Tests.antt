-- ===== src/Server/Authorize/Tests.antt =====
-- Tests of authorize.rs.
use gobrowseos.Prelude.{◌+◌, ◌≡◌, refl, true, none, some, [], ◌∷◌, length, if◌then◌else◌}
use gobrowseos.Server.Authorize.{
  Actor, human, agent, webhook, RiskClass, Action, admin, access_secret, webhook_deliver, execute,
  book, secret, sandbox, allow, deny, default_matrix_decision, from_tool_risk,
}
use gobrowseos.Server.Authorize.Decide.{Database, Authority, authorize, decide}
use gobrowseos.Server.Authorize.Matrix.{guarded_allow, is_privileged, is_trusted, may_read_secrets}
use gobrowseos.Server.Authorize.Coherence.{
  AuthCall, authorize_call, call_key, run_calls, shortcuts, run_calls-log,
}
use gobrowseos.Server.Authorize.Overlap.{
  AuthServer, look, store, look_up_call, run_auth, apply_auth, IsDecided, answer_repeated,
}
use gobrowseos.Server.Authorize.Agreement.{Ask, call_of, calls_of, answer_of, authorize_agrees}

abbrev administrator : Actor
administrator = human 1 "ADMIN"

administrator_allowed :
    default_matrix_decision administrator (execute RiskClass.system) sandbox ≡ allow
unfolding default_matrix_decision
administrator_allowed = refl

guarded_allow_example :
    (if is_privileged (execute RiskClass.system)
      then is_trusted administrator
      else may_read_secrets administrator)
    ≡ true
guarded_allow_example =
    guarded_allow administrator (execute RiskClass.system) sandbox refl administrator_allowed

tool_risk_test : from_tool_risk "destructive" ≡ RiskClass.destructive
unfolding from_tool_risk
tool_risk_test = refl

-- Two profiles, each with users and a workspace, and no policies.
abbrev database : Database
database = record {
  users =
      record { profile_id = 1; role = "OWNER" }
      ∷ record { profile_id = 2; role = "OWNER" }
      ∷ record { profile_id = 2; role = "MEMBER" }
      ∷ [];
  workspaces = 1 ∷ 2 ∷ [];
  policies = [];
}

-- An agent that may read secrets in one profile, and one that may not in another.
abbrev permitted_call : AuthCall
permitted_call = record {
  database = database;
  context = record { profile_id = 1; user_id = none };
  actor = agent 5 ("access_secret" ∷ []);
  action = access_secret;
  resource = secret "a";
}

abbrev other_call : AuthCall
other_call = record permitted_call {
  context = record { profile_id = 2; user_id = none };
  actor = agent 6 [];
  resource = secret "b";
}

abbrev webhook_call : AuthCall
webhook_call = record permitted_call {
  actor = webhook 3;
  action = webhook_deliver;
  resource = sandbox;
}

abbrev empty : Authority
empty = record { policy_cache = []; log = [] }

other_denied : default_matrix_decision (agent 6 []) access_secret (secret "b") ≡ deny
unfolding default_matrix_decision
other_denied = refl

other_allowed : (authorize_call other_call (authorize_call permitted_call empty).0).1 ≡ allow
unfolding authorize decide default_matrix_decision
other_allowed = refl

-- The first call looks up and stores its decision.
abbrev after_permitted : AuthServer
after_permitted =
    run_auth (look 1 permitted_call ∷ store 1 ∷ []) (record { authority = empty; in_flight = [] })

after_permitted-IsDecided : IsDecided (call_key other_call) allow after_permitted
unfolding run_auth apply_auth decide default_matrix_decision
after_permitted-IsDecided = record { is_cached = refl; no_miss = refl }

answer_repeated_example :
    (look_up_call other_call
      (run_auth (look 2 webhook_call ∷ store 2 ∷ []) after_permitted).authority).1
    ≡ some allow
answer_repeated_example =
    answer_repeated other_call allow (look 2 webhook_call ∷ store 2 ∷ []) after_permitted
      after_permitted-IsDecided refl

-- Two calls that overlap: the second stores its decision over that of the first.
overwritten :
    (look_up_call permitted_call
      (run_auth
        (look 1 permitted_call ∷ look 2 other_call ∷ store 1 ∷ store 2 ∷ [])
        (record { authority = empty; in_flight = [] })).authority).1
    ≡ some deny
unfolding run_auth apply_auth decide default_matrix_decision
overwritten = refl

run_calls-log_example :
    length (run_calls (permitted_call ∷ other_call ∷ []) empty).log
      + shortcuts (permitted_call ∷ other_call ∷ [])
    ≡ 0 + 2
run_calls-log_example = run_calls-log (permitted_call ∷ other_call ∷ []) empty

abbrev member_asks : Ask
member_asks = record {
  user_id = some 4;
  actor = human 4 "MEMBER";
  action = Action.write;
  resource = book 9;
}

abbrev webhook_asks : Ask
webhook_asks = record { user_id = none; actor = webhook 3; action = admin; resource = sandbox }

authorize_agrees_example :
    (authorize_call
      (call_of database 2 member_asks)
      (run_calls (calls_of database 2 (webhook_asks ∷ member_asks ∷ [])) empty)).1
    ≡ answer_of database 2 member_asks
authorize_agrees_example =
    authorize_agrees database 2 (webhook_asks ∷ member_asks ∷ []) member_asks empty refl refl refl
