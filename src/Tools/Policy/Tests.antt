-- ===== src/Tools/Policy/Tests.antt =====
-- The policy engine on a concrete request.
use mathlib.Core.List.Perm
use native.Mathlib.Decide.{ℕ_discrete}
use home_bot.Common.{
  ℕ, ◌≡◌, refl, ◌∙◌, false, Option, none, some, [], ◌∷◌, arith, err, ok, ◌↔◌, ◌≤◌,
}
use home_bot.Common.Text.{codes, starts_with}
use home_bot.Common.HashMap.{nat_eq, get, insert}
use home_bot.Tools.Contracts.{
  CapabilityRequest, OperationContext, CapabilityClass, process_execute, allow_once,
  invalid_approval,
}
use home_bot.Tools.Policy.Rules.{
  PolicyRule, deny, require_approval, new_rule, for_action_prefix, rule_matches, effect,
}
use home_bot.Tools.Policy.Engine.{
  PolicyEngine, Draws, new, replace_rules, decide, ApprovalRecord, AuthorizedOperation, effect_for,
}
use home_bot.Tools.Policy.Authorize.{authorize}
use home_bot.Tools.Policy.Reachable.{Reach, next, start, replaces, authorizes, decides}
use home_bot.Tools.Policy.Pending.{pending, pending-le-four}
use home_bot.Tools.Policy.Approvals.{
  IsUsable, authorize_twice, decide_twice_revokes, authorize-approval_iff,
}
use home_bot.Tools.Policy.Effect.{effect-perm}
use home_bot.Tools.Policy.Race.{raced, approval_survives_new_rules}
use home_bot.Tools.Policy.Sound.{approval_respects_rules}

abbrev here : OperationContext
here = record {
  operation_id = 1;
  owner_id = 2;
  device_id = 3;
  bot_id = 4;
  chat_id = 5;
  workspace_id = 6;
}

abbrev run_tests : CapabilityRequest
run_tests = record {
  context = here;
  capability = process_execute;
  action = codes "process.run";
  canonical_resource = codes "workspace:6";
  summary = codes "Run tests";
  destructive = false;
}

CapabilityClass-discrete : Discrete CapabilityClass
CapabilityClass-discrete = hlevel

CapabilityRequest-discrete : Discrete CapabilityRequest
unfolding CapabilityClass-discrete
CapabilityRequest-discrete = hlevel (ℕ_discrete, CapabilityClass-discrete)

abbrev seven_if {ℓ} : {P : Type ℓ} → Dec P → Option ℕ
seven_if (yes _) = some 7
seven_if (no _) = none

-- A digest that only one request has.
only_run_tests : CapabilityRequest → Option ℕ
only_run_tests r = seven_if (CapabilityRequest-discrete r run_tests)

seven_if_yes {ℓ} : {P : Type ℓ} (d : Dec P) → P → seven_if d ≡ some 7
seven_if_yes (yes _) p = refl
seven_if_yes (no n) p = absurd (n p)

yes_if_seven {ℓ} : {P : Type ℓ} (d : Dec P) → seven_if d ≡ some 7 → P
yes_if_seven (yes p) h = p
yes_if_seven (no n) h = absurd (cc)

only_run_tests_lem : only_run_tests run_tests ≡ some 7
unfolding only_run_tests
only_run_tests_lem = seven_if_yes (CapabilityRequest-discrete run_tests run_tests) refl

only_run_tests_unique :
    (other : CapabilityRequest)
    → only_run_tests other ≡ only_run_tests run_tests
    → other ≡ run_tests
unfolding only_run_tests
only_run_tests_unique other h =
    yes_if_seven (CapabilityRequest-discrete other run_tests) (h ∙ only_run_tests_lem)

abbrev at : ℕ → Draws
at t = record { now = t; ticket_now = t; approval_id = 9; activity_id = 10; activity_now = t }

abbrev ask : PolicyRule
ask = for_action_prefix (new_rule 1 process_execute require_approval) (codes "process.")

abbrev forbid : PolicyRule
forbid = new_rule 2 process_execute deny

abbrev asking : PolicyEngine
asking = replace_rules (new 1000) (ask ∷ [])

abbrev filed : PolicyEngine
filed = (authorize only_run_tests asking run_tests none (at 100)).0

abbrev allowed : PolicyEngine
allowed = (decide filed 9 allow_once 200).0

abbrev ticket_of : ApprovalRecord
ticket_of = record {
  ticket = record {
    approval_id = 9;
    operation_id = 1;
    capability = process_execute;
    action = run_tests.action;
    summary = run_tests.summary;
    destructive = false;
    expires_at_unix_ms = 1100;
  };
  request_digest = 7;
  decision = some allow_once;
  policy_revision = 1;
}

-- The record that the decision leaves.
allowed_entry : get 9 allowed.approvals ≡ some ticket_of
unfolding authorize decide get insert replace_rules new rule_matches new_rule for_action_prefix
    starts_with
allowed_entry = ground (arith, only_run_tests_lem)

asking-Reach : Reach only_run_tests asking
unfolding new
asking-Reach = next (start 1000) (replaces (new 1000) (ask ∷ []) (omega arith))

allowed-Reach : Reach only_run_tests allowed
allowed-Reach =
    next (next asking-Reach (authorizes asking run_tests none (at 100)))
      (decides filed 9 allow_once 200)

allowed-IsUsable : IsUsable allowed run_tests 7 300 ticket_of
unfolding authorize decide replace_rules new rule_matches new_rule for_action_prefix starts_with get
    insert
allowed-IsUsable = ground (arith, only_run_tests_lem)

allowed_ok :
    (authorize only_run_tests allowed run_tests (some 9) (at 300)).1
    ≡ ok (record { request_digest = 7 })
unfolding authorize decide replace_rules new rule_matches new_rule for_action_prefix starts_with get
    insert
allowed_ok = ground (arith, only_run_tests_lem)

effect-perm_example : effect (ask ∷ forbid ∷ []) run_tests ≡ effect (forbid ∷ ask ∷ []) run_tests
effect-perm_example =
    effect-perm (ask ∷ forbid ∷ []) (forbid ∷ ask ∷ []) run_tests (Perm.swap forbid ask [])

authorize-approval_iff_example :
    ((op : AuthorizedOperation) × ((authorize only_run_tests allowed run_tests (some 9) (at 300)).1
        ≡ ok op))
    ↔ ((digest : ℕ) × (entry : ApprovalRecord) × (only_run_tests run_tests ≡ some digest)
        × (get 9 allowed.approvals ≡ some entry)
        × IsUsable allowed run_tests digest 300 entry)
authorize-approval_iff_example = authorize-approval_iff only_run_tests allowed run_tests 9 (at 300)

authorize_twice_example :
    let after = (authorize only_run_tests allowed run_tests (some 9) (at 300)).0 in
    authorize only_run_tests after run_tests (some 9) (at 310) ≡ (after, err invalid_approval)
authorize_twice_example =
    authorize_twice only_run_tests allowed run_tests run_tests 9 (at 300) (at 310)
      (λ e. cc (only_run_tests_lem)) (λ e. cc (only_run_tests_lem))

decide_once : (decide filed 9 allow_once 200).1 ≡ ok tt
unfolding authorize decide replace_rules new rule_matches new_rule for_action_prefix starts_with get
    insert
decide_once = ground (arith, only_run_tests_lem)

decide_twice_revokes_example :
    let twice = decide (decide filed 9 allow_once 200).0 9 allow_once 250 in
    (twice.1 ≡ err invalid_approval)
    × ((authorize only_run_tests twice.0 run_tests (some 9) (at 300)).1 ≡ err invalid_approval)
decide_twice_revokes_example =
    decide_twice_revokes only_run_tests filed 9 200 250 allow_once allow_once run_tests (at 300)
      decide_once (λ e. cc (only_run_tests_lem))

approval_respects_rules_example : effect allowed.rules run_tests ≡ require_approval
approval_respects_rules_example =
    approval_respects_rules only_run_tests run_tests 9 (at 300) allowed-Reach only_run_tests_unique
      allowed_ok

pending-le-four_example : pending 1 allowed.approvals ≤ 4
pending-le-four_example = pending-le-four only_run_tests 1 allowed-Reach

approval_survives_new_rules_example :
    let last = raced asking run_tests 7 (forbid ∷ []) (at 100) 200 in
    (effect_for last run_tests ≡ effect (forbid ∷ []) run_tests)
    × ((authorize only_run_tests last run_tests (some 9) (at 300)).1
        ≡ ok (record { request_digest = 7 }))
unfolding effect_for replace_rules new rule_matches new_rule for_action_prefix starts_with
approval_survives_new_rules_example =
    approval_survives_new_rules only_run_tests asking run_tests 7 (forbid ∷ []) (at 100) (at 300)
      200 only_run_tests_lem refl refl (omega arith) (omega arith)

-- The new rules of that run deny the request.
forbid_denies : effect (forbid ∷ []) run_tests ≡ deny
unfolding effect rule_matches new_rule
forbid_denies = refl
