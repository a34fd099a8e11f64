-- ===== src/Tools/Policy/Effect.antt =====
-- What `PolicyEngine::effect` (crates/homebot-tools/src/policy.rs) decides from the rules.
use mathlib.Core.List.{Permᴰ, Perm}
use mathlib.Core.Logic.{∥∥₁_elim}
use home_bot.Common.{
  ◌≡◌, refl, ◌∙◌, Bool, true, false, ◌&&◌, ◌||◌, List, [], ◌∷◌, arith, if◌then◌else◌, any,
}
use home_bot.Tools.Contracts.{CapabilityRequest}
use home_bot.Tools.Policy.Rules.{
  PolicyEffect, PolicyRule, deny, require_approval, allow, rule_matches, final_effect, effect_loop,
  effect,
}

abbrev pub effect_is : PolicyEffect → PolicyEffect → Bool
effect_is deny deny = true
effect_is require_approval require_approval = true
effect_is allow allow = true
effect_is _ _ = false

-- The rule applies to the request and asks for the given effect.
abbrev pub asks : CapabilityRequest → PolicyEffect → PolicyRule → Bool
asks request wanted rule = rule_matches rule request && effect_is wanted rule.effect

-- Denial wins, then the need for an approval, then permission; no rule means an approval.
abbrev pub strictest : CapabilityRequest → Bool → Bool → List PolicyRule → PolicyEffect
strictest request matched_allow matched_approval rules =
    if any (asks request deny) rules
    then deny
    else final_effect (matched_allow || any (asks request allow) rules)
        (matched_approval || any (asks request require_approval) rules)

effect_loop-strictest :
    (request : CapabilityRequest) (a b : Bool) (rules : List PolicyRule)
    → effect_loop request a b rules ≡ strictest request a b rules
unfolding effect_loop
effect_loop-strictest request a b [] = ground arith
effect_loop-strictest request a b (rule ∷ rules) = ground (
  arith,
  effect_loop-strictest request a b rules,
  effect_loop-strictest request a true rules,
  effect_loop-strictest request true b rules,
)

pub effect-strictest :
    (rules : List PolicyRule) (request : CapabilityRequest)
    → effect rules request ≡ strictest request false false rules
unfolding effect
effect-strictest rules request = effect_loop-strictest request false false rules

any-perm : (p : PolicyRule → Bool) {xs ys : List PolicyRule} → Permᴰ xs ys → any p xs ≡ any p ys
any-perm p Permᴰ.nil = refl
any-perm p (Permᴰ.cons x h) = cc (any-perm p h, x)
any-perm p (Permᴰ.swap x y) = ground arith
any-perm p (Permᴰ.trans h k) = any-perm p h ∙ any-perm p k

PolicyEffect-set : IsSet PolicyEffect
PolicyEffect-set = hlevel

-- The order of the rules does not matter: two lists of rules that are permutations of each other have
-- the same effect on every request.
pub effect-perm :
    (xs ys : List PolicyRule) (request : CapabilityRequest)
    → Perm xs ys
    → effect xs request ≡ effect ys request
effect-perm xs ys request = λ same. ∥∥₁_elim same (PolicyEffect-set _ _) λ h. rw (
  effect-strictest xs request,
  effect-strictest ys request,
  any-perm (asks request deny) h,
  any-perm (asks request require_approval) h,
  any-perm (asks request allow) h,
)
