-- ===== src/Aws/Lifecycle.antt =====
-- What AWS makes of a claim's lifecycle rules.
use k8s_s3_bucket_operator.Prelude.{
  ◌++◌, List, [], ◌∷◌, map, Result, Option, none, some, ℕ, zero, suc, ◌%◌, ltb, true, ap,
  if◌then◌else◌, ◌<◌, if_true, if_false, Bool-cases, inl, inr, arith, ◌≡◌, ◌≢◌, refl,
}
use k8s_s3_bucket_operator.Prelude.Int.{ℤ, pos, negsuc, positive}
use k8s_s3_bucket_operator.Text.{Text, codes, ◌==◌, eq_iff, trim_space}
use k8s_s3_bucket_operator.Api.{LifecycleRule}
use k8s_s3_bucket_operator.Policy.{AccessPolicy}
use k8s_s3_bucket_operator.Errors.{GoError}
use k8s_s3_bucket_operator.Provider.{outcome}
use k8s_s3_bucket_operator.Aws.Clients.{
  AwsRule, filled, to_int32, aws_rule, AwsCalls, lifecycle, Cloud, recorded,
}
use k8s_s3_bucket_operator.Aws.Security.{Codec}
use k8s_s3_bucket_operator.Aws.{Settings, set_bucket_lifecycle}

-- A text that is left out if it is blank.
pub record IsOptional (t : Text) (sent : Option Text) : Type 0 where
  pub blank : trim_space t ≡ [] → sent ≡ none
  pub filled : trim_space t ≢ [] → sent ≡ some t

-- Days that are sent if they are positive and an int32.
pub record AreDays (days : ℤ) (sent : Option ℤ) : Type 0 where
  pub positive : (n : ℕ) → days ≡ pos n → 0 < n → n < 2147483648 → sent ≡ some (pos n)
  pub zero : days ≡ pos 0 → sent ≡ none
  pub negative : (n : ℕ) → days ≡ negsuc n → sent ≡ none

-- What AWS is to get for a rule. It is enabled, also if the claim disables it.
pub record IsSent (rule : LifecycleRule) (sent : AwsRule) : Type 0 where
  pub status : sent.status ≡ codes "Enabled"
  pub id : IsOptional rule.id sent.id
  pub prefix : IsOptional rule.prefix sent.prefix
  pub days : AreDays rule.days sent.days

-- Each rule's in turn, and no other.
abbrev pub AreSent : List LifecycleRule → List AwsRule → Type 0
AreSent [] [] = Unit
AreSent (rule ∷ rules) (s ∷ sent) = IsSent rule s × AreSent rules sent
AreSent [] (s ∷ sent) = ⊥
AreSent (rule ∷ rules) [] = ⊥

filled-IsOptional : (t : Text) → IsOptional t (filled t)
filled-IsOptional t = record {
  blank = λ h. if_true _ _ _ ((eq_iff (trim_space t) []).1 h);
  filled = λ h. elim (Bool-cases (trim_space t == [])) [
    | inl e ↦ absurd (h ((eq_iff (trim_space t) []).0 e))
    | inr e ↦ if_false _ _ _ e
  ];
}

below : (n : ℕ) → n < 2147483648 → ltb n 2147483648 ≡ true
below n h = ground (arith, h)

no_zero : (n : ℕ) → pos 0 ≡ pos n → 0 < n → ⊥
no_zero n e above = let same : 0 ≡ n = cc in omega (arith, same, above)

to_int32-pos : (n : ℕ) → n < 2147483648 → to_int32 (pos n) ≡ pos n
unfolding to_int32
to_int32-pos n h =
    let whole : n % 4294967296 ≡ n = omega (arith, h) in rw whole (if_true _ _ _ (below n h))

sent_days-AreDays : (d : ℤ) → AreDays d (if positive d then some (to_int32 d) else none)
sent_days-AreDays (pos zero) = record {
  positive = λ n e above below. absurd (no_zero n e above);
  zero = λ e. refl;
  negative = λ n e. refl;
}
sent_days-AreDays (pos (suc m)) = record {
  positive =
      λ n e above below. let same : suc m ≡ n = cc in rw same (ap some (to_int32-pos n below));
  zero = λ e. cc;
  negative = λ n e. cc;
}
sent_days-AreDays (negsuc m) = record {
  positive = λ n e above below. cc;
  zero = λ e. cc;
  negative = λ n e. refl;
}

aws_rule-IsSent : (rule : LifecycleRule) → IsSent rule (aws_rule rule)
unfolding aws_rule
aws_rule-IsSent rule = record {
  status = refl;
  id = filled-IsOptional rule.id;
  prefix = filled-IsOptional rule.prefix;
  days = sent_days-AreDays rule.days;
}

map-AreSent : (rules : List LifecycleRule) → AreSent rules (map aws_rule rules)
map-AreSent [] = tt
map-AreSent (rule ∷ rules) = (aws_rule-IsSent rule, map-AreSent rules)

-- Rules, if there are any, are sent in one call, each in its place, and the result is that of the call.
-- Every rule is sent as enabled, also one that the claim disables, with its id and its prefix, unless
-- they are blank, and with its days, if they are positive and below 2^31; days that are not positive
-- are left out.
pub set_bucket_lifecycle_enables :
    (cloud : Cloud) (quote : Text → Text) (codec : Codec)
    (marshal : AccessPolicy → Result GoError Text) (settings : Settings) (bucket : Text)
    (rules : List LifecycleRule) (calls : AwsCalls)
    → rules ≢ []
    → (sent : List AwsRule) × (set_bucket_lifecycle quote codec marshal
          (recorded cloud)
          settings
          bucket
          rules
          calls
        ≡ (
          outcome (cloud.refuses calls (lifecycle bucket sent)),
          calls ++ lifecycle bucket sent ∷ [],
        ))
      × AreSent rules sent
unfolding set_bucket_lifecycle
set_bucket_lifecycle_enables cloud quote codec marshal settings bucket [] calls h = absurd (h refl)
set_bucket_lifecycle_enables cloud quote codec marshal settings bucket (rule ∷ rules) calls h =
    (map aws_rule (rule ∷ rules), refl, map-AreSent (rule ∷ rules))
