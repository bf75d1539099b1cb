-- ===== src/Provisioning/Extensions.antt =====
-- `ApplyClaimParameterExtensions` of internal/provisioning/provisioning.go.
pub mod Laws
use k8s_s3_bucket_operator.Prelude.{◌++◌, Option, none, some, Result, ok, err, if◌then◌else◌}
use k8s_s3_bucket_operator.Text.{Text, codes, ◌==◌, trim_space}
use k8s_s3_bucket_operator.Errors.{GoError, wrapped}
use k8s_s3_bucket_operator.Api.{
  Params, lookup, LifecycleRule, ReplicationTarget, Quantity, BucketClaim,
}
use k8s_s3_bucket_operator.Prelude.{List, []}

-- resource.ParseQuantity, and json.Unmarshal at the two types.
pub record Parsers : Type 0 where
  pub quantity : Text → Result GoError Quantity
  pub rules : Text → Result GoError (List LifecycleRule)
  pub target : Text → Result GoError ReplicationTarget

-- v, ok := parameters[key]; ok && strings.TrimSpace(v) != ""
unfoldable pub given : Text → Params → Option Text
unfolding lookup trim_space ◌==◌
given key parameters = elim (lookup key parameters) [
  | none ↦ none
  | some v ↦ if trim_space v == [] then none else some v
]

abbrev pub bind {ℓ} : {A B : Type ℓ} → Result GoError A → (A → Result GoError B) → Result GoError B
bind (ok a) f = f a
bind (err e) f = err e

abbrev pub assigned :
    {A : Type 0}
    → Text
    → (A → BucketClaim → BucketClaim)
    → BucketClaim
    → Result GoError A
    → Result GoError BucketClaim
assigned prefix assign claim (ok a) = ok (assign a claim)
assigned prefix assign claim (err e) = err (wrapped prefix e [])

-- The setting `v` of a claim, if it is given: parsed, or the error under a prefix.
abbrev pub overlay :
    {A : Type 0}
    → Option Text
    → (Text → Result GoError A)
    → (Text → Text)
    → (A → BucketClaim → BucketClaim)
    → BucketClaim
    → Result GoError BucketClaim
overlay none parse prefix assign claim = ok claim
overlay (some v) parse prefix assign claim = assigned (prefix v) assign claim (parse v)

abbrev pub with_quota : Quantity → BucketClaim → BucketClaim
with_quota q claim = record claim { spec = record (claim.spec) { quota = some q } }

abbrev pub with_access_type : Text → BucketClaim → BucketClaim
with_access_type t claim = record claim { spec = record (claim.spec) { access_type = t } }

abbrev pub with_rules : List LifecycleRule → BucketClaim → BucketClaim
with_rules rules claim = record claim { spec = record (claim.spec) { lifecycle_rules = rules } }

abbrev pub with_target : ReplicationTarget → BucketClaim → BucketClaim
with_target t claim = record claim { spec = record (claim.spec) { replication_target = some t } }

module _ (quote : Text → Text) (parsers : Parsers) where
  -- `quote` is the verb %q.
  unfoldable pub apply_claim_parameter_extensions :
      BucketClaim → Params → Result GoError BucketClaim
  unfolding given codes trim_space
  apply_claim_parameter_extensions claim parameters =
      bind
        (overlay (given (codes "quota") parameters) (λ q. parsers.quantity (trim_space q))
          (λ q. codes "invalid quota quantity " ++ (quote q ++ codes ": ")) with_quota claim)
        λ c1.
          bind
            (overlay (given (codes "accessType") parameters) (λ t. ok (trim_space t)) (λ t. t)
              with_access_type c1)
            λ c2.
              bind
                (overlay (given (codes "lifecycleRules") parameters) parsers.rules
                  (λ _. codes "invalid lifecycleRules JSON: ") with_rules c2)
                λ c3.
                  overlay (given (codes "replicationTarget") parameters) parsers.target
                    (λ _. codes "invalid replicationTarget JSON: ") with_target c3
