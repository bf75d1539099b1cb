-- ===== src/Provisioning/Plan.antt =====
-- What provisioning asks of a provider: a plan of calls, each under the operation that its failure
-- is reported as, and how far the plan is carried out.
use k8s_s3_bucket_operator.Prelude.{
  ◌++◌, Bool, true, false, Option, none, some, List, [], ◌∷◌, append-nil, ok, err, pure, ◌>>=◌,
  ◌>>◌, fun_ext, ap, ◌≡◌, refl, arith, ◌∙◌, sym,
}
use k8s_s3_bucket_operator.Prelude.Int.{ℤ}
use k8s_s3_bucket_operator.Text.{Text}
use k8s_s3_bucket_operator.Errors.{
  Operation, create_bucket, configure_bucket, set_quota, set_lifecycle, provisioning, Go,
}
use k8s_s3_bucket_operator.Api.{LifecycleRule, ReplicationTarget, BucketClaim, BucketClass}
use k8s_s3_bucket_operator.Provider.{
  Call, perform, create, harden, quota, lifecycle, replication, Calls, Backend, recording,
}
use k8s_s3_bucket_operator.Provisioning.{
  failing_as, bucket_name_for, region_of, replication_arn, positive_quota, make_bucket, configure,
  limit_size, expire_rules, replicate_to, create_bucket_and_configure,
}

-- One call that provisioning cannot do without.
pub record Step : Type 0 where
  pub operation : Operation
  pub call : Call

abbrev step : Operation → Call → List Step
step op c = record { operation = op; call = c } ∷ []

security_steps : Bool → Text → BucketClass → List Step
security_steps true bucket class = step configure_bucket (harden bucket class.parameters)
security_steps false bucket class = []

quota_steps : Text → Option ℤ → List Step
quota_steps bucket none = []
quota_steps bucket (some bytes) = step set_quota (quota bucket bytes)

rule_steps : Text → List LifecycleRule → List Step
rule_steps bucket [] = []
rule_steps bucket (rule ∷ rules) = step set_lifecycle (lifecycle bucket (rule ∷ rules))

-- The calls that a claim of a class needs, in their order.
unfoldable pub plan : Bool → BucketClaim → BucketClass → List Step
unfolding security_steps quota_steps rule_steps
plan hardens claim class =
    let bucket = bucket_name_for claim class in
    step create_bucket (create bucket (region_of class) class.object_locking_enabled)
    ++ (security_steps hardens bucket class
        ++ (quota_steps bucket (positive_quota claim.spec.quota)
            ++ rule_steps bucket claim.spec.lifecycle_rules))

-- The optional last call.
unfoldable pub replica_calls : Text → Option ReplicationTarget → Calls
replica_calls bucket none = []
replica_calls bucket (some target) = replication bucket (replication_arn target) ∷ []

module _ (b : Backend) (bucket : Text) where
  -- Makes the calls up to the first that fails.
  unfoldable pub carry_out : List Step → Go Calls (Unit {0})
  carry_out [] calls = (ok tt, calls)
  carry_out (s ∷ steps) calls =
      let rest = carry_out steps (calls ++ s.call ∷ []) in
      elim (b.failure calls s.call) [
        | none ↦ rest
        | some e ↦ (err (provisioning s.operation bucket e), calls ++ s.call ∷ [])
      ]

-- The best-effort last step: its failure changes nothing.
abbrev pub finish : Text → Option ReplicationTarget → Go Calls Text
finish bucket target calls = (ok bucket, calls ++ replica_calls bucket target)

module _ (b : Backend) (bucket : Text) where
  failing_as-step :
      (op : Operation) (c : Call)
      → failing_as op bucket (perform b c) ≡ carry_out b bucket (step op c)
  unfolding carry_out
  failing_as-step op c = fun_ext λ calls. ground arith

  carry_out-append_at :
      {A : Type 0} (xs ys : List Step) (k : Go Calls A) (calls : Calls)
      → (carry_out b bucket xs >> (carry_out b bucket ys >> k)) calls
        ≡ (carry_out b bucket (xs ++ ys) >> k) calls
  unfolding carry_out ◌>>=◌
  carry_out-append_at [] ys k calls = refl
  carry_out-append_at (x ∷ xs) ys k calls =
      ground (arith, carry_out-append_at xs ys k (calls ++ x.call ∷ []))

  -- One plan after the other is the joined plan.
  pub carry_out-append :
      {A : Type 0} (xs ys : List Step) (k : Go Calls A)
      → (carry_out b bucket xs >> (carry_out b bucket ys >> k))
        ≡ (carry_out b bucket (xs ++ ys) >> k)
  carry_out-append xs ys k = fun_ext (carry_out-append_at xs ys k)

  make_bucket-steps :
      (hardens : Bool) (class : BucketClass)
      → make_bucket (recording b hardens) bucket class
        ≡ carry_out b bucket
            (step create_bucket (create bucket (region_of class) class.object_locking_enabled))
  unfolding make_bucket
  make_bucket-steps hardens class = failing_as-step _ _

  configure-steps :
      (hardens : Bool) (class : BucketClass)
      → configure (recording b hardens) bucket class
        ≡ carry_out b bucket (security_steps hardens bucket class)
  unfolding configure security_steps
  configure-steps true class = failing_as-step _ _
  configure-steps false class = unfold carry_out in refl

  limit_size-steps :
      (hardens : Bool) (claim : BucketClaim)
      → limit_size (recording b hardens) bucket claim
        ≡ carry_out b bucket (quota_steps bucket (positive_quota claim.spec.quota))
  unfolding limit_size quota_steps carry_out
  limit_size-steps hardens claim = fun_ext λ calls. ground arith

  expire_rules-steps :
      (hardens : Bool) (rules : List LifecycleRule)
      → expire_rules (recording b hardens) bucket rules
        ≡ carry_out b bucket (rule_steps bucket rules)
  unfolding expire_rules rule_steps carry_out
  expire_rules-steps hardens [] = refl
  expire_rules-steps hardens (rule ∷ rules) = fun_ext λ calls. ground arith

  replicate_to-finish :
      (hardens : Bool) (target : Option ReplicationTarget)
      → (replicate_to (recording b hardens) bucket target >> pure bucket) ≡ finish bucket target
  unfolding replicate_to replica_calls ◌>>=◌
  replicate_to-finish hardens none =
      fun_ext λ calls. ap (λ (t : Calls). (ok bucket, t)) (sym (append-nil calls))
  replicate_to-finish hardens (some target) = refl

module _ (b : Backend) (hardens : Bool) (claim : BucketClaim) (class : BucketClass) where
  -- Creating and configuring a bucket carries out the plan up to its first failure, which is
  -- reported under its operation; only after the whole plan is the replication tried, and its
  -- failure changes nothing.
  pub create_bucket_and_configure-plan :
      create_bucket_and_configure (recording b hardens) claim class ≡ (
        let bucket = bucket_name_for claim class in
        carry_out b bucket (plan hardens claim class)
        >> finish bucket claim.spec.replication_target)
  create_bucket_and_configure-plan =
      let bucket = bucket_name_for claim class in
      let run = carry_out b bucket in
      let create_steps =
        step create_bucket (create bucket (region_of class) class.object_locking_enabled) in
      let harden_steps = security_steps hardens bucket class in
      let limit_steps = quota_steps bucket (positive_quota claim.spec.quota) in
      let expiry_steps = rule_steps bucket claim.spec.lifecycle_rules in
      let last = finish bucket claim.spec.replication_target in
      unfold create_bucket_and_configure plan in
      rw
        (
          make_bucket-steps b bucket,
          configure-steps b bucket,
          limit_size-steps b bucket,
          expire_rules-steps b bucket,
        )
        (ap
            (λ (k : Go Calls Text).
              run create_steps
              >> (run harden_steps >> (run limit_steps >> (run expiry_steps >> k))))
            (replicate_to-finish b bucket hardens claim.spec.replication_target)
          ∙ ap (λ (k : Go Calls Text). run create_steps >> (run harden_steps >> k))
              (carry_out-append b bucket limit_steps expiry_steps last)
          ∙ ap (λ (k : Go Calls Text). run create_steps >> k)
              (carry_out-append b bucket harden_steps (limit_steps ++ expiry_steps) last)
          ∙ carry_out-append b bucket create_steps (harden_steps ++ (limit_steps ++ expiry_steps))
              last)
