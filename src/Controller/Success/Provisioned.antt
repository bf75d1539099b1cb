-- ===== src/Controller/Success/Provisioned.antt =====
-- Provisioning in an environment that accepts every request.
use k8s_s3_bucket_operator.Prelude.{
  Bool, true, false, Option, none, some, List, [], ◌∷◌, ok, ◌>>=◌, ◌≡◌, refl, ap,
}
use k8s_s3_bucket_operator.Prelude.Int.{ℤ}
use k8s_s3_bucket_operator.Text.{Text}
use k8s_s3_bucket_operator.Errors.{Operation, set_quota}
use k8s_s3_bucket_operator.Api.{
  LifecycleRule, ReplicationTarget, ObjectReference, BucketClaim, BucketClass,
}
use k8s_s3_bucket_operator.Provider.{Call, create, harden, quota, lifecycle}
use k8s_s3_bucket_operator.Provisioning.{
  labelled, region_of, account_id, make_bucket, configure, limit_size, positive_quota, expire_rules,
  replicate_to, create_bucket_and_configure, bucket_name_for, grant,
  provision_bucket_and_grant_access,
}
use k8s_s3_bucket_operator.Controller.Kube.{Meta}
use k8s_s3_bucket_operator.Controller.Trace.{called, Trace, Environment, provider_with}
use k8s_s3_bucket_operator.Controller.Success.{IsAccepting, Works, bind-Works}

module _ (meta : Meta) (nn : ObjectReference) (env : Environment)
    (accepting : IsAccepting meta nn env) (hardens : Bool) where
  performed_works :
      (op : Operation) (bucket : Text) (c : Call) (t : Trace)
      → (u : Unit {0}) × (labelled op bucket (env.performed t c) ≡ ok u)
  performed_works op bucket c t = (tt, ap (labelled op bucket) (accepting.performed t c))

  make_bucket-Works :
      (bucket : Text) (class : BucketClass)
      → Works (make_bucket (provider_with env hardens) bucket class)
  unfolding make_bucket
  make_bucket-Works bucket class t =
      performed_works _ bucket (create bucket (region_of class) class.object_locking_enabled) t

  configure-Works :
      (found : Bool) (bucket : Text) (class : BucketClass)
      → Works (configure (provider_with env found) bucket class)
  unfolding configure
  configure-Works true bucket class t = performed_works _ bucket (harden bucket class.parameters) t
  configure-Works false bucket class t = (tt, refl)

  limited-Works :
      (bucket : Text) (size : Option ℤ)
      → Works {A = Unit {0}} (λ t. elim size [
        | none ↦ (ok tt, t)
        | some bytes ↦ (
          labelled set_quota bucket (env.performed t (quota bucket bytes)),
          called (quota bucket bytes) (env.performed t (quota bucket bytes)) ∷ t,
        )
      ])
  limited-Works bucket none t = (tt, refl)
  limited-Works bucket (some bytes) t = performed_works set_quota bucket (quota bucket bytes) t

  limit_size-Works :
      (bucket : Text) (claim : BucketClaim)
      → Works (limit_size (provider_with env hardens) bucket claim)
  unfolding limit_size
  limit_size-Works bucket claim t = limited-Works bucket (positive_quota claim.spec.quota) t

  expire_rules-Works :
      (bucket : Text) (rules : List LifecycleRule)
      → Works (expire_rules (provider_with env hardens) bucket rules)
  unfolding expire_rules
  expire_rules-Works bucket [] t = (tt, refl)
  expire_rules-Works bucket (rule ∷ rules) t =
      performed_works _ bucket (lifecycle bucket (rule ∷ rules)) t

  replicate_to-Works :
      (bucket : Text) (target : Option ReplicationTarget)
      → Works (replicate_to (provider_with env hardens) bucket target)
  unfolding replicate_to
  replicate_to-Works bucket none t = (tt, refl)
  replicate_to-Works bucket (some target) t = (tt, refl)

  create_bucket_and_configure-Works :
      (claim : BucketClaim) (class : BucketClass)
      → Works (create_bucket_and_configure (provider_with env hardens) claim class)
  unfolding create_bucket_and_configure
  create_bucket_and_configure-Works claim class =
      let bucket = bucket_name_for claim class in
      bind-Works _ _ (make_bucket-Works bucket class) λ _.
        bind-Works _ _ (configure-Works hardens bucket class) λ _.
          bind-Works _ _ (limit_size-Works bucket claim) λ _.
            bind-Works _ _ (expire_rules-Works bucket claim.spec.lifecycle_rules) λ _.
              bind-Works _ _ (replicate_to-Works bucket claim.spec.replication_target)
                λ _. λ t. (bucket, refl)

  grant-Works :
      (claim : BucketClaim) (bucket key secret : Text)
      → Works (grant (provider_with env hardens) claim bucket key secret)
  unfolding grant ◌>>=◌
  grant-Works claim bucket key secret t =
      let c = Call.grant bucket (account_id claim) claim.spec.access_type key secret in
      let (params, e, full) = accepting.credentials t c in
      let (creds, h) = full bucket in (creds, rw e h)

  pub provision-Works :
      (claim : BucketClaim) (class : BucketClass) (key secret : Text)
      → Works (provision_bucket_and_grant_access (provider_with env hardens) claim class key secret)
  unfolding provision_bucket_and_grant_access
  provision-Works claim class key secret =
      bind-Works _ _ (create_bucket_and_configure-Works claim class)
        λ bucket. grant-Works claim bucket key secret
