-- ===== src/Controller/Protocol/Provisioning.antt =====
-- Provisioning, as runs over a trace.
use k8s_s3_bucket_operator.Prelude.{
  Bool, true, false, Option, none, some, List, [], ◌∷◌, Result, ok,
}
use k8s_s3_bucket_operator.Prelude.Int.{ℤ}
use k8s_s3_bucket_operator.Text.{Text}
use k8s_s3_bucket_operator.Errors.{set_quota, grant_access, GoError, Go}
use k8s_s3_bucket_operator.Api.{LifecycleRule, ReplicationTarget, BucketClaim, BucketClass}
use k8s_s3_bucket_operator.Provider.{Call, create, harden, quota, lifecycle, replication}
use k8s_s3_bucket_operator.Provisioning.{
  make_bucket, configure, limit_size, expire_rules, replicate_to, create_bucket_and_configure,
  grant, provision_bucket_and_grant_access, positive_quota, region_of, replication_arn, labelled,
  account_id, bucket_name_for,
}
use k8s_s3_bucket_operator.Controller.Kube.{Meta}
use k8s_s3_bucket_operator.Controller.Trace.{called, granted, Trace, Environment, provider_with}
use k8s_s3_bucket_operator.Controller.Lawful.{
  Has, IsLawful, still-IsLawful, event-IsLawful, Guarded, bind-Guarded,
}
use k8s_s3_bucket_operator.Controller.Protocol.{Needs, IsProtected}

module _ (meta : Meta) (env : Environment) (hardens : Bool) where
  abbrev Provides : {A : Type 0} → Go Trace A → Type 0
  Provides m = Guarded (Needs meta) (IsProtected meta) m

  -- One call of the provider.
  performed-IsLawful :
      (c : Call) (r : Result GoError (Unit {0})) (t : Trace)
      → Has (IsProtected meta) t
      → IsLawful (Needs meta) t (r, called c (env.performed t c) ∷ t)
  performed-IsLawful c r t h = event-IsLawful r (called c (env.performed t c)) t h

  make_bucket-Guarded :
      (bucket : Text) (class : BucketClass)
      → Provides (make_bucket (provider_with env hardens) bucket class)
  unfolding make_bucket
  make_bucket-Guarded bucket class t h =
      performed-IsLawful (create bucket (region_of class) class.object_locking_enabled) _ t h

  configure_with :
      (found : Bool) (bucket : Text) (class : BucketClass)
      → Provides (configure (provider_with env found) bucket class)
  unfolding configure
  configure_with true bucket class t h = performed-IsLawful (harden bucket class.parameters) _ t h
  configure_with false bucket class t h = still-IsLawful _ _

  limited-IsLawful :
      (bucket : Text) (size : Option ℤ) (t : Trace)
      → Has (IsProtected meta) t
      → IsLawful (Needs meta) {A = Unit {0}} t (elim size [
        | none ↦ (ok tt, t)
        | some bytes ↦ (
          labelled set_quota bucket (env.performed t (quota bucket bytes)),
          called (quota bucket bytes) (env.performed t (quota bucket bytes)) ∷ t,
        )
      ])
  limited-IsLawful bucket none t h = still-IsLawful _ _
  limited-IsLawful bucket (some bytes) t h = performed-IsLawful (quota bucket bytes) _ t h

  limit_size-Guarded :
      (bucket : Text) (claim : BucketClaim)
      → Provides (limit_size (provider_with env hardens) bucket claim)
  unfolding limit_size
  limit_size-Guarded bucket claim t h =
      limited-IsLawful bucket (positive_quota claim.spec.quota) t h

  expire_rules-Guarded :
      (bucket : Text) (rules : List LifecycleRule)
      → Provides (expire_rules (provider_with env hardens) bucket rules)
  unfolding expire_rules
  expire_rules-Guarded bucket [] t h = still-IsLawful _ _
  expire_rules-Guarded bucket (rule ∷ rules) t h =
      performed-IsLawful (lifecycle bucket (rule ∷ rules)) _ t h

  replicate_to-Guarded :
      (bucket : Text) (target : Option ReplicationTarget)
      → Provides (replicate_to (provider_with env hardens) bucket target)
  unfolding replicate_to
  replicate_to-Guarded bucket none t h = still-IsLawful _ _
  replicate_to-Guarded bucket (some target) t h =
      performed-IsLawful (replication bucket (replication_arn target)) _ t h

  create_bucket_and_configure-Guarded :
      (claim : BucketClaim) (class : BucketClass)
      → Provides (create_bucket_and_configure (provider_with env hardens) claim class)
  unfolding create_bucket_and_configure
  create_bucket_and_configure-Guarded claim class =
      let bucket = bucket_name_for claim class in
      bind-Guarded _ _ _ _ (make_bucket-Guarded bucket class) λ _.
        bind-Guarded _ _ _ _ (configure_with hardens bucket class) λ _.
          bind-Guarded _ _ _ _ (limit_size-Guarded bucket claim) λ _.
            bind-Guarded _ _ _ _ (expire_rules-Guarded bucket claim.spec.lifecycle_rules) λ _.
              bind-Guarded _ _ _ _ (replicate_to-Guarded bucket claim.spec.replication_target)
                λ _. λ t h. still-IsLawful _ t

  granted-IsLawful :
      (claim : BucketClaim) (bucket key secret : Text) (t : Trace)
      → Has (IsProtected meta) t
      → let r =
          env.credentials t
            (Call.grant bucket (account_id claim) claim.spec.access_type key secret) in
        IsLawful (Needs meta) t (
          labelled grant_access bucket r,
          granted bucket (account_id claim) claim.spec.access_type key secret r ∷ t,
        )
  granted-IsLawful claim bucket key secret t h =
      let r =
        env.credentials t
          (Call.grant bucket (account_id claim) claim.spec.access_type key secret) in
      event-IsLawful (labelled grant_access bucket r)
        (granted bucket (account_id claim) claim.spec.access_type key secret r) t h

  grant-Guarded :
      (claim : BucketClaim) (bucket key secret : Text)
      → Provides (grant (provider_with env hardens) claim bucket key secret)
  unfolding grant
  grant-Guarded claim bucket key secret =
      bind-Guarded _ _ _ _ (granted-IsLawful claim bucket key secret)
        λ creds t h. still-IsLawful _ t

  pub provision-Guarded :
      (claim : BucketClaim) (class : BucketClass) (key secret : Text)
      → Provides
          (provision_bucket_and_grant_access (provider_with env hardens) claim class key secret)
  unfolding provision_bucket_and_grant_access
  provision-Guarded claim class key secret =
      bind-Guarded _ _ _ _ (create_bucket_and_configure-Guarded claim class)
        λ bucket. grant-Guarded claim bucket key secret
