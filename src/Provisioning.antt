-- ===== src/Provisioning.antt =====
-- internal/provisioning/provisioning.go: creating and configuring a bucket, granting and revoking
-- access to it.
pub mod Extensions
pub mod Plan
pub mod Outcome
pub mod Access
pub mod Completion
pub mod Finalizer
pub mod Names
use k8s_s3_bucket_operator.Prelude.{
  ◌++◌, Bool, true, false, not, ◌&&◌, ◌||◌, Option, none, some, List, [], ◌∷◌, Result, ok, err,
  pure, fail, continue, ◌>>=◌, ◌>>◌, if◌then◌else◌,
}
use k8s_s3_bucket_operator.Prelude.Int.{ℤ, positive}
use k8s_s3_bucket_operator.Text.{Text, codes, ◌==◌, trim_space, to_lower, dashed}
use k8s_s3_bucket_operator.Errors.{
  Operation, create_bucket, configure_bucket, set_quota, set_lifecycle, grant_access, revoke_access,
  GoError, plain, wrapped, provisioning, Go,
}
use k8s_s3_bucket_operator.Api.{
  Params, lookup, at_key, LifecycleRule, ReplicationTarget, Quantity, BucketClaim, BucketClass,
  delete_policy,
}
use k8s_s3_bucket_operator.Provider.{Provider}

pub record AccessCredentials : Type 0 where
  pub access_key_id : Text
  pub access_secret_key : Text
  pub bucket_name : Text
  pub endpoint : Text

unfoldable pub region_of : BucketClass → Text
region_of class =
    let region = at_key class.parameters (codes "region") in
    if region == [] then codes "us-east-1" else region

-- fmt.Sprintf("%s-%s", claim.Namespace, claim.Name)
unfoldable pub account_id : BucketClaim → Text
account_id claim = dashed claim.namespace claim.name

-- The name of the claim's bucket: the first of the three that is not empty, in lower case.
unfoldable pub bucket_name_for : BucketClaim → BucketClass → Text
bucket_name_for claim class =
    let named = trim_space claim.spec.bucket_name in
    let hint = trim_space (at_key class.parameters (codes "bucketName")) in
    let chosen = if named == [] then hint else named in
    to_lower (if chosen == [] then dashed claim.namespace claim.name else chosen)

-- `&ProvisioningError{Op: op, BucketName: bucket, Err: err}` for the error of a call
abbrev pub labelled : {A : Type 0} → Operation → Text → Result GoError A → Result GoError A
labelled op bucket (ok a) = ok a
labelled op bucket (err e) = err (provisioning op bucket e)

abbrev failing_as : {W A : Type 0} → Operation → Text → Go W A → Go W A
failing_as op bucket m w = let (r, w') = m w in (labelled op bucket r, w')

-- The destination of the single replication rule.
unfoldable pub replication_arn : ReplicationTarget → Text
replication_arn target = codes "arn:aws:s3:::" ++ (target.bucket_name ++ codes "/*")

-- What `AsInt64` returns, where it is ok and positive.
abbrev pub positive_quota : Option Quantity → Option ℤ
positive_quota none = none
positive_quota (some q) = elim q.as_int64 [
  | none ↦ none
  | some bytes ↦ if positive bytes then some bytes else none
]

-- A failure is logged and no more.
abbrev best_effort : {W : Type 0} → Go W (Unit {0}) → Go W (Unit {0})
best_effort m w = let (_, w') = m w in (ok tt, w')

-- The credentials of a response, if it is complete.
unfoldable pub complete : Text → Params → Result GoError AccessCredentials
complete bucket creds =
    let key = trim_space (at_key creds (codes "accessKeyID")) in
    let secret = trim_space (at_key creds (codes "accessSecretKey")) in
    let endpoint = trim_space (at_key creds (codes "endpoint")) in
    if key == [] || secret == [] || endpoint == []
    then err (
        provisioning grant_access bucket
          (plain (codes "minio returned incomplete credential data")))
    else ok (record {
      access_key_id = key;
      access_secret_key = secret;
      bucket_name = bucket;
      endpoint = endpoint;
    })

-- The name that the finalizer takes for the claim's bucket.
unfoldable pub bound_bucket_name : BucketClaim → Text
bound_bucket_name claim =
    if claim.status.bucket_name == []
    then (if claim.spec.bucket_name == []
        then dashed claim.namespace claim.name
        else claim.spec.bucket_name)
    else claim.status.bucket_name

module _ {W : Type 0} (mc : Provider W) where
  unfoldable pub make_bucket : Text → BucketClass → Go W (Unit {0})
  make_bucket bucket class =
      failing_as create_bucket bucket
        (mc.create_bucket bucket (region_of class) class.object_locking_enabled)

  unfoldable pub configure : Text → BucketClass → Go W (Unit {0})
  configure bucket class w = elim mc.configure_bucket_security [
    | none ↦ (ok tt, w)
    | some security ↦ failing_as configure_bucket bucket (security bucket class.parameters) w
  ]

  unfoldable pub limit_size : Text → BucketClaim → Go W (Unit {0})
  limit_size bucket claim w = elim (positive_quota claim.spec.quota) [
    | none ↦ (ok tt, w)
    | some bytes ↦ failing_as set_quota bucket (mc.set_bucket_quota bucket bytes) w
  ]

  unfoldable pub expire_rules : Text → List LifecycleRule → Go W (Unit {0})
  expire_rules bucket [] w = (ok tt, w)
  expire_rules bucket (rule ∷ rules) w =
      failing_as set_lifecycle bucket (mc.set_bucket_lifecycle bucket (rule ∷ rules)) w

  unfoldable pub replicate_to : Text → Option ReplicationTarget → Go W (Unit {0})
  replicate_to bucket none w = (ok tt, w)
  replicate_to bucket (some target) w =
      best_effort (mc.set_bucket_replication bucket (replication_arn target)) w

  unfoldable pub create_bucket_and_configure : BucketClaim → BucketClass → Go W Text
  create_bucket_and_configure claim class = do
    let bucket = bucket_name_for claim class
    make_bucket bucket class
    configure bucket class
    limit_size bucket claim
    expire_rules bucket claim.spec.lifecycle_rules
    replicate_to bucket claim.spec.replication_target
    pure bucket

  unfoldable pub grant : BucketClaim → Text → Text → Text → Go W AccessCredentials
  grant claim bucket existing_key existing_secret = do
    creds ← failing_as grant_access bucket (
        mc.grant_access bucket (account_id claim) claim.spec.access_type existing_key
          existing_secret)
    λ w. (complete bucket creds, w)

  -- `GrantBucketAccess`
  unfoldable pub grant_bucket_access : BucketClaim → Text → Text → Text → Go W AccessCredentials
  grant_bucket_access = grant

  -- `ProvisionBucket`
  unfoldable pub provision_bucket : BucketClaim → BucketClass → Go W Text
  provision_bucket = create_bucket_and_configure

  unfoldable pub provision_bucket_and_grant_access :
      BucketClaim → BucketClass → Text → Text → Go W AccessCredentials
  provision_bucket_and_grant_access claim class existing_key existing_secret = do
    bucket ← create_bucket_and_configure claim class
    grant claim bucket existing_key existing_secret

  unfoldable pub revoke_bucket_access : BucketClaim → Text → Text → Go W (Unit {0})
  revoke_bucket_access claim bucket key =
      failing_as revoke_access bucket (mc.revoke_access bucket (account_id claim) key)

  unfoldable pub revoke_access_and_maybe_delete_bucket :
      BucketClaim → BucketClass → Text → Go W (Unit {0})
  revoke_access_and_maybe_delete_bucket claim class key = do
    let bucket = bound_bucket_name claim
    best_effort (mc.revoke_access bucket (account_id claim) key)
    if class.deletion_policy == delete_policy then mc.delete_bucket bucket else pure tt
