-- ===== src/Aws.antt =====
-- internal/backend/aws/provider.go: AWS as a provider, over S3 and IAM clients that are parameters.
-- The clients are there: a provider without them, which no constructor makes, is not modelled.
pub mod Clients
pub mod Config
pub mod UserName
pub mod Json
pub mod Security
pub mod Grants
pub mod Serving
pub mod Lifecycle
pub mod Guardrail
use k8s_s3_bucket_operator.Prelude.{
  ◌++◌, Bool, true, false, ◌&&◌, ◌||◌, not, Option, none, some, List, [], ◌∷◌, map, Result, ok, err,
  pure, ◌>>=◌, ◌>>◌, if◌then◌else◌,
}
use k8s_s3_bucket_operator.Prelude.Int.{ℤ}
use k8s_s3_bucket_operator.Text.{Text, codes, ◌==◌, trim_space, equal_fold, contains}
use k8s_s3_bucket_operator.Errors.{
  GoError, wrapped, provisioning, aws_fault, bucket_already_owned_by_you, bucket_already_exists,
  no_such_bucket, entity_already_exists, limit_exceeded, as_aws_fault, message, Go,
}
use k8s_s3_bucket_operator.Api.{Params, LifecycleRule, read_only}
use k8s_s3_bucket_operator.Policy.{AccessPolicy, bucket_policy_document}
use k8s_s3_bucket_operator.Provider.{Provider}
use k8s_s3_bucket_operator.Aws.Clients.{AwsClients, AwsRule, aws_rule}
use k8s_s3_bucket_operator.Aws.UserName.{user_name_for_account, policy_name}
use k8s_s3_bucket_operator.Aws.Security.{Codec, configure_bucket_security}

-- Whether an error of CreateBucket says that the bucket is there.
unfoldable pub already_there : GoError → Bool
already_there e = elim (as_aws_fault e) [
  | some bucket_already_owned_by_you ↦ true
  | some bucket_already_exists ↦ true
  | _ ↦ false
]

unfoldable pub already_gone : GoError → Bool
already_gone e = elim (as_aws_fault e) [ some no_such_bucket ↦ true | _ ↦ false ]

unfoldable pub user_there : GoError → Bool
user_there e = elim (as_aws_fault e) [ some entity_already_exists ↦ true | _ ↦ false ]

-- limit.Error() of the `LimitExceededException` in the chain.
unfoldable pub limit_text : GoError → Option Text
limit_text (wrapped before e behind) = limit_text e
limit_text (provisioning op bucket e) = limit_text e
limit_text (aws_fault limit_exceeded t) = some t
limit_text e = none

-- Whether CreateAccessKey failed for the number of keys.
unfoldable pub too_many_keys : GoError → Bool
too_many_keys e =
    let limited : Bool = elim (limit_text e) [
      | some t ↦ contains t (codes "AccessKeysPerUser")
      | none ↦ false
    ] in
    limited || contains (message e) (codes "AccessKeysPerUser")

-- An error of a kind is none.
abbrev pub forgiven : (GoError → Bool) → Result GoError (Unit {0}) → Result GoError (Unit {0})
forgiven harmless (ok done) = ok done
forgiven harmless (err e) = if harmless e then ok tt else err e

abbrev forgiving : {W : Type 0} → (GoError → Bool) → Go W (Unit {0}) → Go W (Unit {0})
forgiving harmless m w = let (r, w') = m w in (forgiven harmless r, w')

-- A call whose error is dropped.
abbrev ignoring : {W : Type 0} → Go W (Unit {0}) → Go W (Unit {0})
ignoring m w = let (_, w') = m w in (ok tt, w')

-- The location constraint: none for no region, and none for us-east-1.
unfoldable pub location_of : Text → Option Text
location_of region =
    if not (region == []) && not (equal_fold region (codes "us-east-1")) then some region else none

-- What the provider holds besides its clients.
pub record Settings : Type 0 where
  pub endpoint : Text
  pub bucket_policy_json : Text

-- What a grant returns.
abbrev pub response : Text → Text → Text → Text → Params
response bucket key secret endpoint =
    (codes "accessKeyID", key)
    ∷ (codes "accessSecretKey", secret)
    ∷ (codes "bucketName", bucket)
    ∷ (codes "endpoint", endpoint)
    ∷ []

-- `marshal` is json.Marshal.
module _ {W : Type 0} (quote : Text → Text) (codec : Codec)
    (marshal : AccessPolicy → Result GoError Text) (c : AwsClients W) (settings : Settings) where
  -- `CreateBucket`
  unfoldable pub create_bucket : Text → Text → Bool → Go W (Unit {0})
  create_bucket bucket region locking =
      forgiving already_there (c.create_bucket bucket locking (location_of (trim_space region)))

  -- `SetBucketQuota`: AWS has none.
  unfoldable pub set_bucket_quota : Text → ℤ → Go W (Unit {0})
  set_bucket_quota bucket bytes w = (ok tt, w)

  -- `SetBucketLifecycle`
  unfoldable pub set_bucket_lifecycle : Text → List LifecycleRule → Go W (Unit {0})
  set_bucket_lifecycle bucket [] w = (ok tt, w)
  set_bucket_lifecycle bucket (rule ∷ rules) w =
      c.put_lifecycle bucket (map aws_rule (rule ∷ rules)) w

  -- `SetBucketReplication`: not implemented.
  unfoldable pub set_bucket_replication : Text → Text → Go W (Unit {0})
  set_bucket_replication bucket target w = (ok tt, w)

  unfoldable pub drop_keys : Text → List Text → Go W (Unit {0})
  drop_keys user [] w = (ok tt, w)
  drop_keys user (key ∷ keys) w =
      let (_, w') = c.delete_access_key user key w in drop_keys user keys w'

  abbrev pub drop_listed : Text → Result GoError (List Text) → Go W (Unit {0})
  drop_listed user (ok keys) w = drop_keys user keys w
  drop_listed user (err e) w = (ok tt, w)

  -- Deletes what keys the user has, as far as it can.
  unfoldable pub drop_all_keys : Text → Go W (Unit {0})
  drop_all_keys user w = let (r, w') = c.list_access_keys user w in drop_listed user r w'

  abbrev retried : Text → Result GoError (Text × Text) → Go W (Text × Text)
  retried user (ok key) w = (ok key, w)
  retried user (err e) w =
      if too_many_keys e then (drop_all_keys user >> c.create_access_key user) w else (err e, w)

  -- CreateAccessKey, once more without the old keys if there are too many.
  unfoldable pub make_key : Text → Go W (Text × Text)
  make_key user w = let (r, w') = c.create_access_key user w in retried user r w'

  -- The keys that were given, or new ones.
  unfoldable pub keys_for : Text → Text → Text → Text → Go W Params
  keys_for bucket user existing_key existing_secret w =
      let key = trim_space existing_key in
      let secret = trim_space existing_secret in
      if not (key == []) && not (secret == [])
      then (ok (response bucket key secret []), w)
      else (do
        (id, made) ← make_key user
        pure (response bucket id made (trim_space settings.endpoint)))
          w

  -- `GrantAccess`
  unfoldable pub grant_access : Text → Text → Text → Text → Text → Go W Params
  grant_access bucket account access existing_key existing_secret = do
    let user = user_name_for_account account
    forgiving user_there (c.create_user user)
    document ←
        λ w. (marshal (bucket_policy_document bucket (equal_fold (trim_space access) read_only)), w)
    c.put_user_policy user (policy_name bucket account) document
    keys_for bucket user existing_key existing_secret

  unfoldable pub drop_key : Text → Text → Go W (Unit {0})
  drop_key user key w =
      if key == [] then drop_all_keys user w else ignoring (c.delete_access_key user key) w

  -- `RevokeAccess`
  unfoldable pub revoke_access : Text → Text → Text → Go W (Unit {0})
  revoke_access bucket account access_key = do
    let user = user_name_for_account account
    ignoring (c.delete_user_policy user (policy_name bucket account))
    drop_key user (trim_space access_key)
    ignoring (c.delete_user user)

  -- `DeleteBucket`
  unfoldable pub delete_bucket : Text → Go W (Unit {0})
  delete_bucket bucket = forgiving already_gone (c.delete_bucket bucket)

  -- `Provider` of the package aws. It configures security.
  unfoldable pub aws_provider : Provider W
  aws_provider = record {
    create_bucket = create_bucket;
    set_bucket_quota = set_bucket_quota;
    set_bucket_lifecycle = set_bucket_lifecycle;
    set_bucket_replication = set_bucket_replication;
    grant_access = grant_access;
    revoke_access = revoke_access;
    delete_bucket = delete_bucket;
    configure_bucket_security =
        some (configure_bucket_security quote codec c settings.bucket_policy_json);
  }
