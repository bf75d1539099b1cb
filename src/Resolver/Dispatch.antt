-- ===== src/Resolver/Dispatch.antt =====
-- internal/backend/resolve/resolver.go: ProviderForClass. A resolver is there.
use k8s_s3_bucket_operator.Prelude.{Option, some, List, [], Result, ok, err}
use k8s_s3_bucket_operator.Text.{Text}
use k8s_s3_bucket_operator.Errors.{GoError, Go}
use k8s_s3_bucket_operator.Api.{BucketClass}
use k8s_s3_bucket_operator.Minio.{Config}
use k8s_s3_bucket_operator.Aws.Config.{AwsConfig, AwsProvider}
use k8s_s3_bucket_operator.Resolver.{
  Kind, minio, aws, kind_for_bucket_class, Entry, minio_provider_for_class,
}
use k8s_s3_bucket_operator.Resolver.Aws.{ApiServer, aws_provider_for_class}

-- The two caches of a `Resolver`.
pub record Caches (M C : Type 0) : Type 0 where
  pub minio_entries : List (Entry M)
  pub aws_entries : List (Entry (AwsProvider C))

abbrev pub no_entries : {M C : Type 0} → Caches M C
no_entries = record { minio_entries = []; aws_entries = [] }

pub data Resolved (M C : Type 0) : Type 0 where
  minio_client : M → Resolved M C
  aws_provider : AwsProvider C → Resolved M C

module _ {M C : Type 0} (quote : Text → Text) (make : Config → Result GoError M)
    (default : Option M) (unmarshal : Text → Result GoError (Unit {0}))
    (load : AwsConfig → Result GoError C) where
  abbrev pub as_minio : Result GoError M → Result GoError (Resolved M C)
  as_minio (ok m) = ok (minio_client m)
  as_minio (err e) = err e

  abbrev pub as_aws : Result GoError (AwsProvider C) → Result GoError (Resolved M C)
  as_aws (ok p) = ok (aws_provider p)
  as_aws (err e) = err e

  abbrev pub dispatched :
      ApiServer → BucketClass → Result GoError Kind → Go (Caches M C) (Resolved M C)
  dispatched api class (err e) caches = (err e, caches)
  dispatched api class (ok minio) caches =
      let (r, entries) =
        minio_provider_for_class quote make api.secret default class caches.minio_entries in
      (as_minio r, record caches { minio_entries = entries })
  dispatched api class (ok aws) caches =
      let (r, entries) = aws_provider_for_class quote unmarshal load api class caches.aws_entries in
      (as_aws r, record caches { aws_entries = entries })

  -- `ProviderForClass`
  unfoldable pub provider_for_class : ApiServer → BucketClass → Go (Caches M C) (Resolved M C)
  provider_for_class api class caches =
      dispatched api class (kind_for_bucket_class quote (some class)) caches
