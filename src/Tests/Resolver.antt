-- ===== src/Tests/Resolver.antt =====
-- The resolver at a concrete secret.
use k8s_s3_bucket_operator.Prelude.{
  false, none, some, [], ◌∷◌, All, ok, Result, ◌≡◌, refl, subst, arith,
}
use k8s_s3_bucket_operator.Text.{Text, codes, ◌==◌, trim_space, equal_fold, to_lower}
use k8s_s3_bucket_operator.Errors.{GoError}
use k8s_s3_bucket_operator.Api.{Params, lookup, BucketClass, empty_class, ObjectReference}
use k8s_s3_bucket_operator.Minio.{Config, first_secret_string, config_from_secret_data}
use k8s_s3_bucket_operator.Resolver.{Secret, Entry, new_client, minio_provider_for_class}
use k8s_s3_bucket_operator.Resolver.Keys.{HasNo}
use k8s_s3_bucket_operator.Resolver.Cache.{IsFresh, minio_provider_for_class-IsFresh}

abbrev plainly : Text → Text
plainly t = t

-- Clients that are the endpoint and the secret they were made of.
abbrev connect : Config → Result GoError (Text × Text)
connect = new_client (λ cfg. ok cfg.endpoint) (λ cfg. ok cfg.secret_key)

abbrev entries : Params
entries =
    (codes "endpoint", codes "minio:9000")
    ∷ (codes "accessKey", codes "admin")
    ∷ (codes "secretKey", codes "hidden")
    ∷ []

abbrev secret : Secret
secret = record { version = codes "7"; entries = entries }

abbrev minio_secret : ObjectReference
minio_secret = record { name = codes "minio"; namespace = codes "ops" }

ops-HasNo : HasNo b'/' (codes "ops")
unfolding codes
ops-HasNo = omega arith

abbrev referring : BucketClass
referring = record empty_class { minio_credential_secret_ref = some minio_secret }

abbrev entry : Entry (Text × Text)
entry = record {
  key = codes "ops/minio";
  version = codes "7";
  client = (codes "minio:9000", codes "hidden");
}

entry-IsFresh : IsFresh connect (λ namespace name version. entries) entry
unfolding config_from_secret_data first_secret_string lookup trim_space equal_fold to_lower
    new_client codes ◌==◌
entry-IsFresh = record {
  ref = minio_secret;
  plain = ops-HasNo;
  key = refl;
  cfg = record {
    endpoint = codes "minio:9000";
    access_key = codes "admin";
    secret_key = codes "hidden";
    use_ssl = false;
  };
  config = refl;
  made = refl;
}

minio_provider_for_class-IsFresh_example :
    ((minio_provider_for_class plainly connect
        (λ namespace name. ok secret)
        none
        referring
        (entry ∷ [])).0
      ≡ (minio_provider_for_class plainly connect
          (λ namespace name. ok secret)
          none
          referring
          []).0)
    × All
        (IsFresh connect (λ namespace name version. entries))
        (minio_provider_for_class plainly connect
          (λ namespace name. ok secret)
          none
          referring
          (entry ∷ [])).1
minio_provider_for_class-IsFresh_example =
    minio_provider_for_class-IsFresh connect (λ namespace name version. entries) plainly
      (λ namespace name. ok secret) none referring (entry ∷ []) (λ namespace name s h. cc)
      (λ ref h.
        let same : minio_secret ≡ ref = cc in
        subst (λ (x : ObjectReference). HasNo b'/' x.namespace) same ops-HasNo)
      (entry-IsFresh, tt)
