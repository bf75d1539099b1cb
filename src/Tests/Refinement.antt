-- ===== src/Tests/Refinement.antt =====
-- The whole resolver at concrete secrets and policy documents.
use k8s_s3_bucket_operator.Prelude.{
  false, Option, none, some, List, [], ◌∷◌, map, All, ok, Result, ◌≡◌, refl, subst, arith,
}
use k8s_s3_bucket_operator.Text.{Text, codes, ◌==◌, trim_space, equal_fold, to_lower}
use k8s_s3_bucket_operator.Errors.{GoError}
use k8s_s3_bucket_operator.Api.{
  Params, at_key, lookup, BucketClass, empty_class, ObjectReference, BucketPolicyRef,
}
use k8s_s3_bucket_operator.Minio.{Config}
use k8s_s3_bucket_operator.Minio
use k8s_s3_bucket_operator.Aws.Config
use k8s_s3_bucket_operator.Aws.Config.{AwsConfig, AwsProvider, new, with_bucket_policy_document}
use k8s_s3_bucket_operator.Resolver.{Secret, Entry, new_client}
use k8s_s3_bucket_operator.Resolver.Cache
use k8s_s3_bucket_operator.Resolver.Aws.{ApiServer, assembled, aws_provider_for_class}
use k8s_s3_bucket_operator.Resolver.Keys.{HasNo, IsPlainReference}
use k8s_s3_bucket_operator.Resolver.Aws.Sources.{History, config_map, IsFollowing}
use k8s_s3_bucket_operator.Resolver.Aws.Freshness
use k8s_s3_bucket_operator.Resolver.Dispatch.{Caches}
use k8s_s3_bucket_operator.Resolver.Refinement.{resolve_all, resolve_anew, resolve_all_refines}

abbrev plainly : Text → Text
plainly t = t

abbrev connect : Config → Result GoError (Text × Text)
connect = new_client (λ cfg. ok cfg.endpoint) (λ cfg. ok cfg.secret_key)

-- Clients that are the key they were made of.
abbrev load : AwsConfig → Result GoError Text
load cfg = ok cfg.secret_access_key

abbrev valid : Text → Result GoError (Unit {0})
valid raw = ok tt

abbrev entries : Params
entries =
    (codes "endpoint", codes "minio:9000")
    ∷ (codes "accessKey", codes "admin")
    ∷ (codes "secretKey", codes "hidden")
    ∷ (codes "region", codes "eu-west-1")
    ∷ (codes "accessKeyID", codes "id")
    ∷ (codes "secretAccessKey", codes "key")
    ∷ (codes "policy", codes "{}")
    ∷ []

abbrev stored : Secret
stored = record { version = codes "7"; entries = entries }

abbrev api : ApiServer
api = record { secret = λ namespace name. ok stored; config_map = λ namespace name. ok stored }

abbrev history : History
history = record {
  secrets = λ namespace name version. entries;
  config_maps = λ namespace name version. entries;
}

abbrev minio_secret : ObjectReference
minio_secret = record { name = codes "minio"; namespace = codes "ops" }

abbrev aws_secret : ObjectReference
aws_secret = record { name = codes "aws"; namespace = codes "ops" }

abbrev policies : BucketPolicyRef
policies = record {
  kind = [];
  namespace = codes "ops";
  name = codes "policies";
  key = codes "policy";
}

abbrev minio_class : BucketClass
minio_class = record empty_class {
  minio_credential_secret_ref = some minio_secret;
  bucket_policy_ref = some policies;
}

abbrev aws_class : BucketClass
aws_class = record empty_class {
  backend = codes "AWS";
  aws_credential_secret_ref = some aws_secret;
  bucket_policy_ref = some policies;
}

seven-HasNo : HasNo b'|' (codes "7")
unfolding codes
seven-HasNo = omega arith

ops-HasNo : HasNo b'/' (codes "ops")
unfolding codes
ops-HasNo = omega arith

policies-HasNo : HasNo b'#' (codes "policies")
unfolding codes
policies-HasNo = omega arith

aws_secret-IsPlainReference : IsPlainReference aws_secret
unfolding codes
aws_secret-IsPlainReference = record {
  namespace = ops-HasNo;
  namespace_bar = omega arith;
  name_bar = omega arith;
}

stored_known :
    (s : Secret)
    → ◌≡◌ {A = Result GoError Secret} (ok stored) (ok s)
    → (s.entries ≡ entries) × HasNo b'|' s.version
stored_known s e =
    let same : stored ≡ s = cc in
    (cc, subst (λ (x : Secret). HasNo b'|' x.version) same seven-HasNo)

api-IsFollowing : IsFollowing plainly valid load history api
api-IsFollowing = record {
  secret = λ namespace name s e. stored_known s e;
  config_map = λ namespace name s e. (stored_known s e).0;
}

policies_plain :
    (pr : BucketPolicyRef)
    → ◌≡◌ {A = Option BucketPolicyRef} (some policies) (some pr)
    → HasNo b'/' pr.namespace × HasNo b'#' pr.name
policies_plain pr e =
    let same : policies ≡ pr = cc in
    subst (λ (x : BucketPolicyRef). HasNo b'/' x.namespace × HasNo b'#' x.name) same
      (ops-HasNo, policies-HasNo)

aws-IsKnown : Freshness.IsKnown plainly valid load history api aws_class
aws-IsKnown = record {
  follows = api-IsFollowing;
  reference = λ ref e.
      let same : aws_secret ≡ ref = cc in subst IsPlainReference same aws_secret-IsPlainReference;
  minio_reference = λ ref e. cc;
  policy = policies_plain;
}

minio-IsKnown : Freshness.IsKnown plainly valid load history api minio_class
minio-IsKnown = record {
  follows = api-IsFollowing;
  reference = λ ref e. cc;
  minio_reference = λ ref e.
      let same : minio_secret ≡ ref = cc in
      subst (λ (x : ObjectReference). HasNo b'/' x.namespace) same ops-HasNo;
  policy = policies_plain;
}

abbrev minio_entry : Entry (Text × Text)
minio_entry = record {
  key = codes "ops/minio";
  version = codes "7";
  client = (codes "minio:9000", codes "hidden");
}

abbrev aws_entry : Entry (AwsProvider Text)
aws_entry = record {
  key = codes "ops/aws|ConfigMap:ops/policies#policy";
  version = codes "7|7";
  client = record {
    clients = codes "key";
    region = codes "eu-west-1";
    settings = record {
      endpoint = codes "https://s3.eu-west-1.amazonaws.com";
      bucket_policy_json = codes "{}";
    };
  };
}

minio_entry-IsFresh : Cache.IsFresh connect (λ namespace name version. entries) minio_entry
unfolding Minio.config_from_secret_data Minio.first_secret_string lookup trim_space equal_fold
    to_lower new_client codes ◌==◌
minio_entry-IsFresh = record {
  ref = minio_secret;
  plain = ops-HasNo;
  key = refl;
  cfg = record {
    endpoint = codes "minio:9000";
    access_key = codes "admin";
    secret_key = codes "hidden";
    use_ssl = false;
  };
  config = refl;
  made = refl;
}

aws_entry-IsFresh : Freshness.IsFresh plainly valid load history aws_entry
unfolding Config.config_from_secret_data Config.first_secret_string lookup trim_space assembled new
    with_bucket_policy_document at_key codes ◌==◌
aws_entry-IsFresh = record {
  ref = aws_secret;
  secret_version = codes "7";
  source = config_map (codes "ops") (codes "policies") (codes "policy");
  policy_version = codes "7";
  plain_ref = aws_secret-IsPlainReference;
  plain_version = seven-HasNo;
  plain_source = (ops-HasNo, policies-HasNo);
  key = refl;
  version = refl;
  cfg = record {
    region = codes "eu-west-1";
    access_key_id = codes "id";
    secret_access_key = codes "key";
    s3_endpoint = [];
    iam_endpoint = [];
  };
  config = refl;
  made = refl;
}

abbrev caches : Caches (Text × Text) Text
caches = record { minio_entries = minio_entry ∷ []; aws_entries = aws_entry ∷ [] }

abbrev requests : List (ApiServer × BucketClass)
requests = (api, minio_class) ∷ (api, aws_class) ∷ (api, minio_class) ∷ []

aws_provider_for_class-IsFresh_example :
    ((aws_provider_for_class plainly valid load api aws_class (aws_entry ∷ [])).0
      ≡ (aws_provider_for_class plainly valid load api aws_class []).0)
    × All
        (Freshness.IsFresh plainly valid load history)
        (aws_provider_for_class plainly valid load api aws_class (aws_entry ∷ [])).1
aws_provider_for_class-IsFresh_example =
    Freshness.aws_provider_for_class-IsFresh plainly valid load history api aws_class
      (aws_entry ∷ []) aws-IsKnown (aws_entry-IsFresh, tt)

resolve_all_refines_example :
    resolve_all plainly connect none valid load history requests caches
    ≡ map (resolve_anew plainly connect none valid load history) requests
resolve_all_refines_example =
    resolve_all_refines plainly connect none valid load history requests caches
      (minio-IsKnown, (aws-IsKnown, (minio-IsKnown, tt)))
      (record { minio_fresh = (minio_entry-IsFresh, tt); aws_fresh = (aws_entry-IsFresh, tt) })
