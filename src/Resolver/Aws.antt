-- ===== src/Resolver/Aws.antt =====
-- internal/backend/resolve/resolver.go: the AWS half of the resolver, and ProviderForClass.
pub mod Sources
pub mod Freshness
use k8s_s3_bucket_operator.Prelude.{
  ◌++◌, Bool, true, false, ◌||◌, Option, none, some, List, [], ◌∷◌, Result, ok, err, if◌then◌else◌,
}
use k8s_s3_bucket_operator.Text.{Text, codes, ◌==◌, trim_space}
use k8s_s3_bucket_operator.Errors.{GoError, plain, wrapped, Go}
use k8s_s3_bucket_operator.Api.{Params, at_key, BucketClass, BucketPolicyRef, ObjectReference}
use k8s_s3_bucket_operator.Minio
use k8s_s3_bucket_operator.Aws.Config.{
  AwsConfig, AwsProvider, config_from_secret_data, new, with_bucket_policy_document,
}
use k8s_s3_bucket_operator.Resolver.{
  Kind, minio, aws, kind_for_bucket_class, Secret, Entry, find, store, cache_key,
  minio_provider_for_class,
}

-- The Kubernetes API as it answers at one time. A config map has a version and entries too.
pub record ApiServer : Type 0 where
  pub secret : Text → Text → Result GoError Secret
  pub config_map : Text → Text → Result GoError Secret

-- policyKey, policyRV and policyDoc
pub record PolicyDocument : Type 0 where
  pub key : Text
  pub version : Text
  pub document : Text

abbrev pub no_policy : PolicyDocument
no_policy = record { key = []; version = []; document = [] }

abbrev pub policy_kind : BucketPolicyRef → Text
policy_kind pr = let kind = trim_space pr.kind in if kind == [] then codes "ConfigMap" else kind

unfoldable pub policy_key : BucketPolicyRef → Text
policy_key pr =
    policy_kind pr
    ++ (codes ":" ++ (pr.namespace ++ (codes "/" ++ (pr.name ++ (codes "#" ++ pr.key)))))

-- `unmarshal` is json.Unmarshal into an object, `load` makes the clients of a configuration.
module _ {C : Type 0} (quote : Text → Text) (unmarshal : Text → Result GoError (Unit {0}))
    (load : AwsConfig → Result GoError C) where
  abbrev pub refused : {A : Type 0} → Text → Text → Result GoError A
  refused class_name text = err (plain (codes "bucketClass " ++ (quote class_name ++ text)))

  abbrev pub validated :
      Text → PolicyDocument → Result GoError (Unit {0}) → Result GoError PolicyDocument
  validated class_name policy (ok valid) = ok policy
  validated class_name policy (err e) = err (
      wrapped
        (codes "bucketClass " ++ (quote class_name ++ codes ": bucketPolicyRef JSON invalid: ")) e
        [])

  -- The document in what was read. That of a config map is trimmed, by `clean`.
  unfoldable pub document_in :
      Text → BucketPolicyRef → (Text → Text) → Result GoError Secret → Result GoError PolicyDocument
  document_in class_name pr clean (err e) = err e
  document_in class_name pr clean (ok found) =
      let raw = clean (at_key found.entries pr.key) in
      if raw == []
      then refused class_name (
          codes ": bucketPolicyRef "
          ++ (pr.namespace
              ++ (codes "/"
                  ++ (pr.name ++ (codes " missing data[" ++ (quote pr.key ++ codes "]"))))))
      else validated class_name
          (record { key = policy_key pr; version = found.version; document = raw }) (unmarshal raw)

  unfoldable pub policy_for :
      ApiServer → Text → Option BucketPolicyRef → Result GoError PolicyDocument
  policy_for api class_name none = ok no_policy
  policy_for api class_name (some pr) =
      if trim_space pr.name == []
      then ok no_policy
      else if trim_space pr.namespace == [] || trim_space pr.key == []
      then refused class_name (codes ": bucketPolicyRef requires namespace, name, and key")
      else if policy_kind pr == codes "ConfigMap"
      then document_in class_name pr trim_space (api.config_map pr.namespace pr.name)
      else if policy_kind pr == codes "Secret"
      then document_in class_name pr (λ raw. raw) (api.secret pr.namespace pr.name)
      else refused class_name (codes ": bucketPolicyRef.kind must be ConfigMap or Secret")

  abbrev pub with_document : Text → Result GoError (AwsProvider C) → Result GoError (AwsProvider C)
  with_document raw (err e) = err e
  with_document raw (ok p) = ok (with_bucket_policy_document raw p)

  -- What is made of a configuration and a document.
  unfoldable pub assembled : AwsConfig → Text → Result GoError (AwsProvider C)
  assembled cfg raw = with_document raw (new load cfg)

  abbrev pub aws_kept :
      Text
      → Text
      → List (Entry (AwsProvider C))
      → Result GoError (AwsProvider C)
      → Result GoError (AwsProvider C) × List (Entry (AwsProvider C))
  aws_kept key version cache (err e) = (err e, cache)
  aws_kept key version cache (ok p) =
      (ok p, store (record { key = key; version = version; client = p }) cache)

  -- The cached provider of that version, or the new one, which is stored.
  abbrev pub aws_answered :
      Text
      → Text
      → Result GoError (AwsProvider C)
      → List (Entry (AwsProvider C))
      → Option (Entry (AwsProvider C))
      → Result GoError (AwsProvider C) × List (Entry (AwsProvider C))
  aws_answered key version new cache none = aws_kept key version cache new
  aws_answered key version new cache (some e) =
      if e.version == version then (ok e.client, cache) else aws_kept key version cache new

  -- The secret's part and the policy's part, for the key and for the version.
  abbrev pub joined : Text → Text → Text
  joined secret policy = secret ++ (codes "|" ++ policy)

  unfoldable pub aws_cached :
      ObjectReference
      → Secret
      → AwsConfig
      → Result GoError PolicyDocument
      → Go (List (Entry (AwsProvider C))) (AwsProvider C)
  aws_cached ref secret cfg (err e) cache = (err e, cache)
  aws_cached ref secret cfg (ok policy) cache =
      let key = joined (cache_key ref) policy.key in
      let version = joined secret.version policy.version in
      aws_answered key version (assembled cfg policy.document) cache (find key cache)

  unfoldable pub aws_configured :
      ApiServer
      → BucketClass
      → ObjectReference
      → Secret
      → Result GoError AwsConfig
      → Go (List (Entry (AwsProvider C))) (AwsProvider C)
  aws_configured api class ref secret (err e) cache = (
    err (wrapped (codes "invalid AWS credential secret " ++ (cache_key ref ++ codes ": ")) e []),
    cache,
  )
  aws_configured api class ref secret (ok cfg) cache =
      aws_cached ref secret cfg (policy_for api class.name class.bucket_policy_ref) cache

  unfoldable pub aws_read :
      ApiServer
      → BucketClass
      → ObjectReference
      → Result GoError Secret
      → Go (List (Entry (AwsProvider C))) (AwsProvider C)
  aws_read api class ref (err e) cache = (err e, cache)
  aws_read api class ref (ok secret) cache =
      aws_configured api class ref secret (config_from_secret_data secret.entries) cache

  unfoldable pub aws_client_for :
      ApiServer
      → BucketClass
      → Option ObjectReference
      → Go (List (Entry (AwsProvider C))) (AwsProvider C)
  aws_client_for api class none cache =
      (refused class.name (codes ": awsCredentialSecretRef is required when backend=AWS"), cache)
  aws_client_for api class (some ref) cache =
      if ref.name == []
      then (
        refused class.name (codes ": awsCredentialSecretRef is required when backend=AWS"),
        cache,
      )
      else if ref.namespace == []
      then (
        refused class.name
            (codes ": awsCredentialSecretRef.namespace is required when name is set"),
        cache,
      )
      else aws_read api class ref (api.secret ref.namespace ref.name) cache

  -- `awsProviderForClass`
  unfoldable pub aws_provider_for_class :
      ApiServer → BucketClass → Go (List (Entry (AwsProvider C))) (AwsProvider C)
  aws_provider_for_class api class cache =
      aws_client_for api class class.aws_credential_secret_ref cache
