-- ===== src/Resolver.antt =====
-- internal/backend/kind.go and internal/backend/resolve/resolver.go: which storage back end a class
-- has, and the MinIO half of the resolver with its cache.
pub mod Keys
pub mod Entries
pub mod Cache
pub mod Aws
pub mod Dispatch
pub mod Refinement
use k8s_s3_bucket_operator.Prelude.{
  ◌++◌, Bool, true, false, ◌||◌, Option, none, some, List, [], ◌∷◌, Result, ok, err, if◌then◌else◌,
}
use k8s_s3_bucket_operator.Text.{Text, codes, ◌==◌, trim_space, to_lower}
use k8s_s3_bucket_operator.Errors.{GoError, plain, wrapped, Go}
use k8s_s3_bucket_operator.Api.{Params, BucketClass, ObjectReference}
use k8s_s3_bucket_operator.Minio.{Config, config_from_secret_data}

pub data Kind : Type 0 where
  minio aws : Kind

-- `KindForBucketClass`. `quote` is the verb %q.
unfoldable pub kind_for_bucket_class : (Text → Text) → Option BucketClass → Result GoError Kind
kind_for_bucket_class quote none = ok minio
kind_for_bucket_class quote (some class) =
    let b = trim_space class.backend in
    if b == []
    then ok minio
    else if to_lower b == codes "minio"
    then ok minio
    else if to_lower b == codes "aws"
    then ok aws
    else err (
        plain (
          codes "unsupported backend "
          ++ (quote class.backend ++ codes " (supported: MinIO, AWS)")))

-- A Kubernetes secret, with its resource version.
pub record Secret : Type 0 where
  pub version : Text
  pub entries : Params

-- `cachedMinio`, under its key.
pub record Entry (C : Type 0) : Type 0 where
  pub key : Text
  pub version : Text
  pub client : C

module _ {C : Type 0} where
  unfoldable pub find : Text → List (Entry C) → Option (Entry C)
  find k [] = none
  find k (e ∷ cache) = let rest = find k cache in if e.key == k then some e else rest

  -- r.cache[e.key] = e
  unfoldable pub store : Entry C → List (Entry C) → List (Entry C)
  store e [] = e ∷ []
  store e (d ∷ cache) = let rest = store e cache in if d.key == e.key then e ∷ cache else d ∷ rest

abbrev chain : {A B : Type 0} → Result GoError A → (A → Result GoError B) → Result GoError B
chain (ok a) f = f a
chain (err e) f = err e

abbrev pub explained : {A : Type 0} → Text → Result GoError A → Result GoError A
explained text (ok a) = ok a
explained text (err e) = err (wrapped text e [])

-- `NewClient` of internal/minio/client.go, over miniogo.New and madmin.New.
unfoldable pub new_client :
    {S A : Type 0}
    → (Config → Result GoError S)
    → (Config → Result GoError A)
    → Config
    → Result GoError (S × A)
new_client new_s3 new_admin cfg =
    if cfg.endpoint == []
    then err (plain (codes "MINIO_ENDPOINT is required"))
    else if cfg.access_key == [] || cfg.secret_key == []
    then err (plain (codes "MINIO_ACCESS_KEY and MINIO_SECRET_KEY are required"))
    else chain (explained (codes "failed to create S3 client: ") (new_s3 cfg)) λ s3.
      chain (explained (codes "failed to create admin client: ") (new_admin cfg))
        λ admin. ok (s3, admin)

-- The key of a secret in the cache, and its name in messages.
abbrev pub cache_key : ObjectReference → Text
cache_key ref = ref.namespace ++ (codes "/" ++ ref.name)

module _ {C : Type 0} (quote : Text → Text) (make : Config → Result GoError C)
    (get : Text → Text → Result GoError Secret) (default : Option C) where
  abbrev pub kept :
      Text → Text → List (Entry C) → Result GoError C → Result GoError C × List (Entry C)
  kept key version cache (err e) = (err e, cache)
  kept key version cache (ok c) =
      (ok c, store (record { key = key; version = version; client = c }) cache)

  -- The cached client of that version, or a new one, which is stored.
  abbrev pub answered :
      Text → Text → Config → List (Entry C) → Option (Entry C) → Result GoError C × List (Entry C)
  answered key version cfg cache none = kept key version cache (make cfg)
  answered key version cfg cache (some e) =
      if e.version == version then (ok e.client, cache) else kept key version cache (make cfg)

  unfoldable pub cached : Text → Text → Config → Go (List (Entry C)) C
  cached key version cfg cache = answered key version cfg cache (find key cache)

  abbrev pub configured :
      Text → Text → List (Entry C) → Result GoError Config → Result GoError C × List (Entry C)
  configured key version cache (err e) =
      (err (wrapped (codes "invalid MinIO credential secret " ++ (key ++ codes ": ")) e []), cache)
  configured key version cache (ok cfg) = cached key version cfg cache

  abbrev pub read :
      Text → List (Entry C) → Result GoError Secret → Result GoError C × List (Entry C)
  read key cache (err e) = (err e, cache)
  read key cache (ok secret) =
      configured key secret.version cache (config_from_secret_data secret.entries)

  abbrev pub without_secret : Option C → Result GoError C
  without_secret none = err (plain (codes "no default MinIO client configured"))
  without_secret (some c) = ok c

  abbrev pub client_for :
      Text → List (Entry C) → Option ObjectReference → Result GoError C × List (Entry C)
  client_for class_name cache none = (without_secret default, cache)
  client_for class_name cache (some ref) =
      if ref.name == []
      then (without_secret default, cache)
      else if ref.namespace == []
      then (
        err (
            plain (
              codes "bucketClass "
              ++ (quote class_name
                  ++ codes ": minioCredentialSecretRef.namespace is required when name is set"))),
        cache,
      )
      else read (cache_key ref) cache (get ref.namespace ref.name)

  -- `minioProviderForClass`
  unfoldable pub minio_provider_for_class : BucketClass → Go (List (Entry C)) C
  minio_provider_for_class class cache =
      client_for class.name cache class.minio_credential_secret_ref
