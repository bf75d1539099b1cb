-- ===== src/Resolver/Refinement.antt =====
-- A resolver with caches, and one that makes every provider anew.
use k8s_s3_bucket_operator.Prelude.{
  Option, some, List, [], ◌∷◌, map, All, Result, ok, err, ◌≡◌, refl, ap, ap₂,
}
use k8s_s3_bucket_operator.Text.{Text}
use k8s_s3_bucket_operator.Errors.{GoError}
use k8s_s3_bucket_operator.Api.{BucketClass}
use k8s_s3_bucket_operator.Minio.{Config}
use k8s_s3_bucket_operator.Aws.Config.{AwsConfig}
use k8s_s3_bucket_operator.Resolver.{Kind, minio, aws, kind_for_bucket_class}
use k8s_s3_bucket_operator.Resolver.Cache
use k8s_s3_bucket_operator.Resolver.Aws.{ApiServer}
use k8s_s3_bucket_operator.Resolver.Aws.Sources.{History}
use k8s_s3_bucket_operator.Resolver.Aws.Freshness
use k8s_s3_bucket_operator.Resolver.Dispatch.{
  Caches, no_entries, Resolved, as_minio, as_aws, dispatched, provider_for_class,
}

module _ {M C : Type 0} (quote : Text → Text) (make : Config → Result GoError M)
    (default : Option M) (unmarshal : Text → Result GoError (Unit {0}))
    (load : AwsConfig → Result GoError C) (history : History) where
  -- The entries of both caches are fresh.
  pub record AreFresh (caches : Caches M C) : Type 0 where
    pub minio_fresh : All (Cache.IsFresh make history.secrets) caches.minio_entries
    pub aws_fresh : All (Freshness.IsFresh quote unmarshal load history) caches.aws_entries

  -- Asked for a class, while the API server answers in a way of its own.
  abbrev pub Request : Type 0
  Request = ApiServer × BucketClass

  abbrev pub IsKnownRequest : Request → Type 0
  IsKnownRequest (api, class) = Freshness.IsKnown quote unmarshal load history api class

  -- The results of a resolver over the requests, one after the other.
  unfoldable pub resolve_all : List Request → Caches M C → List (Result GoError (Resolved M C))
  resolve_all [] caches = []
  resolve_all ((api, class) ∷ requests) caches =
      let (r, after) = provider_for_class quote make default unmarshal load api class caches in
      r ∷ resolve_all requests after

  -- The result of a resolver without caches.
  abbrev pub resolve_anew : Request → Result GoError (Resolved M C)
  resolve_anew (api, class) =
      (provider_for_class quote make default unmarshal load api class no_entries).0

  dispatched-AreFresh :
      (api : ApiServer) (class : BucketClass) (kind : Result GoError Kind) (caches : Caches M C)
      → IsKnownRequest (api, class)
      → AreFresh caches
      → let run = dispatched quote make default unmarshal load api class kind in
        ((run caches).0 ≡ (run no_entries).0) × AreFresh (run caches).1
  dispatched-AreFresh api class (err e) caches known h = (refl, h)
  dispatched-AreFresh api class (ok minio) caches known h =
      let (same, fresh) =
        Cache.minio_provider_for_class-IsFresh make history.secrets quote api.secret default class
          caches.minio_entries (λ namespace name s e. (known.follows.secret namespace name s e).0)
          known.minio_reference h.minio_fresh in
      (
        ap (as_minio quote make default unmarshal load) same,
        record { minio_fresh = fresh; aws_fresh = h.aws_fresh },
      )
  dispatched-AreFresh api class (ok aws) caches known h =
      let (same, fresh) =
        Freshness.aws_provider_for_class-IsFresh quote unmarshal load history api class
          caches.aws_entries known h.aws_fresh in
      (
        ap (as_aws quote make default unmarshal load) same,
        record { minio_fresh = h.minio_fresh; aws_fresh = fresh },
      )

  provider_for_class-AreFresh :
      (api : ApiServer) (class : BucketClass) (caches : Caches M C)
      → IsKnownRequest (api, class)
      → AreFresh caches
      → let run = provider_for_class quote make default unmarshal load api class in
        ((run caches).0 ≡ (run no_entries).0) × AreFresh (run caches).1
  unfolding provider_for_class
  provider_for_class-AreFresh api class caches known h =
      dispatched-AreFresh api class (kind_for_bucket_class quote (some class)) caches known h

  -- A resolver with caches, each of whose entries was made of its secret and its document at their
  -- versions, gives for every sequence of requests the results of a resolver that makes each provider
  -- anew, although the API server may answer each request differently, if it always answers as one
  -- history of the secrets and the config maps by their namespaces, names and versions, where no
  -- version of a secret and no reference to an AWS secret has a bar, no namespace that a class names
  -- has a slash, and no name of a policy's object has a hash.
  pub resolve_all_refines :
      (requests : List Request) (caches : Caches M C)
      → All IsKnownRequest requests
      → AreFresh caches
      → resolve_all requests caches ≡ map resolve_anew requests
  unfolding resolve_all
  resolve_all_refines [] caches known h = refl
  resolve_all_refines ((api, class) ∷ requests) caches (k, known) h =
      let (same, fresh) = provider_for_class-AreFresh api class caches k h in
      ap₂ (λ r rest. r ∷ rest) same (resolve_all_refines requests _ known fresh)
