-- ===== src/Resolver/Cache.antt =====
-- The cache of MinIO clients, and the secrets that they were made of.
use k8s_s3_bucket_operator.Prelude.{
  Option, none, some, List, [], All, Result, ok, err, Bool-cases, inl, inr, ◌≡◌, refl, ap, ap₂, ◌∙◌,
  sym,
}
use k8s_s3_bucket_operator.Text.{Text, ◌==◌, eq_iff}
use k8s_s3_bucket_operator.Errors.{GoError}
use k8s_s3_bucket_operator.Api.{Params, BucketClass, ObjectReference}
use k8s_s3_bucket_operator.Minio.{Config, config_from_secret_data}
use k8s_s3_bucket_operator.Resolver.Keys.{HasNo, cache_key_unique}
use k8s_s3_bucket_operator.Resolver.Entries.{find-All, store-All}
use k8s_s3_bucket_operator.Resolver.{
  Secret, Entry, find, cache_key, answered, cached, configured, kept, client_for, read,
  minio_provider_for_class,
}

module _ {C : Type 0} (make : Config → Result GoError C)
    (history : Text → Text → Text → Params) where
  -- An entry's client is what the entries of its secret at its version make.
  pub record IsFresh (e : Entry C) : Type 0 where
    pub ref : ObjectReference
    pub plain : HasNo b'/' ref.namespace
    pub key : e.key ≡ cache_key ref
    pub cfg : Config
    pub config : config_from_secret_data (history ref.namespace ref.name e.version) ≡ ok cfg
    pub made : make cfg ≡ ok e.client

  current_client :
      (ref : ObjectReference) (version : Text) (cfg : Config) (e : Entry C)
      → HasNo b'/' ref.namespace
      → IsFresh e × (e.key ≡ cache_key ref)
      → e.version ≡ version
      → config_from_secret_data (history ref.namespace ref.name version) ≡ ok cfg
      → ok e.client ≡ make cfg
  current_client ref version cfg e plain (fresh, k) v c =
      let same_ref = cache_key_unique fresh.ref ref fresh.plain plain (sym fresh.key ∙ k) in
      let same : ok fresh.cfg ≡ ok cfg =
        sym fresh.config
        ∙ ap₂
            (λ (r : ObjectReference) (y : Text).
              config_from_secret_data (history r.namespace r.name y))
            same_ref v
        ∙ c in
      let made = fresh.made in cc (made, same)

  module _ (quote : Text → Text) (get : Text → Text → Result GoError Secret)
      (default : Option C) where
    kept-IsFresh :
        (ref : ObjectReference) (version : Text) (cfg : Config) (cache : List (Entry C))
        (r : Result GoError C)
        → HasNo b'/' ref.namespace
        → make cfg ≡ r
        → config_from_secret_data (history ref.namespace ref.name version) ≡ ok cfg
        → All IsFresh cache
        → ((kept quote make get default (cache_key ref) version cache r).0 ≡ r)
          × All IsFresh (kept quote make get default (cache_key ref) version cache r).1
    kept-IsFresh ref version cfg cache (err e) plain m c h = (refl, h)
    kept-IsFresh ref version cfg cache (ok made) plain m c h = (
      refl,
      store-All IsFresh (record { key = cache_key ref; version = version; client = made }) cache
          (record { ref = ref; plain = plain; key = refl; cfg = cfg; config = c; made = m }) h,
    )

    answered-IsFresh :
        (ref : ObjectReference) (version : Text) (cfg : Config) (cache : List (Entry C))
        (found : Option (Entry C))
        → HasNo b'/' ref.namespace
        → find (cache_key ref) cache ≡ found
        → config_from_secret_data (history ref.namespace ref.name version) ≡ ok cfg
        → All IsFresh cache
        → ((answered quote make get default (cache_key ref) version cfg cache found).0 ≡ make cfg)
          × All IsFresh (answered quote make get default (cache_key ref) version cfg cache found).1
    answered-IsFresh ref version cfg cache none plain f c h =
        kept-IsFresh ref version cfg cache (make cfg) plain refl c h
    answered-IsFresh ref version cfg cache (some e) plain f c h =
        elim (Bool-cases (e.version == version)) [
          | inl current ↦ rw current (
            current_client ref version cfg e plain (find-All IsFresh (cache_key ref) cache h f)
                ((eq_iff e.version version).0 current) c,
            h,
          )
          | inr old ↦ rw old (kept-IsFresh ref version cfg cache (make cfg) plain refl c h)
        ]

    configured-IsFresh :
        (ref : ObjectReference) (version : Text) (cache : List (Entry C))
        (r : Result GoError Config)
        → HasNo b'/' ref.namespace
        → config_from_secret_data (history ref.namespace ref.name version) ≡ r
        → All IsFresh cache
        → ((configured quote make get default (cache_key ref) version cache r).0
            ≡ (configured quote make get default (cache_key ref) version [] r).0)
          × All IsFresh (configured quote make get default (cache_key ref) version cache r).1
    unfolding cached
    configured-IsFresh ref version cache (err e) plain c h = (refl, h)
    configured-IsFresh ref version cache (ok cfg) plain c h =
        let (same, fresh) =
          answered-IsFresh ref version cfg cache (find (cache_key ref) cache) plain refl c h in
        let (alone, _) =
          answered-IsFresh ref version cfg [] (find (cache_key ref) []) plain refl c tt in
        (same ∙ sym alone, fresh)

    read-IsFresh :
        (ref : ObjectReference) (cache : List (Entry C)) (r : Result GoError Secret)
        → HasNo b'/' ref.namespace
        → ((secret : Secret)
            → r ≡ ok secret
            → secret.entries ≡ history ref.namespace ref.name secret.version)
        → All IsFresh cache
        → ((read quote make get default (cache_key ref) cache r).0
            ≡ (read quote make get default (cache_key ref) [] r).0)
          × All IsFresh (read quote make get default (cache_key ref) cache r).1
    read-IsFresh ref cache (err e) plain known h = (refl, h)
    read-IsFresh ref cache (ok secret) plain known h =
        configured-IsFresh ref secret.version cache (config_from_secret_data secret.entries) plain
          (ap config_from_secret_data (sym (known secret refl))) h

    client_for-IsFresh :
        (class_name : Text) (cache : List (Entry C)) (ref : Option ObjectReference)
        → ((namespace name : Text) (secret : Secret)
            → get namespace name ≡ ok secret
            → secret.entries ≡ history namespace name secret.version)
        → ((named : ObjectReference) → ref ≡ some named → HasNo b'/' named.namespace)
        → All IsFresh cache
        → ((client_for quote make get default class_name cache ref).0
            ≡ (client_for quote make get default class_name [] ref).0)
          × All IsFresh (client_for quote make get default class_name cache ref).1
    client_for-IsFresh class_name cache none known plain h = (refl, h)
    client_for-IsFresh class_name cache (some ref) known plain h =
        elim (Bool-cases (ref.name == [])) [
          | inl unnamed ↦ rw unnamed (refl, h)
          | inr named ↦ elim (Bool-cases (ref.namespace == [])) [
            | inl bare ↦ rw (named, bare) (refl, h)
            | inr placed ↦
                rw (named, placed)
                  (read-IsFresh ref cache (get ref.namespace ref.name) (plain ref refl)
                    (known ref.namespace ref.name) h)
          ]
        ]

    -- If a secret's entries are determined by its namespace, its name and its resource version, if the
    -- namespace that the class refers to has no slash, and if every cached client was made of the
    -- entries of such a secret at the version of the entry: the resolver answers as one with an empty
    -- cache does, and every cached client is again such.
    pub minio_provider_for_class-IsFresh :
        (class : BucketClass) (cache : List (Entry C))
        → ((namespace name : Text) (secret : Secret)
            → get namespace name ≡ ok secret
            → secret.entries ≡ history namespace name secret.version)
        → ((named : ObjectReference)
            → class.minio_credential_secret_ref ≡ some named
            → HasNo b'/' named.namespace)
        → All IsFresh cache
        → ((minio_provider_for_class quote make get default class cache).0
            ≡ (minio_provider_for_class quote make get default class []).0)
          × All IsFresh (minio_provider_for_class quote make get default class cache).1
    unfolding minio_provider_for_class
    minio_provider_for_class-IsFresh class cache known plain h =
        client_for-IsFresh class.name cache class.minio_credential_secret_ref known plain h
