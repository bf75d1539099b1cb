-- ===== src/Resolver/Aws/Freshness.antt =====
-- The cache of AWS providers, and the secrets and policy documents that they were made of.
use k8s_s3_bucket_operator.Prelude.{
  Option, none, some, List, [], All, Result, ok, err, Bool-cases, inl, inr, ◌≡◌, refl, ap, ap₂, ◌∙◌,
  sym,
}
use k8s_s3_bucket_operator.Text.{Text, codes, ◌==◌, eq_iff}
use k8s_s3_bucket_operator.Errors.{GoError, Go}
use k8s_s3_bucket_operator.Api.{BucketClass, BucketPolicyRef, ObjectReference}
use k8s_s3_bucket_operator.Aws.Config.{AwsConfig, AwsProvider, config_from_secret_data}
use k8s_s3_bucket_operator.Resolver.{Secret, Entry, find, cache_key}
use k8s_s3_bucket_operator.Resolver.Entries.{find-All, store-All}
use k8s_s3_bucket_operator.Resolver.Aws.{
  ApiServer, PolicyDocument, policy_for, assembled, joined, aws_kept, aws_answered, aws_cached,
  aws_configured, aws_read, aws_client_for, aws_provider_for_class,
}
use k8s_s3_bucket_operator.Resolver.Keys.{
  HasNo, parts_unique, IsPlainReference, cache_key_unique, cache_key-HasNo,
}
use k8s_s3_bucket_operator.Resolver.Aws.Sources.{
  History, Source, source_key, source_document, IsPlain, source_unique, IsSourced, IsFollowing,
  policy_for-IsSourced,
}

module _ {C : Type 0} (quote : Text → Text) (unmarshal : Text → Result GoError (Unit {0}))
    (load : AwsConfig → Result GoError C) (history : History) where
  -- The API server answers as the history says, and the class's references are plain.
  pub record IsKnown (api : ApiServer) (class : BucketClass) : Type 0 where
    pub follows : IsFollowing quote unmarshal load history api
    pub reference :
        (ref : ObjectReference) → class.aws_credential_secret_ref ≡ some ref → IsPlainReference ref
    pub minio_reference :
        (ref : ObjectReference)
        → class.minio_credential_secret_ref ≡ some ref
        → HasNo b'/' ref.namespace
    pub policy :
        (pr : BucketPolicyRef)
        → class.bucket_policy_ref ≡ some pr
        → HasNo b'/' pr.namespace × HasNo b'#' pr.name

  -- An entry's provider is what the entries of its secret and its document make.
  pub record IsFresh (e : Entry (AwsProvider C)) : Type 0 where
    pub ref : ObjectReference
    pub secret_version : Text
    pub source : Source
    pub policy_version : Text
    pub plain_ref : IsPlainReference ref
    pub plain_version : HasNo b'|' secret_version
    pub plain_source : IsPlain source
    pub key : e.key ≡ joined quote unmarshal load (cache_key ref) (source_key source)
    pub version : e.version ≡ joined quote unmarshal load secret_version policy_version
    pub cfg : AwsConfig
    pub config :
        config_from_secret_data (history.secrets ref.namespace ref.name secret_version) ≡ ok cfg
    pub made :
        assembled quote unmarshal load cfg (source_document history source policy_version)
        ≡ ok e.client

  -- What is made for a secret and a document at their versions.
  pub record IsMaking (ref : ObjectReference) (s : Secret) (cfg : AwsConfig) (p : PolicyDocument)
      : Type 0 where
    pub plain_ref : IsPlainReference ref
    pub plain_version : HasNo b'|' s.version
    pub config : config_from_secret_data (history.secrets ref.namespace ref.name s.version) ≡ ok cfg
    pub sourced : IsSourced quote unmarshal load history p

  current_client :
      (ref : ObjectReference) (s : Secret) (cfg : AwsConfig) (p : PolicyDocument)
      (e : Entry (AwsProvider C))
      → IsMaking ref s cfg p
      → IsFresh e
      → e.key ≡ joined quote unmarshal load (cache_key ref) p.key
      → e.version ≡ joined quote unmarshal load s.version p.version
      → ok e.client ≡ assembled quote unmarshal load cfg p.document
  unfolding codes
  current_client ref s cfg p e m f k v =
      let sourced = m.sourced in
      let (same_key, same_policy) =
        parts_unique b'|' (cache_key f.ref) (cache_key ref) (source_key f.source) p.key
          (cache_key-HasNo f.ref f.plain_ref) (cache_key-HasNo ref m.plain_ref) (sym f.key ∙ k) in
      let same_ref =
        cache_key_unique f.ref ref f.plain_ref.namespace m.plain_ref.namespace same_key in
      let same_source =
        source_unique f.source sourced.source f.plain_source sourced.plain
          (same_policy ∙ sourced.key) in
      let (same_version, same_policy_version) =
        parts_unique b'|' f.secret_version s.version f.policy_version p.version f.plain_version
          m.plain_version (sym f.version ∙ v) in
      let same : ok f.cfg ≡ ok cfg =
        sym f.config
        ∙ ap₂
            (λ (r : ObjectReference) (y : Text).
              config_from_secret_data (history.secrets r.namespace r.name y))
            same_ref same_version
        ∙ m.config in
      let made = f.made in
      let document = sourced.document in
      let read =
        ap₂ (λ (x : Source) (y : Text). source_document history x y) same_source
          same_policy_version in
      cc (made, document, read, same)

  kept-IsFresh :
      (ref : ObjectReference) (s : Secret) (cfg : AwsConfig) (p : PolicyDocument)
      (cache : List (Entry (AwsProvider C))) (r : Result GoError (AwsProvider C))
      → IsMaking ref s cfg p
      → assembled quote unmarshal load cfg p.document ≡ r
      → All IsFresh cache
      → let run =
          aws_kept quote unmarshal load
            (joined quote unmarshal load (cache_key ref) p.key)
            (joined quote unmarshal load s.version p.version)
            cache
            r in
        (run.0 ≡ r) × All IsFresh run.1
  kept-IsFresh ref s cfg p cache (err e) m a h = (refl, h)
  kept-IsFresh ref s cfg p cache (ok made) m a h = (
    refl,
    store-All IsFresh _ cache
        (record {
          ref = ref;
          secret_version = s.version;
          source = m.sourced.source;
          policy_version = p.version;
          plain_ref = m.plain_ref;
          plain_version = m.plain_version;
          plain_source = m.sourced.plain;
          key = ap (λ (k : Text). joined quote unmarshal load (cache_key ref) k) m.sourced.key;
          version = refl;
          cfg = cfg;
          config = m.config;
          made =
              ap (λ (d : Text). assembled quote unmarshal load cfg d) (sym m.sourced.document) ∙ a;
        })
        h,
  )

  answered-IsFresh :
      (ref : ObjectReference) (s : Secret) (cfg : AwsConfig) (p : PolicyDocument)
      (cache : List (Entry (AwsProvider C))) (found : Option (Entry (AwsProvider C)))
      → IsMaking ref s cfg p
      → All IsFresh cache
      → find (joined quote unmarshal load (cache_key ref) p.key) cache ≡ found
      → let new = assembled quote unmarshal load cfg p.document in
        let run =
          aws_answered quote unmarshal load
            (joined quote unmarshal load (cache_key ref) p.key)
            (joined quote unmarshal load s.version p.version)
            new
            cache
            found in
        (run.0 ≡ new) × All IsFresh run.1
  answered-IsFresh ref s cfg p cache none m h f = kept-IsFresh ref s cfg p cache _ m refl h
  answered-IsFresh ref s cfg p cache (some e) m h f =
      let version = joined quote unmarshal load s.version p.version in
      let (fresh, k) = find-All IsFresh _ cache h f in
      elim (Bool-cases (e.version == version)) [
        | inl current ↦
            rw current
              (current_client ref s cfg p e m fresh k ((eq_iff e.version version).0 current), h)
        | inr old ↦ rw old (kept-IsFresh ref s cfg p cache _ m refl h)
      ]

  -- A run with the cache answers as one with none, and leaves fresh entries.
  abbrev Answers :
      Go (List (Entry (AwsProvider C))) (AwsProvider C) → List (Entry (AwsProvider C)) → Type 0
  Answers m cache = ((m cache).0 ≡ (m []).0) × All IsFresh (m cache).1

  cached-Answers :
      (ref : ObjectReference) (s : Secret) (cfg : AwsConfig) (r : Result GoError PolicyDocument)
      (cache : List (Entry (AwsProvider C)))
      → ((p : PolicyDocument) → r ≡ ok p → IsMaking ref s cfg p)
      → All IsFresh cache
      → Answers (aws_cached quote unmarshal load ref s cfg r) cache
  unfolding aws_cached
  cached-Answers ref s cfg (err e) cache m h = (refl, h)
  cached-Answers ref s cfg (ok p) cache m h =
      let (same, fresh) = answered-IsFresh ref s cfg p cache _ (m p refl) h refl in
      let (alone, _) = answered-IsFresh ref s cfg p [] _ (m p refl) tt refl in
      (same ∙ sym alone, fresh)

  configured-Answers :
      (api : ApiServer) (class : BucketClass) (ref : ObjectReference) (s : Secret)
      (r : Result GoError AwsConfig) (cache : List (Entry (AwsProvider C)))
      → IsKnown api class
      → class.aws_credential_secret_ref ≡ some ref
      → api.secret ref.namespace ref.name ≡ ok s
      → config_from_secret_data s.entries ≡ r
      → All IsFresh cache
      → Answers (aws_configured quote unmarshal load api class ref s r) cache
  unfolding aws_configured
  configured-Answers api class ref s (err e) cache known named read c h = (refl, h)
  configured-Answers api class ref s (ok cfg) cache known named read c h =
      let (entries, plain) = known.follows.secret ref.namespace ref.name s read in
      cached-Answers ref s cfg
        (policy_for quote unmarshal load api class.name class.bucket_policy_ref) cache
        (λ p e. record {
          plain_ref = known.reference ref named;
          plain_version = plain;
          config = ap config_from_secret_data (sym entries) ∙ c;
          sourced =
              policy_for-IsSourced quote unmarshal load history api class.name
                class.bucket_policy_ref known.follows known.policy p e;
        })
        h

  read-Answers :
      (api : ApiServer) (class : BucketClass) (ref : ObjectReference) (r : Result GoError Secret)
      (cache : List (Entry (AwsProvider C)))
      → IsKnown api class
      → class.aws_credential_secret_ref ≡ some ref
      → api.secret ref.namespace ref.name ≡ r
      → All IsFresh cache
      → Answers (aws_read quote unmarshal load api class ref r) cache
  unfolding aws_read
  read-Answers api class ref (err e) cache known named read h = (refl, h)
  read-Answers api class ref (ok s) cache known named read h =
      configured-Answers api class ref s (config_from_secret_data s.entries) cache known named read
        refl h

  client_for-Answers :
      (api : ApiServer) (class : BucketClass) (ref : Option ObjectReference)
      (cache : List (Entry (AwsProvider C)))
      → IsKnown api class
      → class.aws_credential_secret_ref ≡ ref
      → All IsFresh cache
      → Answers (aws_client_for quote unmarshal load api class ref) cache
  unfolding aws_client_for
  client_for-Answers api class none cache known named h = (refl, h)
  client_for-Answers api class (some ref) cache known named h = elim (Bool-cases (ref.name == [])) [
    | inl unnamed ↦ rw unnamed (refl, h)
    | inr called ↦ elim (Bool-cases (ref.namespace == [])) [
      | inl bare ↦ rw (called, bare) (refl, h)
      | inr placed ↦ rw (called, placed) (read-Answers api class ref _ cache known named refl h)
    ]
  ]

  -- If the API server answers as a history of the secrets and the config maps, by their namespaces,
  -- names and versions, where no version of a secret has a bar, if the class's reference to its secret
  -- has no bar and its namespaces no slash, and its policy names no object with a hash, and if every
  -- cached AWS provider was made of such a secret and such a document at the versions of the entry:
  -- the resolver answers as one with an empty cache does, and every cached provider is again such.
  pub aws_provider_for_class-IsFresh :
      (api : ApiServer) (class : BucketClass) (cache : List (Entry (AwsProvider C)))
      → IsKnown api class
      → All IsFresh cache
      → ((aws_provider_for_class quote unmarshal load api class cache).0
          ≡ (aws_provider_for_class quote unmarshal load api class []).0)
        × All IsFresh (aws_provider_for_class quote unmarshal load api class cache).1
  unfolding aws_provider_for_class
  aws_provider_for_class-IsFresh api class cache known h =
      client_for-Answers api class class.aws_credential_secret_ref cache known refl h
