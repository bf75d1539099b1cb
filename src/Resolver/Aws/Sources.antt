-- ===== src/Resolver/Aws/Sources.antt =====
-- Where a policy document comes from: the keys of the documents, and what they stand for.
use k8s_s3_bucket_operator.Prelude.{
  ◌++◌, true, ◌||◌, Option, none, some, [], ◌∷◌, Result, ok, err, if_true, if_false, ℕ, arith, sym,
  Bool-cases, inl, inr, ◌≡◌, refl, ap, ◌∙◌,
}
use k8s_s3_bucket_operator.Text.{Text, codes, ◌==◌, eq_iff, trim_space}
use k8s_s3_bucket_operator.Errors.{GoError}
use k8s_s3_bucket_operator.Api.{Params, at_key, BucketPolicyRef}
use k8s_s3_bucket_operator.Aws.Config.{AwsConfig}
use k8s_s3_bucket_operator.Resolver.{Secret}
use k8s_s3_bucket_operator.Resolver.Keys.{HasNo, parts_unique}
use k8s_s3_bucket_operator.Resolver.Aws.{
  ApiServer, PolicyDocument, no_policy, policy_kind, policy_key, validated, document_in, policy_for,
}

-- What the secrets and the config maps have held, by namespace, name and version.
pub record History : Type 0 where
  pub secrets : Text → Text → Text → Params
  pub config_maps : Text → Text → Text → Params

-- No document, or an entry of a config map or of a secret: namespace, name and key.
pub data Source : Type 0 where
  unset : Source
  config_map secret : Text → Text → Text → Source

abbrev pub place : Text → Text → Text → Text
place namespace name key = namespace ++ (b'/' ∷ (name ++ (b'#' ∷ key)))

-- The key that each source is to have.
abbrev pub source_key : Source → Text
source_key unset = []
source_key (config_map namespace name key) = codes "ConfigMap:" ++ place namespace name key
source_key (secret namespace name key) = codes "Secret:" ++ place namespace name key

-- The document at a version. That of a config map is trimmed.
abbrev pub source_document : History → Source → Text → Text
source_document history unset version = []
source_document history (config_map namespace name key) version =
    trim_space (at_key (history.config_maps namespace name version) key)
source_document history (secret namespace name key) version =
    at_key (history.secrets namespace name version) key

abbrev pub IsPlain : Source → Type 0
IsPlain unset = Unit
IsPlain (config_map namespace name key) = HasNo b'/' namespace × HasNo b'#' name
IsPlain (secret namespace name key) = HasNo b'/' namespace × HasNo b'#' name

place_unique :
    (n m k n' m' k' : Text)
    → HasNo b'/' n × HasNo b'#' m
    → HasNo b'/' n' × HasNo b'#' m'
    → place n m k ≡ place n' m' k'
    → (n ≡ n') × (m ≡ m') × (k ≡ k')
place_unique n m k n' m' k' (h1, h2) (h1', h2') e =
    let (same, rest) = parts_unique b'/' n n' (m ++ (b'#' ∷ k)) (m' ++ (b'#' ∷ k')) h1 h1' e in
    let (same_m, same_k) = parts_unique b'#' m m' k k' h2 h2' rest in (same, same_m, same_k)

append-cancel : (a b c : Text) → a ++ b ≡ a ++ c → b ≡ c
append-cancel [] b c e = e
append-cancel (d ∷ a) b c e = append-cancel a b c (cc)

first : Text → ℕ
first [] = 0
first (c ∷ s) = c

-- Sources with one key are one.
pub source_unique : (s t : Source) → IsPlain s → IsPlain t → source_key s ≡ source_key t → s ≡ t
unfolding codes first
source_unique unset unset h h' e = refl
source_unique unset (config_map n m k) h h' e =
    let f : 0 ≡ 67 = ap first e in absurd (omega (arith, f))
source_unique unset (secret n m k) h h' e = let f : 0 ≡ 83 = ap first e in absurd (omega (arith, f))
source_unique (config_map n m k) unset h h' e =
    let f : 67 ≡ 0 = ap first e in absurd (omega (arith, f))
source_unique (secret n m k) unset h h' e = let f : 83 ≡ 0 = ap first e in absurd (omega (arith, f))
source_unique (config_map n m k) (secret n' m' k') h h' e =
    let f : 67 ≡ 83 = ap first e in absurd (omega (arith, f))
source_unique (secret n m k) (config_map n' m' k') h h' e =
    let f : 83 ≡ 67 = ap first e in absurd (omega (arith, f))
source_unique (config_map n m k) (config_map n' m' k') h h' e =
    let (same_n, same_m, same_k) =
      place_unique n m k n' m' k' h h' (append-cancel (codes "ConfigMap:") _ _ e) in
    cc (same_n, same_m, same_k)
source_unique (secret n m k) (secret n' m' k') h h' e =
    let (same_n, same_m, same_k) =
      place_unique n m k n' m' k' h h' (append-cancel (codes "Secret:") _ _ e) in
    cc (same_n, same_m, same_k)

module _ {C : Type 0} (quote : Text → Text) (unmarshal : Text → Result GoError (Unit {0}))
    (load : AwsConfig → Result GoError C) (history : History) where
  -- A document that is its source's at its version, under the source's key.
  pub record IsSourced (p : PolicyDocument) : Type 0 where
    pub source : Source
    pub plain : IsPlain source
    pub key : p.key ≡ source_key source
    pub document : p.document ≡ source_document history source p.version

  -- What a document that was found is.
  validated-eq-ok :
      (class_name : Text) (q p : PolicyDocument) (r : Result GoError (Unit {0}))
      → validated quote unmarshal load class_name q r ≡ ok p
      → p ≡ q
  validated-eq-ok class_name q p (ok u) h = cc
  validated-eq-ok class_name q p (err e) h = cc

  document_in-eq-ok :
      (class_name : Text) (pr : BucketPolicyRef) (clean : Text → Text) (r : Result GoError Secret)
      (p : PolicyDocument)
      → document_in quote unmarshal load class_name pr clean r ≡ ok p
      → (s : Secret) × (r ≡ ok s)
        × (p ≡ record {
          key = policy_key pr;
          version = s.version;
          document = clean (at_key s.entries pr.key);
        })
  unfolding document_in
  document_in-eq-ok class_name pr clean (err e) p h = cc
  document_in-eq-ok class_name pr clean (ok s) p h =
      let raw = clean (at_key s.entries pr.key) in
      elim (Bool-cases (raw == [])) [
        | inl empty ↦ let refusal = sym (if_true _ _ _ empty) ∙ h in absurd (cc refusal)
        | inr full ↦ (
          s,
          refl,
          validated-eq-ok class_name
              (record { key = policy_key pr; version = s.version; document = raw }) p
              (unmarshal raw) (sym (if_false _ _ _ full) ∙ h),
        )
      ]

  -- The API server answers as the history says. Versions of secrets have no bar.
  pub record IsFollowing (api : ApiServer) : Type 0 where
    pub secret :
        (namespace name : Text) (s : Secret)
        → api.secret namespace name ≡ ok s
        → (s.entries ≡ history.secrets namespace name s.version) × HasNo b'|' s.version
    pub config_map :
        (namespace name : Text) (s : Secret)
        → api.config_map namespace name ≡ ok s
        → s.entries ≡ history.config_maps namespace name s.version

  policy_key-kind :
      (pr : BucketPolicyRef) (kind : Text)
      → (policy_kind pr == kind) ≡ true
      → policy_key pr ≡ kind ++ (codes ":" ++ place pr.namespace pr.name pr.key)
  unfolding policy_key codes
  policy_key-kind pr kind h =
      ap (λ (k : Text). k ++ (codes ":" ++ place pr.namespace pr.name pr.key))
        ((eq_iff (policy_kind pr) kind).0 h)

  module _ (api : ApiServer) (follows : IsFollowing api) (class_name : Text) (pr : BucketPolicyRef)
      (plain : HasNo b'/' pr.namespace × HasNo b'#' pr.name) (p : PolicyDocument) where
    config_map-IsSourced :
        (policy_kind pr == codes "ConfigMap") ≡ true
        → document_in quote unmarshal load class_name pr trim_space
            (api.config_map pr.namespace pr.name)
          ≡ ok p
        → IsSourced p
    unfolding codes
    config_map-IsSourced k h =
        let (s, got, same) = document_in-eq-ok class_name pr trim_space _ p h in
        let held = follows.config_map pr.namespace pr.name s got in
        record {
          source = config_map pr.namespace pr.name pr.key;
          plain = plain;
          key = ap (λ (q : PolicyDocument). q.key) same ∙ policy_key-kind pr (codes "ConfigMap") k;
          document = cc (same, held);
        }

    secret-IsSourced :
        (policy_kind pr == codes "Secret") ≡ true
        → document_in quote unmarshal load class_name pr
            (λ raw. raw)
            (api.secret pr.namespace pr.name)
          ≡ ok p
        → IsSourced p
    unfolding codes
    secret-IsSourced k h =
        let (s, got, same) = document_in-eq-ok class_name pr (λ raw. raw) _ p h in
        let (held, _) = follows.secret pr.namespace pr.name s got in
        record {
          source = secret pr.namespace pr.name pr.key;
          plain = plain;
          key = ap (λ (q : PolicyDocument). q.key) same ∙ policy_key-kind pr (codes "Secret") k;
          document = cc (same, held);
        }

  -- A policy that is found is a source's document, if its reference is plain.
  pub policy_for-IsSourced :
      (api : ApiServer) (class_name : Text) (ref : Option BucketPolicyRef)
      → IsFollowing api
      → ((pr : BucketPolicyRef) → ref ≡ some pr → HasNo b'/' pr.namespace × HasNo b'#' pr.name)
      → (p : PolicyDocument) → policy_for quote unmarshal load api class_name ref ≡ ok p
      → IsSourced p
  unfolding policy_for
  policy_for-IsSourced api class_name none follows plain p h =
      let same : no_policy ≡ p = cc in
      record { source = unset; plain = tt; key = cc; document = cc }
  policy_for-IsSourced api class_name (some pr) follows plain p h =
      elim (Bool-cases (trim_space pr.name == [])) [
        | inl unnamed ↦
            let same : no_policy ≡ p = cc (sym (if_true _ _ _ unnamed) ∙ h) in
            record { source = unset; plain = tt; key = cc; document = cc }
        | inr named ↦
            let h1 = sym (if_false _ _ _ named) ∙ h in
            elim (Bool-cases (trim_space pr.namespace == [] || trim_space pr.key == [])) [
              | inl bare ↦ let refusal = sym (if_true _ _ _ bare) ∙ h1 in absurd (cc refusal)
              | inr placed ↦
                  let h2 = sym (if_false _ _ _ placed) ∙ h1 in
                  elim (Bool-cases (policy_kind pr == codes "ConfigMap")) [
                    | inl k ↦
                        config_map-IsSourced api follows class_name pr (plain pr refl) p k
                          (sym (if_true _ _ _ k) ∙ h2)
                    | inr other ↦
                        let h3 = sym (if_false _ _ _ other) ∙ h2 in
                        elim (Bool-cases (policy_kind pr == codes "Secret")) [
                          | inl k ↦
                              secret-IsSourced api follows class_name pr (plain pr refl) p k
                                (sym (if_true _ _ _ k) ∙ h3)
                          | inr neither ↦
                              let refusal = sym (if_false _ _ _ neither) ∙ h3 in absurd (cc refusal)
                        ]
                  ]
            ]
      ]
