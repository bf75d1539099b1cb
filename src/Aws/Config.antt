-- ===== src/Aws/Config.antt =====
-- internal/backend/aws/config.go, and New and WithBucketPolicyDocument of internal/backend/aws/provider.go.
use k8s_s3_bucket_operator.Prelude.{
  ◌++◌, ◌||◌, none, some, List, [], ◌∷◌, is_nil, Result, ok, err, if◌then◌else◌,
}
use k8s_s3_bucket_operator.Text.{Text, codes, ◌==◌, trim_space}
use k8s_s3_bucket_operator.Errors.{GoError, plain, wrapped}
use k8s_s3_bucket_operator.Api.{Params, lookup}
use k8s_s3_bucket_operator.Aws.{Settings}

-- `Config`
pub record AwsConfig : Type 0 where
  pub region : Text
  pub access_key_id : Text
  pub secret_access_key : Text
  pub s3_endpoint : Text
  pub iam_endpoint : Text

-- This package's own `firstSecretString`.
unfoldable pub first_secret_string : Params → List Text → Text
first_secret_string secrets [] = []
first_secret_string secrets (k ∷ keys) =
    let rest = first_secret_string secrets keys in
    elim (lookup k secrets) [ none ↦ rest | some v ↦ if is_nil v then rest else trim_space v ]

-- `ConfigFromSecretData`
unfoldable pub config_from_secret_data : Params → Result GoError AwsConfig
config_from_secret_data secrets =
    let region = first_secret_string secrets (codes "AWS_REGION" ∷ codes "region" ∷ []) in
    let id = first_secret_string secrets (codes "AWS_ACCESS_KEY_ID" ∷ codes "accessKeyID" ∷ []) in
    let secret =
      first_secret_string secrets (
        codes "AWS_SECRET_ACCESS_KEY" ∷ codes "secretAccessKey" ∷ codes "secretAccessKeyID" ∷ []) in
    let s3 = first_secret_string secrets (codes "AWS_S3_ENDPOINT" ∷ codes "s3Endpoint" ∷ []) in
    let iam = first_secret_string secrets (codes "AWS_IAM_ENDPOINT" ∷ codes "iamEndpoint" ∷ []) in
    if is_nil secrets
    then err (plain (codes "secret data is empty"))
    else if region == [] || id == [] || secret == []
    then err
        (plain (codes "secret must define AWS_REGION, AWS_ACCESS_KEY_ID, AWS_SECRET_ACCESS_KEY"))
    else ok (record {
      region = region;
      access_key_id = id;
      secret_access_key = secret;
      s3_endpoint = s3;
      iam_endpoint = iam;
    })

-- `Provider`: its clients, and what it holds besides.
pub record AwsProvider (C : Type 0) : Type 0 where
  pub clients : C
  pub region : Text
  pub settings : Settings

abbrev pub endpoint_of : AwsConfig → Text
endpoint_of cfg =
    let endpoint = trim_space cfg.s3_endpoint in
    if endpoint == []
    then codes "https://s3." ++ (trim_space cfg.region ++ codes ".amazonaws.com")
    else endpoint

abbrev over_clients : {C : Type 0} → AwsConfig → Result GoError C → Result GoError (AwsProvider C)
over_clients cfg (err e) = err (wrapped (codes "load aws config: ") e [])
over_clients cfg (ok clients) = ok (record {
  clients = clients;
  region = trim_space cfg.region;
  settings = record { endpoint = endpoint_of cfg; bucket_policy_json = [] };
})

-- `New`, over the making of the two clients.
unfoldable pub new :
    {C : Type 0} → (AwsConfig → Result GoError C) → AwsConfig → Result GoError (AwsProvider C)
new load cfg = over_clients cfg (load cfg)

-- `WithBucketPolicyDocument`: no document is "".
unfoldable pub with_bucket_policy_document : {C : Type 0} → Text → AwsProvider C → AwsProvider C
with_bucket_policy_document raw p = record p {
  settings = record (p.settings) { bucket_policy_json = raw };
}
