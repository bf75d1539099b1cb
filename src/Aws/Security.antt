-- ===== src/Aws/Security.antt =====
-- internal/backend/aws/provider.go: ConfigureBucketSecurity and what it reads and writes.
pub mod Defaults
use k8s_s3_bucket_operator.Prelude.{
  ◌++◌, Bool, true, false, ◌&&◌, ◌||◌, not, Option, none, some, List, [], ◌∷◌, is_nil, Result, ok,
  err, pure, fail, ◌>>=◌, ◌>>◌, if◌then◌else◌,
}
use k8s_s3_bucket_operator.Text.{Text, codes, ◌==◌, trim_space, to_upper}
use k8s_s3_bucket_operator.Errors.{GoError, plain, Go}
use k8s_s3_bucket_operator.Api.{Params, lookup, at_key}
use k8s_s3_bucket_operator.Aws.Json.{
  Json, text, array, object, Items, nil, cons, Fields, empty, with, merge_policy_documents,
}
use k8s_s3_bucket_operator.Aws.Clients.{AwsClients, Encryption, aes256, kms}

abbrev one_of : Text → List Text → Bool
one_of t [] = false
one_of t (s ∷ ss) = t == s || one_of t ss

-- strconv.ParseBool
unfoldable pub parse_bool : Text → Option Bool
parse_bool t =
    if one_of t
      (codes "1" ∷ codes "t" ∷ codes "T" ∷ codes "true" ∷ codes "TRUE" ∷ codes "True" ∷ [])
    then some true
    else if one_of t
        (codes "0" ∷ codes "f" ∷ codes "F" ∷ codes "false" ∷ codes "FALSE" ∷ codes "False" ∷ [])
    then some false
    else none

abbrev read_bool : (Text → Text) → Text → Bool → Text → Result GoError Bool
read_bool quote key default raw = if raw == [] then ok default else elim (parse_bool raw) [
  | some b ↦ ok b
  | none ↦ err (plain (codes "invalid bool for " ++ (quote key ++ (codes ": " ++ quote raw))))
]

-- `paramBool`. `quote` is the verb %q.
unfoldable pub param_bool : (Text → Text) → Params → Text → Bool → Result GoError Bool
param_bool quote parameters key default = elim (lookup key parameters) [
  | none ↦ ok default
  | some raw ↦ read_bool quote key default (trim_space raw)
]

-- `paramString`
unfoldable pub param_string : Params → Text → Text → Text
param_string parameters key default =
    let raw = trim_space (at_key parameters key) in if raw == [] then default else raw

-- The statement of `tlsOnlyBucketPolicy`.
unfoldable pub tls_only_statement : Text → Json
tls_only_statement bucket = object (
    with (codes "Sid") (text (codes "DenyInsecureTransport")) (
      with (codes "Effect") (text (codes "Deny")) (
        with (codes "Principal") (object (with (codes "AWS") (text (codes "*")) empty)) (
          with (codes "Action") (array (cons (text (codes "s3:*")) nil)) (
            with (codes "Resource")
              (array (
                cons (text (codes "arn:aws:s3:::" ++ bucket))
                  (cons (text (codes "arn:aws:s3:::" ++ (bucket ++ codes "/*"))) nil)))
              (with (codes "Condition")
                (object (
                  with (codes "Bool")
                    (object (with (codes "aws:SecureTransport") (text (codes "false")) empty))
                    empty))
                empty))))))

-- `tlsOnlyBucketPolicy`, or the document without statements that takes its place.
unfoldable pub guardrails : Bool → Text → Fields
guardrails tls_only bucket = with (codes "Version") (text (codes "2012-10-17")) (
    with (codes "Statement")
      (array (if tls_only then cons (tls_only_statement bucket) nil else nil)) empty)

abbrev lift : {W A : Type 0} → Result GoError A → Go W A
lift r w = (r, w)

abbrev when : {W : Type 0} → Bool → Go W (Unit {0}) → Go W (Unit {0})
when b m w = if b then m w else (ok tt, w)

-- json.Unmarshal and json.Marshal.
pub record Codec : Type 0 where
  pub unmarshal : Text → Result GoError Fields
  pub marshal : Fields → Result GoError Text

module _ {W : Type 0} (quote : Text → Text) (codec : Codec) (c : AwsClients W) where
  -- The switch on `defaultEnc`.
  unfoldable pub apply_encryption : Text → Text → Text → Go W (Unit {0})
  apply_encryption bucket mode key w =
      if mode == codes "NONE"
      then (ok tt, w)
      else if mode == codes "SSE-S3"
      then c.put_encryption bucket aes256 w
      else if mode == codes "SSE-KMS"
      then (if trim_space key == []
          then (
            err (
                plain
                  (codes "security.kmsKeyArn is required when security.defaultEncryption=SSE-KMS")),
            w,
          )
          else c.put_encryption bucket (kms key) w)
      else (
        err (
            plain (
              codes "unsupported security.defaultEncryption "
              ++ (quote mode ++ codes " (expected SSE-S3, SSE-KMS, none)"))),
        w,
      )

  -- The bucket policy at the end.
  unfoldable pub apply_policy : Text → Bool → Text → Go W (Unit {0})
  apply_policy bucket tls_only policy_json w =
      if not tls_only && is_nil policy_json
      then (ok tt, w)
      else (do
        document ←
            lift (merge_policy_documents codec.unmarshal (guardrails tls_only bucket) policy_json)
        raw ← lift (codec.marshal document)
        c.put_policy bucket raw)
          w

  -- `ConfigureBucketSecurity`, of a provider with the policy document `policy_json`.
  unfoldable pub configure_bucket_security : Text → Text → Params → Go W (Unit {0})
  configure_bucket_security policy_json bucket parameters = do
    block ← lift (param_bool quote parameters (codes "security.blockPublicAccess") true)
    no_acls ← lift (param_bool quote parameters (codes "security.disableAcls") true)
    tls_only ← lift (param_bool quote parameters (codes "security.tlsOnlyPolicy") true)
    let mode =
        to_upper (param_string parameters (codes "security.defaultEncryption") (codes "SSE-S3"))
    let key = param_string parameters (codes "security.kmsKeyArn") []
    when block (c.put_public_access_block bucket)
    when no_acls (c.put_ownership_controls bucket)
    apply_encryption bucket mode key
    apply_policy bucket tls_only policy_json
