-- ===== src/Aws/Security/Defaults.antt =====
-- The hardening that a bucket gets where the class says nothing of it.
use k8s_s3_bucket_operator.Prelude.{
  ◌++◌, append_assoc, Bool, true, none, [], ◌∷◌, ok, ◌>>=◌, ◌≡◌, refl, arith,
}
use k8s_s3_bucket_operator.Text.{Text, codes, ◌==◌, trim_space, to_upper}
use k8s_s3_bucket_operator.Api.{Params, lookup, at_key}
use k8s_s3_bucket_operator.Aws.Json.{merge_policy_documents}
use k8s_s3_bucket_operator.Aws.Clients.{
  AwsCall, AwsCalls, block_public, own, encrypt, policy, aes256, Cloud, recorded,
}
use k8s_s3_bucket_operator.Aws.Security.{
  Codec, param_bool, param_string, guardrails, apply_encryption, apply_policy,
  configure_bucket_security,
}

defaulted :
    (quote : Text → Text) (parameters : Params) (key : Text) (default : Bool)
    → lookup key parameters ≡ none
    → param_bool quote parameters key default ≡ ok default
unfolding param_bool
defaulted quote parameters key default h = ground arith

default_mode :
    (parameters : Params)
    → lookup (codes "security.defaultEncryption") parameters ≡ none
    → to_upper (param_string parameters (codes "security.defaultEncryption") (codes "SSE-S3"))
      ≡ codes "SSE-S3"
unfolding param_string at_key trim_space to_upper codes ◌==◌
default_mode parameters h = rw h refl

module _ (cloud : Cloud) (accepts : (calls : AwsCalls) (c : AwsCall) → cloud.refuses calls c ≡ none)
    (quote : Text → Text) (codec : Codec) (bucket raw : Text) where
  encrypted :
      (key : Text) (calls : AwsCalls)
      → apply_encryption quote codec (recorded cloud) bucket (codes "SSE-S3") key calls
        ≡ (ok tt, calls ++ encrypt bucket aes256 ∷ [])
  unfolding apply_encryption codes ◌==◌
  encrypted key calls = rw (accepts calls (encrypt bucket aes256)) refl

  guarded :
      (calls : AwsCalls)
      → codec.marshal (guardrails true bucket) ≡ ok raw
      → apply_policy quote codec (recorded cloud) bucket true [] calls
        ≡ (ok tt, calls ++ policy bucket raw ∷ [])
  unfolding apply_policy merge_policy_documents ◌>>=◌
  guarded calls h = rw (h, accepts calls (policy bucket raw)) refl

  -- Where the class has none of the four parameters for it and no policy document of its own, and AWS accepts the calls, hardening succeeds: it blocks public access, disables ACLs,
  -- encrypts with SSE-S3 and denies transport without TLS, in this order, and does nothing else.
  pub configure_bucket_security_defaults :
      (parameters : Params) (calls : AwsCalls)
      → lookup (codes "security.blockPublicAccess") parameters ≡ none
      → lookup (codes "security.disableAcls") parameters ≡ none
      → lookup (codes "security.tlsOnlyPolicy") parameters ≡ none
      → lookup (codes "security.defaultEncryption") parameters ≡ none
      → codec.marshal (guardrails true bucket) ≡ ok raw
      → configure_bucket_security quote codec (recorded cloud) [] bucket parameters calls ≡ (
        ok tt,
        calls ++ block_public bucket ∷ own bucket ∷ encrypt bucket aes256 ∷ policy bucket raw ∷ [],
      )
  unfolding configure_bucket_security ◌>>=◌
  configure_bucket_security_defaults parameters calls h1 h2 h3 h4 h5 =
      let key = param_string parameters (codes "security.kmsKeyArn") [] in
      let blocked = calls ++ block_public bucket ∷ [] in
      let owned = blocked ++ own bucket ∷ [] in
      let sealed = owned ++ encrypt bucket aes256 ∷ [] in
      rw
        (
          defaulted quote parameters _ true h1,
          defaulted quote parameters _ true h2,
          defaulted quote parameters _ true h3,
          default_mode parameters h4,
          accepts calls (block_public bucket),
          accepts blocked (own bucket),
          encrypted key owned,
          guarded sealed h5,
        )
        (simp append_assoc)
