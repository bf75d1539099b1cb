-- ===== src/Minio/Serving.antt =====
-- Provisioning over the MinIO client, with a server that accepts every call.
use k8s_s3_bucket_operator.Prelude.{
  ◌++◌, append_assoc, Bool, Option, none, [], ◌∷◌, Result, ok, ◌>>=◌, ◌≡◌, ◌≢◌, refl,
}
use k8s_s3_bucket_operator.Text.{Text, trim_space}
use k8s_s3_bucket_operator.Errors.{GoError}
use k8s_s3_bucket_operator.Api.{BucketClaim}
use k8s_s3_bucket_operator.Policy.{AccessPolicy}
use k8s_s3_bucket_operator.Provisioning.Completion.{answer, completed}
use k8s_s3_bucket_operator.Provisioning.{account_id, grant}
use k8s_s3_bucket_operator.Minio.{
  key_or, access_key_for_account, policy_name, policy_for, grant_access, minio_provider,
}
use k8s_s3_bucket_operator.Minio.Access.{Change, Changes, user, policy, attach, recorded}

module _ (endpoint : Text) (exists : Changes → Text → Result GoError Bool)
    (refuses : Changes → Change → Option GoError)
    (accepts : (changes : Changes) (c : Change) → refuses changes c ≡ none)
    (quote secret_for : Text → Text) (marshal : AccessPolicy → Result GoError Text) where
  granted :
      (bucket account access key secret document : Text) (before : Changes)
      → marshal (policy_for bucket access) ≡ ok document
      → let used = key_or (access_key_for_account account) key in
        let used_secret = key_or (secret_for account) secret in
        let name = policy_name bucket account in
        grant_access quote secret_for marshal
          (recorded endpoint exists refuses)
          bucket
          account
          access
          key
          secret
          before
        ≡ (
          ok (answer bucket used used_secret endpoint),
          before ++ user used used_secret ∷ policy name document ∷ attach name used ∷ [],
        )
  unfolding grant_access ◌>>=◌
  granted bucket account access key secret document before h =
      let used = key_or (access_key_for_account account) key in
      let used_secret = key_or (secret_for account) secret in
      let name = policy_name bucket account in
      let w1 = before ++ user used used_secret ∷ [] in
      let w2 = w1 ++ policy name document ∷ [] in
      rw
        (
          accepts before (user used used_secret),
          h,
          accepts w1 (policy name document),
          accepts w2 (attach name used),
        )
        (simp append_assoc)

  -- With MinIO accepting every call and the access policy encoded: granting access to a claim's
  -- bucket succeeds, if key, secret and endpoint are not blank, and returns the key and the secret in
  -- use, the bucket and the endpoint, trimmed.
  pub grant_serves :
      (claim : BucketClaim) (bucket key secret document : Text) (before : Changes)
      → let used = key_or (access_key_for_account (account_id claim)) key in
        let used_secret = key_or (secret_for (account_id claim)) secret in
        let name = policy_name bucket (account_id claim) in
        marshal (policy_for bucket claim.spec.access_type) ≡ ok document
        → trim_space used ≢ []
        → trim_space used_secret ≢ []
        → trim_space endpoint ≢ []
        → grant
            (minio_provider quote secret_for marshal (recorded endpoint exists refuses))
            claim
            bucket
            key
            secret
            before
          ≡ (
            ok (record {
              access_key_id = trim_space used;
              access_secret_key = trim_space used_secret;
              bucket_name = bucket;
              endpoint = trim_space endpoint;
            }),
            before ++ user used used_secret ∷ policy name document ∷ attach name used ∷ [],
          )
  unfolding grant minio_provider ◌>>=◌
  grant_serves claim bucket key secret document before h h1 h2 h3 =
      let used = key_or (access_key_for_account (account_id claim)) key in
      let used_secret = key_or (secret_for (account_id claim)) secret in
      rw
        (
          granted bucket (account_id claim) claim.spec.access_type key secret document before h,
          completed bucket used used_secret endpoint h1 h2 h3,
        )
        refl
