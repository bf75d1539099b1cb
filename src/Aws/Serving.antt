-- ===== src/Aws/Serving.antt =====
-- Provisioning over the AWS provider with new keys, where AWS accepts every call.
use k8s_s3_bucket_operator.Prelude.{
  ◌++◌, append_assoc, none, [], ◌∷◌, Result, ok, ◌>>=◌, ◌≡◌, ◌≢◌, refl, ◌∙◌, ap, sym,
}
use k8s_s3_bucket_operator.Text.{Text, ◌==◌, trim_space, equal_fold}
use k8s_s3_bucket_operator.Text.Laws.{trim_space_idem}
use k8s_s3_bucket_operator.Errors.{GoError}
use k8s_s3_bucket_operator.Api.{BucketClaim, read_only}
use k8s_s3_bucket_operator.Policy.{AccessPolicy, bucket_policy_document}
use k8s_s3_bucket_operator.Provisioning.Completion.{completed}
use k8s_s3_bucket_operator.Provisioning.{complete, account_id, grant}
use k8s_s3_bucket_operator.Aws.Clients.{
  AwsCall, AwsCalls, Cloud, recorded, user, user_policy, make_key,
}
use k8s_s3_bucket_operator.Aws.UserName.{user_name_for_account, policy_name}
use k8s_s3_bucket_operator.Aws.Security.{Codec}
use k8s_s3_bucket_operator.Aws.{
  Settings, response, make_key as new_key_for, keys_for, grant_access, aws_provider,
}

trimmed :
    (bucket key secret endpoint : Text)
    → trim_space key ≢ []
    → trim_space secret ≢ []
    → trim_space endpoint ≢ []
    → complete bucket (response bucket key secret (trim_space endpoint))
      ≡ ok (record {
        access_key_id = trim_space key;
        access_secret_key = trim_space secret;
        bucket_name = bucket;
        endpoint = trim_space endpoint;
      })
trimmed bucket key secret endpoint h1 h2 h3 =
    completed bucket key secret (trim_space endpoint) h1 h2
      (λ e. h3 (sym (trim_space_idem endpoint) ∙ e))
    ∙ ap
        (λ (t : Text). ok (record {
          access_key_id = trim_space key;
          access_secret_key = trim_space secret;
          bucket_name = bucket;
          endpoint = t;
        }))
        (trim_space_idem endpoint)

module _ (cloud : Cloud) (accepts : (calls : AwsCalls) (c : AwsCall) → cloud.refuses calls c ≡ none)
    (id made : Text) (makes : (calls : AwsCalls) → cloud.new_key calls ≡ ok (id, made))
    (quote : Text → Text) (codec : Codec) (marshal : AccessPolicy → Result GoError Text)
    (settings : Settings) where
  fresh_keys :
      (bucket name key secret : Text) (calls : AwsCalls)
      → trim_space key ≡ []
      → keys_for quote codec marshal (recorded cloud) settings bucket name key secret calls
        ≡ (ok (response bucket id made (trim_space settings.endpoint)), calls ++ make_key name ∷ [])
  unfolding keys_for new_key_for ◌>>=◌ ◌==◌
  fresh_keys bucket name key secret calls h = rw (h, makes calls) refl

  granted :
      (bucket account access key secret document : Text) (calls : AwsCalls)
      → trim_space key ≡ []
      → marshal (bucket_policy_document bucket (equal_fold (trim_space access) read_only))
        ≡ ok document
      → let name = user_name_for_account account in
        grant_access quote codec marshal
          (recorded cloud)
          settings
          bucket
          account
          access
          key
          secret
          calls
        ≡ (
          ok (response bucket id made (trim_space settings.endpoint)),
          calls
              ++ user name
                ∷ user_policy name (policy_name bucket account) document
                ∷ make_key name
                ∷ [],
        )
  unfolding grant_access ◌>>=◌
  granted bucket account access key secret document calls blank h =
      let name = user_name_for_account account in
      let c1 = calls ++ user name ∷ [] in
      let c2 = c1 ++ user_policy name (policy_name bucket account) document ∷ [] in
      rw
        (
          accepts calls (user name),
          h,
          accepts c1 (user_policy name (policy_name bucket account) document),
          fresh_keys bucket name key secret c2 blank,
        )
        (simp append_assoc)

  -- With AWS accepting every call and making keys that are not blank, the access policy encoded and an
  -- endpoint that is not blank: granting access to a claim's bucket without an access key of the
  -- caller's succeeds, and returns the new key and secret, the bucket and the endpoint, trimmed.
  pub new_keys_serve :
      (claim : BucketClaim) (bucket key secret document : Text) (calls : AwsCalls)
      → trim_space key ≡ []
      → marshal
          (bucket_policy_document bucket (equal_fold (trim_space claim.spec.access_type) read_only))
        ≡ ok document
      → trim_space id ≢ []
      → trim_space made ≢ []
      → trim_space settings.endpoint ≢ []
      → let name = user_name_for_account (account_id claim) in
        grant
          (aws_provider quote codec marshal (recorded cloud) settings)
          claim
          bucket
          key
          secret
          calls
        ≡ (
          ok (record {
            access_key_id = trim_space id;
            access_secret_key = trim_space made;
            bucket_name = bucket;
            endpoint = trim_space settings.endpoint;
          }),
          calls
              ++ user name
                ∷ user_policy name (policy_name bucket (account_id claim)) document
                ∷ make_key name
                ∷ [],
        )
  unfolding grant aws_provider ◌>>=◌
  new_keys_serve claim bucket key secret document calls blank h h1 h2 h3 =
      rw
        (
          granted bucket (account_id claim) claim.spec.access_type key secret document calls blank
              h,
          trimmed bucket id made settings.endpoint h1 h2 h3,
        )
        refl
