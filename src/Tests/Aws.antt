-- ===== src/Tests/Aws.antt =====
-- The AWS provider at concrete requests, after internal/backend/aws/provider_test.go.
use k8s_s3_bucket_operator.Prelude.{
  true, none, List, [], ◌∷◌, ok, err, length, ◌≤◌, ◌≡◌, ◌≢◌, ◌⊎◌, refl, All, Result,
}
use k8s_s3_bucket_operator.Prelude.Int.{pos}
use k8s_s3_bucket_operator.Text.{Text, codes, ◌==◌, trim_space}
use k8s_s3_bucket_operator.Errors.{GoError, plain}
use k8s_s3_bucket_operator.Api.{LifecycleRule, lookup}
use k8s_s3_bucket_operator.Policy.{AccessPolicy}
use k8s_s3_bucket_operator.Provider.{outcome}
use k8s_s3_bucket_operator.Provisioning.{grant, account_id}
use k8s_s3_bucket_operator.Aws.Serving.{new_keys_serve}
use k8s_s3_bucket_operator.Aws.Json.{
  text, array, Items, nil, cons, Fields, empty, with, field, statements, merge_policies,
}
use k8s_s3_bucket_operator.Aws.Clients.{
  user, user_policy, make_key, AwsRule, Cloud, recorded, block_public, own, encrypt, aes256, policy,
  lifecycle, drop_user, drop_user_policy, drop_key, list_keys,
}
use k8s_s3_bucket_operator.Aws.UserName.{
  user_name_for_account, policy_name, is_user_byte, user_name_for_account_lem,
}
use k8s_s3_bucket_operator.Aws.Security.{
  Codec, guardrails, tls_only_statement, configure_bucket_security,
}
use k8s_s3_bucket_operator.Aws.Security.Defaults.{configure_bucket_security_defaults}
use k8s_s3_bucket_operator.Aws.{Settings, revoke_access, aws_provider, set_bucket_lifecycle}
use k8s_s3_bucket_operator.Aws.Grants.{grant_rejects_existing_keys, revoke_access_lem}
use k8s_s3_bucket_operator.Aws.Lifecycle.{AreSent, set_bucket_lifecycle_enables}
use k8s_s3_bucket_operator.Aws.Guardrail.{merge_policies_keeps_guardrail}
use k8s_s3_bucket_operator.Tests.Provisioning.{logs}

abbrev plainly : Text → Text
plainly t = t

abbrev codec : Codec
codec = record { unmarshal = λ t. err (plain (codes "no JSON")); marshal = λ doc. ok (codes "{}") }

abbrev written : AccessPolicy → Result GoError Text
written p = ok (codes "{}")

-- A user with two keys.
abbrev cloud : Cloud
cloud = record {
  refuses = λ calls c. none;
  new_key = λ calls. ok (codes "id", codes "made");
  keys = λ calls. ok (codes "first" ∷ codes "second" ∷ []);
}

abbrev settings : Settings
settings = record { endpoint = codes "https://s3.eu-west-1.amazonaws.com"; bucket_policy_json = [] }

grant_rejects_existing_keys_example :
    grant
      (aws_provider plainly codec written (recorded cloud) settings)
      logs
      (codes "logs")
      (codes "key")
      (codes "secret")
      []
    ≢ (
      ok (record {
        access_key_id = codes "key";
        access_secret_key = codes "secret";
        bucket_name = codes "logs";
        endpoint = [];
      }),
      [],
    )
unfolding trim_space codes
grant_rejects_existing_keys_example =
    grant_rejects_existing_keys plainly codec written (recorded cloud) settings logs (codes "logs")
      (codes "key") (codes "secret") [] []
      (record {
        access_key_id = codes "key";
        access_secret_key = codes "secret";
        bucket_name = codes "logs";
        endpoint = [];
      })
      (λ h. cc) (λ h. cc)

revoke_access_lem_example :
    let user = user_name_for_account (codes "team-logs") in
    revoke_access plainly codec written
      (recorded cloud)
      settings
      (codes "logs")
      (codes "team-logs")
      []
      []
    ≡ (
      ok tt,
      drop_user_policy user (policy_name (codes "logs") (codes "team-logs"))
          ∷ list_keys user
          ∷ drop_key user (codes "first")
          ∷ drop_key user (codes "second")
          ∷ drop_user user
          ∷ [],
    )
unfolding trim_space ◌==◌
revoke_access_lem_example =
    revoke_access_lem cloud plainly codec written settings (codes "logs") (codes "team-logs") [] []

user_name_for_account_lem_example :
    (6 ≤ length (user_name_for_account (codes "Team-Logs")))
    × (length (user_name_for_account (codes "Team-Logs")) ≤ 69)
    × All (λ c. is_user_byte c ≡ true) (user_name_for_account (codes "Team-Logs"))
user_name_for_account_lem_example = user_name_for_account_lem (codes "Team-Logs")

abbrev allowing : Items
allowing = cons (text (codes "allow")) nil

abbrev policy_of_user : Fields
policy_of_user = with (codes "Statement") (array allowing) empty

merge_policies_keeps_guardrail_example :
    (merged : Fields) × (merge_policies (guardrails true (codes "logs")) policy_of_user ≡ ok merged)
    × (statements merged ≡ ok (cons (tls_only_statement (codes "logs")) allowing))
    × ((k : Text)
        → (k ≡ codes "Statement")
          ⊎ (k ≡ codes "Version")
          ⊎ (field k merged ≡ field k policy_of_user))
unfolding statements field codes ◌==◌
merge_policies_keeps_guardrail_example =
    merge_policies_keeps_guardrail (codes "logs") policy_of_user allowing refl

abbrev disabled_rule : LifecycleRule
disabled_rule = record { id = codes "old"; status = codes "Disabled"; prefix = []; days = pos 30 }

set_bucket_lifecycle_enables_example :
    (sent : List AwsRule) × (set_bucket_lifecycle plainly codec written
        (recorded cloud)
        settings
        (codes "logs")
        (disabled_rule ∷ [])
        []
      ≡ (
        outcome (cloud.refuses [] (lifecycle (codes "logs") sent)),
        lifecycle (codes "logs") sent ∷ [],
      ))
    × AreSent (disabled_rule ∷ []) sent
set_bucket_lifecycle_enables_example =
    set_bucket_lifecycle_enables cloud plainly codec written settings (codes "logs")
      (disabled_rule ∷ []) [] (λ h. cc)

configure_bucket_security_defaults_example :
    configure_bucket_security plainly codec
      (recorded cloud)
      []
      (codes "logs")
      ((codes "region", codes "eu-west-1") ∷ [])
      []
    ≡ (
      ok tt,
      block_public (codes "logs")
          ∷ own (codes "logs")
          ∷ encrypt (codes "logs") aes256
          ∷ policy (codes "logs") (codes "{}")
          ∷ [],
    )
unfolding lookup codes ◌==◌
configure_bucket_security_defaults_example =
    configure_bucket_security_defaults cloud (λ calls c. refl) plainly codec (codes "logs")
      (codes "{}") ((codes "region", codes "eu-west-1") ∷ []) [] refl refl refl refl refl

new_keys_serve_example :
    let name = user_name_for_account (account_id logs) in
    grant
      (aws_provider plainly codec written (recorded cloud) settings)
      logs
      (codes "logs")
      []
      []
      []
    ≡ (
      ok (record {
        access_key_id = trim_space (codes "id");
        access_secret_key = trim_space (codes "made");
        bucket_name = codes "logs";
        endpoint = trim_space settings.endpoint;
      }),
      user name
          ∷ user_policy name (policy_name (codes "logs") (account_id logs)) (codes "{}")
          ∷ make_key name
          ∷ [],
    )
unfolding trim_space codes
new_keys_serve_example =
    new_keys_serve cloud (λ calls c. refl) (codes "id") (codes "made") (λ calls. refl) plainly codec
      written settings logs (codes "logs") [] [] (codes "{}") [] refl refl (λ h. cc) (λ h. cc)
      (λ h. cc)
