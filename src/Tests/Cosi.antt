-- ===== src/Tests/Cosi.antt =====
-- The COSI driver at concrete requests, after internal/cosi/mapper_test.go.
use k8s_s3_bucket_operator.Prelude.{
  true, false, none, some, [], ◌∷◌, ◌++◌, ok, err, ◌>>=◌, length, ◌≤◌, ◌≡◌, ◌≢◌, refl,
}
use k8s_s3_bucket_operator.Text.{
  Text, contains, codes, ◌==◌, trim_space, to_lower, dashed, cut, replace_byte,
}
use k8s_s3_bucket_operator.Errors.{
  plain, grpc_status, internal, revoke_access, is_grpc_status, is_transient, contains_any,
  transient_substrings, as_network, operation_text, message, as_provisioning,
}
use k8s_s3_bucket_operator.Api.{Params, at_key, insert, BucketClaim, empty_claim, read_only}
use k8s_s3_bucket_operator.Provider.{Backend, Calls, recording, create, grant, revoke, outcome}
use k8s_s3_bucket_operator.Provisioning.{
  labelled, bucket_name_for, region_of, account_id, complete, create_bucket_and_configure,
  make_bucket, configure, limit_size, expire_rules, replicate_to, provision_bucket,
  grant_bucket_access, revoke_bucket_access, grant as provisioning_grant,
}
use k8s_s3_bucket_operator.Provisioning.Extensions.{
  Parsers, given, apply_claim_parameter_extensions, with_access_type,
}
use k8s_s3_bucket_operator.Provisioning.Extensions.Laws.{
  Extended, apply_claim_parameter_extensions-Extended,
}
use k8s_s3_bucket_operator.Cosi.Mapper.{
  synthetic_claim_name, is_uid, class_name_from_bucket_name, synthetic_class_name, class_prefix,
  matches, uid_shape, is_hex, build_synthetic_claim, build_synthetic_claim_for_access,
}
use k8s_s3_bucket_operator.Cosi.Mapper.Laws.{
  length-synthetic_claim_name, class_name_from_bucket_name-append,
  class_name_from_bucket_name_sound,
}
use k8s_s3_bucket_operator.Cosi.Server.{
  RevokeRequest, grpc_err, CreateRequest, GrantRequest, Authentication, driver_create_bucket,
  driver_grant_bucket_access, driver_revoke_bucket_access, synthetic_class, parse_account, reported,
  check_authentication,
}
use k8s_s3_bucket_operator.Cosi.Server.Statuses.{handlers-IsAnswer, IsAnswer}
use k8s_s3_bucket_operator.Cosi.Server.Deletion.{
  Deletion, delete_bucket_run, driver_delete_bucket_lem,
}
use k8s_s3_bucket_operator.Cosi.Server.Names.{driver_create_bucket-bucket_id}
use k8s_s3_bucket_operator.Cosi.Server.Accounts.{
  parse_account_sound, parse_account-account_id, revoke_undoes_grant,
}
use k8s_s3_bucket_operator.Tests.Provisioning.{obliging, logs}

abbrev quoting : Text → Text
quoting t = t

-- Parsers that accept nothing.
abbrev strict : Parsers
strict = record {
  quantity = λ _. err (plain (codes "bad quantity"));
  rules = λ _. err (plain (codes "bad rules"));
  target = λ _. err (plain (codes "bad target"));
}

abbrev reading_only : Params
reading_only = (codes "accessType", codes " ReadOnly ") ∷ (codes "quota", codes " ") ∷ []

abbrev some_uid : Text
some_uid = codes "0a1b2c3d-0000-1111-2222-0123456789ab"

abbrev creating : CreateRequest
creating = record {
  name = codes " Gold-1 ";
  parameters = (codes "bucketName", codes "shared") ∷ [];
}

abbrev granting : GrantRequest
granting = record {
  bucket_id = codes "Gold-1";
  name = codes "app_one";
  authentication = Authentication.key;
  parameters = [];
}

apply_claim_parameter_extensions-Extended_example :
    Extended quoting strict logs reading_only (with_access_type read_only logs)
unfolding apply_claim_parameter_extensions given codes trim_space ◌==◌
apply_claim_parameter_extensions-Extended_example =
    apply_claim_parameter_extensions-Extended quoting strict logs reading_only
      (with_access_type read_only logs) refl

length-synthetic_claim_name_example : length (synthetic_claim_name (codes " My_Bucket ")) ≤ 63
length-synthetic_claim_name_example = length-synthetic_claim_name (codes " My_Bucket ")

class_name_from_bucket_name-append_example :
    class_name_from_bucket_name (codes "gold-" ++ some_uid) ≡ codes "gold-"
unfolding codes is_uid trim_space matches uid_shape is_hex
class_name_from_bucket_name-append_example =
    class_name_from_bucket_name-append (codes "gold-") some_uid (λ h. cc)
      (λ e. cc, (λ e. cc, (λ e. cc, (λ e. cc, (λ e. cc, tt))))) refl refl

class_name_from_bucket_name_sound_example :
    (uid : Text) × (trim_space (codes "gold-" ++ some_uid)
      ≡ class_name_from_bucket_name (codes "gold-" ++ some_uid) ++ uid)
    × (is_uid uid ≡ true)
unfolding codes is_uid trim_space class_name_from_bucket_name class_prefix matches uid_shape is_hex
class_name_from_bucket_name_sound_example =
    class_name_from_bucket_name_sound (codes "gold-" ++ some_uid) (λ h. cc)

-- Every call is refused.
abbrev down : Backend
down = record {
  failure = λ calls call. some (plain (codes "down"));
  credentials = λ calls call. err (plain (codes "down"));
}

abbrev revoking : RevokeRequest
revoking = record { bucket_id = codes "gold-1"; account_id = codes "cosi-app-one" }

handlers-IsAnswer_example :
    IsAnswer {A = Unit {0}}
      (err (grpc_status internal (codes "revoke_access failed for bucket gold-1: down")))
unfolding driver_revoke_bucket_access revoke_bucket_access parse_account codes trim_space to_lower
    cut grpc_err is_grpc_status is_transient contains_any contains transient_substrings as_network
    operation_text message as_provisioning dashed ◌==◌ ◌>>=◌
handlers-IsAnswer_example =
    (handlers-IsAnswer quoting strict [] (recording down true) none []).3 (some revoking)

driver_delete_bucket_lem_example :
    Deletion quoting strict [] obliging true
      (codes " Gold-1")
      []
      (some (λ _. ok (codes " Delete ")))
      (delete_bucket_run quoting strict [] obliging true
        (some (λ _. ok (codes " Delete ")))
        (codes " Gold-1")
        [])
unfolding trim_space codes
driver_delete_bucket_lem_example =
    driver_delete_bucket_lem quoting strict [] obliging true (codes " Gold-1") []
      (some (λ _. ok (codes " Delete "))) (λ h. cc)

driver_create_bucket-bucket_id_example : codes "gold-1" ≡ to_lower (trim_space creating.name)
unfolding driver_create_bucket provision_bucket create_bucket_and_configure make_bucket configure
    limit_size expire_rules replicate_to bucket_name_for region_of at_key trim_space to_lower dashed
    codes ◌==◌ ◌>>=◌ build_synthetic_claim apply_claim_parameter_extensions synthetic_class
    synthetic_class_name class_name_from_bucket_name class_prefix is_uid matches uid_shape is_hex
    insert
driver_create_bucket-bucket_id_example =
    driver_create_bucket-bucket_id quoting strict (codes "driver") (recording obliging false)
      creating [] (record { bucket_id = codes "gold-1"; region = codes "us-east-1" })
      (create (codes "gold-1") (codes "us-east-1") false ∷ []) refl

abbrev dashed_claim : BucketClaim
dashed_claim = record empty_claim { name = codes "a-b"; namespace = codes "cosi" }

parse_account_sound_example :
    (account_id dashed_claim ≡ codes "cosi-a-b")
    × (dashed_claim.namespace ≢ [])
    × (dashed_claim.name ≢ [])
unfolding parse_account codes dashed cut ◌==◌
parse_account_sound_example = parse_account_sound (codes "cosi-a-b") dashed_claim refl

parse_account-account_id_example : parse_account (account_id dashed_claim) ≡ ok dashed_claim
unfolding codes
parse_account-account_id_example =
    parse_account-account_id dashed_claim (λ e. cc, (λ e. cc, (λ e. cc, (λ e. cc, tt)))) (λ h. cc)
      (λ h. cc)

revoke_undoes_grant_example :
    let account = codes "cosi-app-one" in
    let bucket = codes "gold-1" in
    let calls : Calls = grant bucket account (codes "ReadWrite") [] [] ∷ [] in
    ((access key secret : Text) × (calls ≡ [] ++ grant bucket account access key secret ∷ []))
    × ((later : Calls)
        → driver_revoke_bucket_access quoting strict []
            (recording obliging true)
            (some (record { bucket_id = granting.bucket_id; account_id = account }))
            later
          ≡ (
            reported (
                labelled revoke_access bucket
                  (outcome (obliging.failure later (revoke bucket account [])))),
            later ++ revoke bucket account [] ∷ [],
          ))
unfolding driver_grant_bucket_access grant_bucket_access provisioning_grant complete account_id
    apply_claim_parameter_extensions given build_synthetic_claim_for_access build_synthetic_claim
    synthetic_claim_name synthetic_class_name class_name_from_bucket_name class_prefix is_uid
    matches uid_shape is_hex at_key trim_space to_lower dashed replace_byte codes ◌==◌ ◌>>=◌
    check_authentication
revoke_undoes_grant_example =
    revoke_undoes_grant quoting strict [] obliging true granting []
      (record {
        account_id = codes "cosi-app-one";
        access_key_id = codes "key";
        access_secret_key = codes "secret";
      })
      (grant (codes "gold-1") (codes "cosi-app-one") (codes "ReadWrite") [] [] ∷ []) refl refl
