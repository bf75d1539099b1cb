-- ===== src/Tests/Provisioning.antt =====
-- Provisioning at concrete claims and classes, after internal/provisioning/provisioning_test.go.
use k8s_s3_bucket_operator.Prelude.{
  true, false, Option, none, some, [], ◌∷◌, ok, err, ◌≡◌, ◌≢◌, refl, ◌>>=◌,
}
use k8s_s3_bucket_operator.Prelude.Int.{pos}
use k8s_s3_bucket_operator.Text.{codes, ◌==◌, trim_space, to_lower, dashed}
use k8s_s3_bucket_operator.Errors.{GoError, plain, provisioning, set_lifecycle}
use k8s_s3_bucket_operator.Api.{
  Params, at_key, LifecycleRule, BucketClaim, BucketClass, empty_spec, empty_claim, empty_class,
  delete_policy, read_only,
}
use k8s_s3_bucket_operator.Provider.{Calls, Backend, recording, create, quota, lifecycle}
use k8s_s3_bucket_operator.Provisioning.{
  bucket_name_for, bound_bucket_name, region_of, make_bucket, configure, limit_size, expire_rules,
  replicate_to, create_bucket_and_configure, provision_bucket_and_grant_access,
  revoke_access_and_maybe_delete_bucket,
}
use k8s_s3_bucket_operator.Provisioning.Outcome.{
  Provisioned, create_bucket_and_configure-Provisioned,
}
use k8s_s3_bucket_operator.Provisioning.Access.{
  Granted, provisioned_calls, provision_bucket_and_grant_access-Granted,
}
use k8s_s3_bucket_operator.Provisioning.Finalizer.{
  revoke_call, delete_call, revoke_access_and_maybe_delete_bucket_lem,
  finalizer_misses_hinted_bucket,
}

abbrev response : Params
response =
    (codes "accessKeyID", codes " key ")
    ∷ (codes "accessSecretKey", codes "secret")
    ∷ (codes "endpoint", codes "http://minio:9000")
    ∷ []

-- Every call is answered well.
abbrev pub obliging : Backend
obliging = record { failure = λ _ _. none; credentials = λ _ _. ok response }

-- Whatever is asked of it, the third call is refused.
abbrev third : Calls → Option GoError
third (_ ∷ _ ∷ []) = some (plain (codes "boom"))
third _ = none

abbrev pub refusing : Backend
refusing = record { failure = λ calls _. third calls; credentials = λ _ _. ok response }

abbrev keep_week : LifecycleRule
keep_week = record { id = codes "week"; status = codes "Enabled"; prefix = []; days = pos 7 }

abbrev pub logs : BucketClaim
logs = record empty_claim {
  name = codes "logs";
  namespace = codes "team";
  spec = record empty_spec {
    bucket_name = codes " Logs-Archive ";
    quota = some (record { as_int64 = some (pos 1024) });
    access_type = read_only;
    lifecycle_rules = keep_week ∷ [];
  };
}

abbrev deleting : BucketClass
deleting = record empty_class { deletion_policy = delete_policy }

abbrev hinted : BucketClass
hinted = record empty_class {
  deletion_policy = delete_policy;
  parameters = (codes "bucketName", codes "Shared") ∷ [];
}

abbrev nameless : BucketClaim
nameless = record empty_claim { name = codes "logs"; namespace = codes "team" }

run_refused : create_bucket_and_configure (recording refusing false) logs deleting [] ≡ (
  err (provisioning set_lifecycle (codes "logs-archive") (plain (codes "boom"))),
  create (codes "logs-archive") (codes "us-east-1") false
      ∷ quota (codes "logs-archive") (pos 1024)
      ∷ lifecycle (codes "logs-archive") (keep_week ∷ [])
      ∷ [],
)
unfolding create_bucket_and_configure make_bucket configure limit_size expire_rules replicate_to
    bucket_name_for region_of at_key trim_space to_lower dashed codes ◌==◌ ◌>>=◌
run_refused = refl

create_bucket_and_configure-Provisioned_example :
    Provisioned refusing false logs deleting []
      (create_bucket_and_configure (recording refusing false) logs deleting [])
create_bucket_and_configure-Provisioned_example =
    create_bucket_and_configure-Provisioned refusing false logs deleting []

provision_bucket_and_grant_access-Granted_example :
    Granted logs [] []
      (bucket_name_for logs deleting)
      (provisioned_calls true logs deleting [])
      (provision_bucket_and_grant_access (recording obliging true) logs deleting [] [] [])
provision_bucket_and_grant_access-Granted_example =
    provision_bucket_and_grant_access-Granted logs [] [] obliging true deleting []

revoke_access_and_maybe_delete_bucket_lem_example :
    revoke_access_and_maybe_delete_bucket (recording refusing true) logs deleting [] []
    ≡ (ok tt, revoke_call logs [] ∷ delete_call logs ∷ [])
unfolding ◌==◌ codes
revoke_access_and_maybe_delete_bucket_lem_example =
    revoke_access_and_maybe_delete_bucket_lem refusing true logs deleting [] []

finalizer_misses_hinted_bucket_example :
    bound_bucket_name nameless ≢ bucket_name_for nameless hinted
unfolding at_key trim_space to_lower dashed codes ◌==◌
finalizer_misses_hinted_bucket_example =
    finalizer_misses_hinted_bucket nameless hinted refl refl (λ h. cc) (λ h. cc)
