-- ===== src/Controller/Claim/Failures.antt =====
-- internal/controller/bucketclaim_controller.go: what Reconcile makes of an error.
use k8s_s3_bucket_operator.Prelude.{◌++◌, Bool, ◌||◌, Option, none, some, []}
use k8s_s3_bucket_operator.Text.{Text, codes, contains}
use k8s_s3_bucket_operator.Errors.{
  Operation, create_bucket, configure_bucket, set_quota, set_lifecycle, grant_access, revoke_access,
  GoError, message, is_not_implemented,
}
use k8s_s3_bucket_operator.Controller.Notes.{
  Reason, create_bucket_failed, configure_bucket_failed, grant_access_failed,
}

-- The stage of a failure, as the messages name it, and its reason.

unfoldable pub stage_of : Option (Operation × Text × GoError) → Text
stage_of (some (create_bucket, bucket, e)) = codes "create_bucket"
stage_of (some (configure_bucket, bucket, e)) = codes "configure_bucket"
stage_of (some (set_quota, bucket, e)) = codes "set_quota"
stage_of (some (set_lifecycle, bucket, e)) = codes "set_lifecycle"
stage_of (some (grant_access, bucket, e)) = codes "grant_access"
stage_of (some (revoke_access, bucket, e)) = codes "provisioning"
stage_of none = codes "provisioning"

unfoldable pub reason_of : Option (Operation × Text × GoError) → Reason
reason_of (some (create_bucket, bucket, e)) = create_bucket_failed
reason_of (some (configure_bucket, bucket, e)) = configure_bucket_failed
reason_of (some (set_quota, bucket, e)) = configure_bucket_failed
reason_of (some (set_lifecycle, bucket, e)) = configure_bucket_failed
reason_of (some (grant_access, bucket, e)) = grant_access_failed
reason_of (some (revoke_access, bucket, e)) = configure_bucket_failed
reason_of none = configure_bucket_failed

abbrev bucket_of : Option (Operation × Text × GoError) → Text
bucket_of (some (op, bucket, e)) = bucket
bucket_of none = []

abbrev retrying : Text → Text → Text
retrying bucket text = bucket ++ (codes "; retrying: " ++ text)

-- The message of a transient failure. `quote` is the verb %q.
unfoldable pub transient_text : (Text → Text) → Option (Operation × Text × GoError) → Text → Text
transient_text quote (some (create_bucket, bucket, e)) text =
    codes "Transient MinIO error creating bucket " ++ retrying (quote bucket) text
transient_text quote (some (set_quota, bucket, e)) text =
    codes "Transient MinIO error setting quota for bucket " ++ retrying (quote bucket) text
transient_text quote (some (set_lifecycle, bucket, e)) text =
    codes "Transient MinIO error setting lifecycle for bucket " ++ retrying (quote bucket) text
transient_text quote (some (grant_access, bucket, e)) text =
    codes "Transient MinIO error granting access for bucket " ++ retrying (quote bucket) text
transient_text quote found text =
    codes "Transient MinIO error during "
    ++ (stage_of found ++ (codes "; bucket=" ++ retrying (quote (bucket_of found)) text))

-- Errors for which the finalizer gives up on the back end.
unfoldable pub is_hopeless : GoError → Bool
is_hopeless e =
    contains (message e) (codes "unsupported backend")
    || (contains (message e) (codes "awsCredentialSecretRef")
        || contains (message e) (codes "invalid AWS credential secret"))
    || is_not_implemented e
