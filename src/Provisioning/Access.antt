-- ===== src/Provisioning/Access.antt =====
-- What granting access returns, for whichever way provisioning ends.
use k8s_s3_bucket_operator.Prelude.{
  ◌++◌, Bool, [], ◌∷◌, Result, ok, err, continue, ◌>>=◌, ◌≡◌, ◌≢◌, refl, arith,
}
use k8s_s3_bucket_operator.Text.{Text, codes, eq_iff, trim_space}
use k8s_s3_bucket_operator.Text.Laws.{trim_space_idem}
use k8s_s3_bucket_operator.Errors.{Operation, grant_access, GoError, plain, provisioning}
use k8s_s3_bucket_operator.Api.{Params, at_key, BucketClaim, BucketClass}
use k8s_s3_bucket_operator.Provider.{Call, Calls, Backend, recording}
use k8s_s3_bucket_operator.Provisioning.{
  AccessCredentials, labelled, account_id, bucket_name_for, complete, grant,
  provision_bucket_and_grant_access,
}
use k8s_s3_bucket_operator.Provisioning.Plan.{plan, replica_calls}
use k8s_s3_bucket_operator.Provisioning.Outcome.{
  calls_of, Provisioned, create_bucket_and_configure-Provisioned,
}

abbrev IsTrimmed : Text → Type 0
IsTrimmed t = (t ≢ []) × (trim_space t ≡ t)

-- Credentials that a workload can use: nothing is blank, and nothing has spaces round it.
pub record IsUsable (bucket : Text) (creds : AccessCredentials) : Type 0 where
  pub key : IsTrimmed creds.access_key_id
  pub secret : IsTrimmed creds.access_secret_key
  pub endpoint : IsTrimmed creds.endpoint
  pub bucket_name : creds.bucket_name ≡ bucket

complete-IsUsable :
    (bucket : Text) (response : Params) (creds : AccessCredentials)
    → complete bucket response ≡ ok creds
    → IsUsable bucket creds
unfolding complete
complete-IsUsable bucket response creds h =
    let key = at_key response (codes "accessKeyID") in
    let secret = at_key response (codes "accessSecretKey") in
    let endpoint = at_key response (codes "endpoint") in
    ground (
      arith,
      eq_iff (trim_space key) [],
      eq_iff (trim_space secret) [],
      eq_iff (trim_space endpoint) [],
      trim_space_idem key,
      trim_space_idem secret,
      trim_space_idem endpoint,
    )

-- The calls that create and configure a claim's bucket, behind the calls before them.
abbrev pub provisioned_calls : Bool → BucketClaim → BucketClass → Calls → Calls
provisioned_calls hardens claim class before =
    (before ++ calls_of (plan hardens claim class))
    ++ replica_calls (bucket_name_for claim class) claim.spec.replication_target

module _ (claim : BucketClaim) (existing_key existing_secret : Text) where
  -- The call that grants access to a bucket.
  abbrev pub grant_call : Text → Call
  grant_call bucket =
      Call.grant bucket (account_id claim) claim.spec.access_type existing_key existing_secret

  abbrev pub Granted : Text → Calls → Result GoError AccessCredentials × Calls → Type 0
  Granted bucket before (ok creds, after) =
      IsUsable bucket creds × (after ≡ before ++ grant_call bucket ∷ [])
  Granted bucket before (err e, after) =
      (op : Operation) × (cause : GoError) × (e ≡ provisioning op bucket cause)

  module _ (b : Backend) (hardens : Bool) where
    complete-Granted :
        (bucket : Text) (before : Calls) (r : Result GoError AccessCredentials)
        → ((creds : AccessCredentials) → r ≡ ok creds → IsUsable bucket creds)
        → ((e : GoError)
            → r ≡ err e
            → (op : Operation) × (cause : GoError) × (e ≡ provisioning op bucket cause))
        → Granted bucket before (r, before ++ grant_call bucket ∷ [])
    complete-Granted bucket before (ok creds) good bad = (good creds refl, refl)
    complete-Granted bucket before (err e) good bad = bad e refl

    complete_refused :
        (bucket : Text) (response : Params) (e : GoError)
        → complete bucket response ≡ err e
        → (op : Operation) × (cause : GoError) × (e ≡ provisioning op bucket cause)
    unfolding complete
    complete_refused bucket response e h =
        (grant_access, plain (codes "minio returned incomplete credential data"), ground arith)

    pub grant-Granted :
        (bucket : Text) (before : Calls)
        → Granted bucket before
            (grant (recording b hardens) claim bucket existing_key existing_secret before)
    unfolding grant ◌>>=◌
    grant-Granted bucket before = answered (b.credentials before (grant_call bucket))
      where
        answered :
            (r : Result GoError Params)
            → Granted bucket before (
                continue
                  (λ creds w. (complete bucket creds, w))
                  (before ++ grant_call bucket ∷ [])
                  (labelled grant_access bucket r))
        answered (ok response) =
            complete-Granted bucket before (complete bucket response)
              (complete-IsUsable bucket response) (complete_refused bucket response)
        answered (err cause) = (grant_access, cause, refl)

    module _ (class : BucketClass) (before : Calls) where
      Granted-after :
          (p : Result GoError Text × Calls)
          → Provisioned b hardens claim class before p
          → let (r, w) = p in
            Granted (bucket_name_for claim class) (provisioned_calls hardens claim class before) (
              continue
                (λ bucket. grant (recording b hardens) claim bucket existing_key existing_secret)
                w
                r)
      Granted-after (ok name, after) (same, made) =
          rw (same, made)
            (grant-Granted (bucket_name_for claim class)
              (provisioned_calls hardens claim class before))
      Granted-after (err e, after) stopped =
          (stopped.failed.operation, stopped.cause, stopped.reported)

      -- Provisioning that succeeds has made every call of the plan, the call for the replication if
      -- the claim has a target, and last the call that grants access; its credentials are those of
      -- the claim's bucket, and key, secret and endpoint are trimmed and not empty. Provisioning that
      -- fails returns a `ProvisioningError` for the claim's bucket.
      pub provision_bucket_and_grant_access-Granted :
          Granted (bucket_name_for claim class) (provisioned_calls hardens claim class before) (
            provision_bucket_and_grant_access
              (recording b hardens)
              claim
              class
              existing_key
              existing_secret
              before)
      provision_bucket_and_grant_access-Granted =
          unfold provision_bucket_and_grant_access ◌>>=◌ in
          Granted-after _ (create_bucket_and_configure-Provisioned b hardens claim class before)
