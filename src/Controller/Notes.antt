-- ===== src/Controller/Notes.antt =====
-- internal/controller/bucketclaim_controller.go: the status of a claim that is not bound.
use k8s_s3_bucket_operator.Prelude.{
  ◌++◌, Bool, false, ◌&&◌, [], ◌∷◌, take, length, leb, Result, ok, err, ◌>>=◌, if◌then◌else◌,
}
use k8s_s3_bucket_operator.Text.{Text, codes, ◌==◌}
use k8s_s3_bucket_operator.Errors.{GoError, Go}
use k8s_s3_bucket_operator.Api.{ObjectReference, BucketClaim}
use k8s_s3_bucket_operator.Controller.Kube.{Cluster, Meta}

-- The reasons of the condition.
pub data Reason : Type 0 where
  provisioning bucket_provisioned bucket_class_lookup_failed unsupported_driver : Reason
  create_bucket_failed configure_bucket_failed grant_access_failed reconcile_secret_failed : Reason
  minio_credential_secret_invalid aws_credential_secret_invalid unsupported_backend : Reason

unfoldable pub reason_text : Reason → Text
reason_text provisioning = codes "Provisioning"
reason_text bucket_provisioned = codes "BucketProvisioned"
reason_text bucket_class_lookup_failed = codes "BucketClassLookupFailed"
reason_text unsupported_driver = codes "UnsupportedDriver"
reason_text create_bucket_failed = codes "CreateBucketFailed"
reason_text configure_bucket_failed = codes "ConfigureBucketFailed"
reason_text grant_access_failed = codes "GrantAccessFailed"
reason_text reconcile_secret_failed = codes "ReconcileSecretFailed"
reason_text minio_credential_secret_invalid = codes "MinioCredentialSecretInvalid"
reason_text aws_credential_secret_invalid = codes "AwsCredentialSecretInvalid"
reason_text unsupported_backend = codes "UnsupportedBackend"

abbrev pub ready_type : Text
ready_type = codes "Ready"

-- `trimConditionMessage`, where a byte is a rune; the ellipsis is its three bytes.
unfoldable pub trim_condition_message : Text → Text
trim_condition_message msg =
    if leb (length msg) 1024 then msg else take 1024 msg ++ (226 ∷ 128 ∷ 166 ∷ [])

module _ (meta : Meta) where
  -- Whether a claim was bound and still reads so.
  unfoldable pub is_bound : BucketClaim → Bool
  is_bound claim =
      meta.is_status_condition_true ready_type claim.status.conditions
      && claim.status.phase == codes "Bound"

  -- The status that the two notes set.
  unfoldable pub not_ready : Text → Reason → Text → BucketClaim → BucketClaim
  not_ready phase reason text claim = record claim {
    status = record (claim.status) {
      phase = phase;
      bucket_ready = false;
      conditions =
          meta.set_status_condition
            (record {
              kind = ready_type;
              status = false;
              observed_generation = claim.generation;
              reason = reason_text reason;
              note = trim_condition_message text;
            })
            claim.status.conditions;
    };
  }

abbrev pub forgotten : {A : Type 0} → Result GoError A → Result GoError (Unit {0})
forgotten (ok a) = ok tt
forgotten (err e) = err e

module _ {W : Type 0} (meta : Meta) (kube : Cluster W) where
  abbrev pub finish : {A : Type 0} → Go W A → Go W (Unit {0})
  finish m w = let (r, w') = m w in (forgotten r, w')

  unfoldable pub merge_read : (BucketClaim → BucketClaim) → BucketClaim → Go W (Unit {0})
  merge_read mutate claim w =
      if claim.being_deleted
      then (ok tt, w)
      else if is_bound meta claim
      then (ok tt, w)
      else finish (kube.update_claim_status (mutate claim)) w

  -- `mergeClaimStatus`
  unfoldable pub merge_claim_status :
      ObjectReference → (BucketClaim → BucketClaim) → Go W (Unit {0})
  merge_claim_status nn mutate = do claim ← kube.get_claim nn; merge_read mutate claim

  -- A failure is logged and no more.
  abbrev pub noting : Go W (Unit {0}) → Go W (Unit {0})
  noting m w = let (_, w') = m w in (ok tt, w')

  -- `noteClaimProvisioning`
  unfoldable pub note_claim_provisioning : ObjectReference → Text → Go W (Unit {0})
  note_claim_provisioning nn text =
      noting (merge_claim_status nn (not_ready meta (codes "Pending") provisioning text))

  -- `noteClaimNotReady`
  unfoldable pub note_claim_not_ready : ObjectReference → Reason → Text → Go W (Unit {0})
  note_claim_not_ready nn reason text =
      noting (merge_claim_status nn (not_ready meta (codes "Failed") reason text))
