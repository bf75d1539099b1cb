-- ===== src/Controller/Claim.antt =====
-- internal/controller/bucketclaim_controller.go: reconciling a `BucketClaim`. Metrics and logging are
-- left out.
mod Status
mod Failures
unfoldable pub use Status.*
unfoldable pub use Failures.*
use k8s_s3_bucket_operator.Prelude.{
  ◌++◌, Bool, true, false, ◌&&◌, ◌||◌, not, Option, none, some, List, [], ◌∷◌, is_nil, nat_eq,
  Result, ok, err, pure, fail, attempt, ◌>>=◌, ◌>>◌, if◌then◌else◌,
}
use k8s_s3_bucket_operator.Text.{Text, codes, ◌==◌, trim_space, equal_fold, contains}
use k8s_s3_bucket_operator.Errors.{
  Operation, create_bucket, configure_bucket, set_quota, set_lifecycle, grant_access, revoke_access,
  GoError, wrapped, Go, message, as_provisioning, is_not_found, is_not_implemented, is_transient,
}
use k8s_s3_bucket_operator.Api.{
  Params, at_key, insert, Condition, ObjectReference, BucketClaim, BucketClass,
}
use k8s_s3_bucket_operator.Provider.{Provider}
use k8s_s3_bucket_operator.Provisioning.{
  AccessCredentials, provision_bucket_and_grant_access, revoke_access_and_maybe_delete_bucket,
}
use k8s_s3_bucket_operator.Controller.Kube.{
  Requeue, done, after, SecretObject, CosiBucket, Cluster, Meta,
}
use k8s_s3_bucket_operator.Controller.Notes.{
  Reason, bucket_provisioned, bucket_class_lookup_failed, unsupported_driver, create_bucket_failed,
  configure_bucket_failed, grant_access_failed, reconcile_secret_failed,
  minio_credential_secret_invalid, aws_credential_secret_invalid, unsupported_backend, reason_text,
  ready_type, is_bound, note_claim_provisioning, note_claim_not_ready,
}

-- `resolve` is ProviderForClass of the resolver.
module _ {W : Type 0} (quote : Text → Text) (meta : Meta) (kube : Cluster W)
    (resolve : BucketClass → Go W (Provider W)) (enable_cosi : Bool) where
  unfoldable pub publish_bucket :
      Text → BucketClaim → BucketClass → Result GoError CosiBucket → Go W (Unit {0})
  publish_bucket name claim class (ok bucket) w =
      kube.update_bucket_status (record bucket { status = (cosi_bucket name claim class).status }) w
  publish_bucket name claim class (err e) w =
      if is_not_found e then kube.create_bucket (cosi_bucket name claim class) w else (err e, w)

  -- `ensureCosiBucket`
  unfoldable pub ensure_cosi_bucket : BucketClaim → BucketClass → Go W (Unit {0})
  ensure_cosi_bucket claim class w =
      let name = trim_space claim.status.bucket_name in
      if name == []
      then (ok tt, w)
      else (do found ← attempt (kube.get_bucket name); publish_bucket name claim class found) w

  abbrev pub finalizer_key : BucketClaim → Option ObjectReference → Go W Text
  finalizer_key claim none w = (ok [], w)
  finalizer_key claim (some secret) w =
      let (found, w') = kube.get_secret secret w in (ok (key_in (codes "accessKeyID") found), w')

  unfoldable pub finalize_with :
      BucketClaim → BucketClass → Result GoError (Provider W) → Go W (Unit {0})
  finalize_with claim class (err e) w =
      if is_hopeless e
      then (ok tt, w)
      else (err (wrapped (codes "storage provider for finalization: ") e []), w)
  finalize_with claim class (ok mc) w =
      (do
        key ← finalizer_key claim claim.status.secret_reference
        revoke_access_and_maybe_delete_bucket mc claim class key)
        w

  unfoldable pub finalize_class : BucketClaim → Result GoError BucketClass → Go W (Unit {0})
  finalize_class claim (err e) w = if is_not_found e then (ok tt, w) else (err e, w)
  finalize_class claim (ok class) w =
      (do found ← attempt (resolve class); finalize_with claim class found) w

  -- `finalizeBucketClaim`
  unfoldable pub finalize_bucket_claim : BucketClaim → Go W (Unit {0})
  finalize_bucket_claim claim = do
    found ← attempt (kube.get_class claim.spec.bucket_class_name)
    finalize_class claim found

  -- A claim that is being deleted.
  unfoldable pub retire : BucketClaim → Go W Requeue
  retire claim w =
      if meta.contains_finalizer bucket_claim_finalizer claim.finalizers
      then (do
        finalize_bucket_claim claim
        updated ← kube.update_claim (record claim {
          finalizers = meta.remove_finalizer bucket_claim_finalizer claim.finalizers;
        })
        pure done)
          w
      else (ok done, w)

  -- The claim with the finalizer, in the cluster too.
  unfoldable pub protect : BucketClaim → Go W BucketClaim
  protect claim w =
      if meta.contains_finalizer bucket_claim_finalizer claim.finalizers
      then (ok claim, w)
      else kube.update_claim
          (record claim { finalizers = meta.add_finalizer bucket_claim_finalizer claim.finalizers })
          w

  -- Provisioning failed.
  unfoldable pub provisioning_failed : ObjectReference → GoError → Go W Requeue
  provisioning_failed nn e w =
      let found = as_provisioning e in
      if is_transient e
      then (do
        note_claim_provisioning meta kube nn (transient_text quote found (message e))
        pure (after 15))
          w
      else (do note_claim_not_ready meta kube nn (reason_of found) (message e); fail e) w

  abbrev pub publish_if : Bool → BucketClaim → BucketClass → Go W (Unit {0})
  publish_if true claim class w = ensure_cosi_bucket claim class w
  publish_if false claim class w = (ok tt, w)

  unfoldable pub bind_claim :
      ObjectReference
      → BucketClaim
      → BucketClass
      → AccessCredentials
      → Result GoError (Unit {0})
      → Go W Requeue
  bind_claim nn claim class creds (err e) w =
      (do note_claim_not_ready meta kube nn reconcile_secret_failed (message e); fail e) w
  bind_claim nn claim class creds (ok stored) w =
      (do
        current ← kube.get_claim nn
        bound ←
            kube.update_claim_status (bound_claim quote meta (credentials_name claim) creds current)
        publish_if enable_cosi bound class
        pure done)
        w

  unfoldable pub with_credentials :
      ObjectReference → BucketClaim → BucketClass → Result GoError AccessCredentials → Go W Requeue
  with_credentials nn claim class (err e) w = provisioning_failed nn e w
  with_credentials nn claim class (ok creds) w =
      (do
        stored ←
            attempt
              (kube.create_or_update_secret (credentials_name claim) (fill_secret meta claim creds))
        bind_claim nn claim class creds stored)
        w

  abbrev pub note_start : Bool → ObjectReference → Go W (Unit {0})
  note_start true nn w = (ok tt, w)
  note_start false nn w =
      note_claim_provisioning meta kube nn (codes "Provisioning bucket and access credentials") w

  -- No provider could be made.
  unfoldable pub unresolved : ObjectReference → BucketClass → GoError → Go W Requeue
  unresolved nn class e w =
      if is_not_found e
      then (do
        note_claim_provisioning meta kube nn (
            (if equal_fold (trim_space class.backend) (codes "AWS")
              then codes "AWS"
              else codes "MinIO")
            ++ (codes " credentials secret not found for BucketClass "
                ++ (quote class.name ++ codes "; retrying")))
        pure (after 10))
          w
      else if contains (message e) (codes "unsupported backend")
      then (do note_claim_not_ready meta kube nn unsupported_backend (message e); pure done) w
      else if contains (message e) (codes "awsCredentialSecretRef")
          || contains (message e) (codes "invalid AWS credential secret")
      then (do
        note_claim_not_ready meta kube nn aws_credential_secret_invalid (message e)
        pure done)
          w
      else if is_not_implemented e
      then (do note_claim_not_ready meta kube nn unsupported_backend (message e); pure done) w
      else (do
        note_claim_not_ready meta kube nn minio_credential_secret_invalid (message e)
        fail e)
          w

  unfoldable pub with_provider :
      ObjectReference → BucketClaim → BucketClass → Result GoError (Provider W) → Go W Requeue
  with_provider nn claim class (err e) w = unresolved nn class e w
  with_provider nn claim class (ok mc) w =
      (do
        note_start (is_bound meta claim) nn
        existing ← attempt (kube.get_secret (credentials_name claim))
        creds ← attempt (
            provision_bucket_and_grant_access mc claim class (key_in (codes "accessKeyID") existing)
              (key_in (codes "accessSecretKey") existing))
        with_credentials nn claim class creds)
        w

  unfoldable pub with_class :
      ObjectReference → BucketClaim → Result GoError BucketClass → Go W Requeue
  with_class nn claim (err e) w =
      if is_not_found e
      then (do
        note_claim_provisioning meta kube nn (
            codes "BucketClass "
            ++ (quote claim.spec.bucket_class_name ++ codes " not found; retrying"))
        pure (after 10))
          w
      else (do note_claim_not_ready meta kube nn bucket_class_lookup_failed (message e); fail e) w
  with_class nn claim (ok class) w =
      if not (class.driver_name == operator_driver)
      then (do
        note_claim_not_ready meta kube nn unsupported_driver (
            codes "BucketClass driverName "
            ++ (quote class.driver_name
                ++ codes " is not handled by this operator (expected k8s-s3-bucket-operator)"))
        pure done)
          w
      else (do found ← attempt (resolve class); with_provider nn claim class found) w

  -- A claim that has its finalizer.
  unfoldable pub advance : ObjectReference → BucketClaim → Go W Requeue
  advance nn claim w =
      if is_settled claim
      then (ok done, w)
      else (do
        found ← attempt (kube.get_class claim.spec.bucket_class_name)
        with_class nn claim found)
          w

  unfoldable pub with_claim : ObjectReference → Result GoError BucketClaim → Go W Requeue
  with_claim nn (err e) w = if is_not_found e then (ok done, w) else (err e, w)
  with_claim nn (ok claim) w =
      if claim.being_deleted then retire claim w else (do held ← protect claim; advance nn held) w

  -- `Reconcile`
  unfoldable pub reconcile : ObjectReference → Go W Requeue
  reconcile nn = do found ← attempt (kube.get_claim nn); with_claim nn found
