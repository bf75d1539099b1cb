-- ===== src/Controller/Protocol.antt =====
-- The order of what the reconciler of `BucketClaim`s asks for: what every request needs to have
-- happened before it, in the same run.
pub mod Noting
pub mod Provisioning
pub mod Finalizing
pub mod Binding
pub mod Reconciling
pub mod Order
use k8s_s3_bucket_operator.Prelude.{
  Bool, true, false, List, [], ◌∷◌, Result, ok, err, ◌⊎◌, ◌≡◌, ◌≢◌,
}
use k8s_s3_bucket_operator.Text.{Text, codes}
use k8s_s3_bucket_operator.Errors.{GoError, is_not_found}
use k8s_s3_bucket_operator.Api.{Params, BucketClaim, BucketClass, delete_policy}
use k8s_s3_bucket_operator.Provider.{
  Call, create, harden, quota, lifecycle, replication, grant, revoke, delete,
}
use k8s_s3_bucket_operator.Provisioning.{account_id, bound_bucket_name, AccessCredentials, complete}
use k8s_s3_bucket_operator.Controller.Kube.{Meta, SecretObject}
use k8s_s3_bucket_operator.Controller.Notes.{is_bound}
use k8s_s3_bucket_operator.Controller.Claim.{bucket_claim_finalizer, is_hopeless, fill_secret}
use k8s_s3_bucket_operator.Controller.Trace.{
  Event, claim_read, claim_write, status_write, class_read, secret_written, bucket_made,
  bucket_status, resolved, called, granted, Trace,
}
use k8s_s3_bucket_operator.Controller.Lawful.{Has}

-- The class of the claim is not there.
abbrev pub IsGone : Event → Type 0
IsGone (class_read name r) = (e : GoError) × (r ≡ err e) × (is_not_found e ≡ true)
IsGone _ = ⊥

-- The class of the claim does not ask for the deletion of the bucket.
abbrev pub IsRetained : Event → Type 0
IsRetained (class_read name r) =
    (class : BucketClass) × (r ≡ ok class) × (class.deletion_policy ≢ delete_policy)
IsRetained _ = ⊥

-- There is no provider for the class, and a retry would not help.
abbrev pub IsHopeless : Event → Type 0
IsHopeless (resolved class r) = (e : GoError) × (r ≡ err e) × (is_hopeless e ≡ true)
IsHopeless _ = ⊥

-- The provider was asked to revoke the access of the claim's account to its bucket.
abbrev pub IsRevoked : BucketClaim → Event → Type 0
IsRevoked claim (called (revoke bucket account key) r) =
    (bucket ≡ bound_bucket_name claim) × (account ≡ account_id claim)
IsRevoked claim _ = ⊥

-- The provider has deleted the claim's bucket.
abbrev pub IsDeleted : BucketClaim → Event → Type 0
IsDeleted claim (called (delete bucket) r) = (bucket ≡ bound_bucket_name claim) × (r ≡ ok tt)
IsDeleted claim _ = ⊥

-- What the claim holds outside of the cluster is given back, as far as its class asks for it.
abbrev pub IsReleased : BucketClaim → Trace → Type 0
IsReleased claim t =
    Has IsGone t
    ⊎ Has IsHopeless t
    ⊎ (Has (IsRevoked claim) t × Has IsRetained t)
    ⊎ (Has (IsRevoked claim) t × Has (IsDeleted claim) t)

-- The provider has granted access with these credentials.
abbrev pub IsGrantOf : AccessCredentials → Event → Type 0
IsGrantOf creds (granted bucket account access key secret r) =
    (params : Params) × (r ≡ ok params) × (complete bucket params ≡ ok creds)
IsGrantOf creds _ = ⊥

module _ (meta : Meta) where
  -- The cluster has the claim with its finalizer.
  abbrev pub IsProtected : Event → Type 0
  IsProtected (claim_read nn r) =
      (claim : BucketClaim) × (r ≡ ok claim)
      × (meta.contains_finalizer bucket_claim_finalizer claim.finalizers ≡ true)
  IsProtected (claim_write claim r) =
      (held : BucketClaim) × (r ≡ ok held)
      × (meta.contains_finalizer bucket_claim_finalizer claim.finalizers ≡ true)
  IsProtected _ = ⊥

  -- The credentials are in the claim's secret.
  abbrev pub IsStored : AccessCredentials → Event → Type 0
  IsStored creds (secret_written ref secret r) =
      (claim : BucketClaim) × (old : SecretObject) × (secret ≡ fill_secret meta claim creds old)
      × (r ≡ ok tt)
  IsStored creds _ = ⊥

  -- A status of success, after the bucket's credentials were granted and stored.
  pub record IsEarned (claim : BucketClaim) (t : Trace) : Type 0 where
    pub creds : AccessCredentials
    pub phase : claim.status.phase ≡ codes "Bound"
    pub bucket : claim.status.bucket_name ≡ creds.bucket_name
    pub endpoint : claim.status.endpoint ≡ creds.endpoint
    pub was_granted : Has (IsGrantOf creds) t
    pub was_stored : Has (IsStored creds) t

  -- The last that happened is that the claim was read, not bound and not being deleted.
  abbrev pub IsOpen : Trace → Type 0
  IsOpen (claim_read nn r ∷ t) =
      (claim : BucketClaim) × (r ≡ ok claim)
      × (claim.being_deleted ≡ false)
      × (is_bound meta claim ≡ false)
  IsOpen _ = ⊥

  -- A status of failure or of waiting.
  abbrev pub IsNote : BucketClaim → Trace → Type 0
  IsNote claim t = (claim.status.bucket_ready ≡ false) × IsOpen t

  abbrev pub IsBoundWrite : Event → Type 0
  IsBoundWrite (status_write claim r) =
      (claim.status.phase ≡ codes "Bound") × ((held : BucketClaim) × (r ≡ ok held))
  IsBoundWrite _ = ⊥

  -- A secret that was filled with granted credentials.
  abbrev pub IsFilled : Result GoError SecretObject → Trace → Type 0
  IsFilled secret t =
      (claim : BucketClaim) × (creds : AccessCredentials) × (old : SecretObject) × (secret
        ≡ fill_secret meta claim creds old)
      × Has (IsGrantOf creds) t

  -- The provider is called for a claim with a finalizer only; the finalizer is taken away after the
  -- release only; a secret has credentials that were granted; a status is written after it was
  -- earned, or is a note on an open claim; COSI's bucket is written after the claim was bound.
  abbrev pub Needs : Event → Trace → Type 0
  Needs (called c r) t = Has IsProtected t
  Needs (granted bucket account access key secret r) t = Has IsProtected t
  Needs (claim_write claim r) t =
      (meta.contains_finalizer bucket_claim_finalizer claim.finalizers ≡ true) ⊎ IsReleased claim t
  Needs (status_write claim r) t = IsEarned claim t ⊎ IsNote claim t
  Needs (secret_written ref secret r) t = IsFilled secret t
  Needs (bucket_made bucket r) t = Has IsBoundWrite t
  Needs (bucket_status bucket r) t = Has IsBoundWrite t
  Needs _ t = Unit
