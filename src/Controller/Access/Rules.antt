-- ===== src/Controller/Access/Rules.antt =====
-- What every request of the reconciler of `BucketAccess`es needs to have happened before it, in the
-- same run.
use k8s_s3_bucket_operator.Prelude.{true, some, Result, ok, err, ◌⊎◌, ◌≡◌}
use k8s_s3_bucket_operator.Text.{Text}
use k8s_s3_bucket_operator.Errors.{GoError, is_not_found}
use k8s_s3_bucket_operator.Api.{Params, lookup, ObjectReference}
use k8s_s3_bucket_operator.Provider.{revoke}
use k8s_s3_bucket_operator.Controller.Kube.{BucketAccess, Meta}
use k8s_s3_bucket_operator.Controller.Trace.{
  Event, claim_read, class_read, secret_read, secret_made, secret_changed, secret_dropped,
  access_read, access_write, access_status, resolved, called, granted, Trace,
}
use k8s_s3_bucket_operator.Controller.Lawful.{Has}
use k8s_s3_bucket_operator.Controller.Access.{
  bucket_access_finalizer, BucketInfo, bucket_info, document_key, access_account,
}

-- The claim of the access is not there.
abbrev pub IsUnclaimed : Event → Type 0
IsUnclaimed (claim_read ref r) = (e : GoError) × (r ≡ err e) × (is_not_found e ≡ true)
IsUnclaimed _ = ⊥

module _ (marshal : BucketInfo → Result GoError Text) (meta : Meta) (nn : ObjectReference) where
  -- The cluster has the access with its finalizer.
  abbrev pub IsHeld : Event → Type 0
  IsHeld (access_read ref r) =
      (ba : BucketAccess) × (r ≡ ok ba)
      × (meta.contains_finalizer bucket_access_finalizer ba.finalizers ≡ true)
  IsHeld (access_write ba r) =
      (held : BucketAccess) × (r ≡ ok held)
      × (meta.contains_finalizer bucket_access_finalizer ba.finalizers ≡ true)
  IsHeld _ = ⊥

  -- The provider has revoked the account's access.
  abbrev pub IsWithdrawn : Event → Type 0
  IsWithdrawn (called (revoke bucket account key) r) = (account ≡ access_account nn) × (r ≡ ok tt)
  IsWithdrawn _ = ⊥

  -- The provider has granted access to the account, and the document is made of the answer.
  abbrev pub IsGrantIn : Text → Event → Type 0
  IsGrantIn raw (granted bucket account access key secret r) =
      (account ≡ access_account nn)
      × ((params : Params) × (r ≡ ok params) × (marshal (bucket_info params) ≡ ok raw))
  IsGrantIn raw _ = ⊥

  -- Entries with a document of granted credentials.
  abbrev pub IsDocument : Params → Trace → Type 0
  IsDocument entries t =
      (raw : Text) × (lookup document_key entries ≡ some raw) × Has (IsGrantIn raw) t

  -- The secret with the document was accepted.
  abbrev pub IsSaved : Event → Type 0
  IsSaved (secret_made ref entries r) = r ≡ ok tt
  IsSaved (secret_changed ref entries r) = r ≡ ok tt
  IsSaved _ = ⊥

  -- The provider is asked to grant and to revoke only, for an access with a finalizer; the finalizer
  -- is taken away, and the secret dropped, after the revocation; the finalizer is also taken away if
  -- the claim is not there; a secret has a document of granted credentials; the status comes after
  -- the secret. Claims and COSI buckets are never written.
  abbrev pub AccessNeeds : Event → Trace → Type 0
  AccessNeeds (called (revoke bucket account key) r) t =
      (account ≡ access_account nn) × Has IsHeld t
  AccessNeeds (granted bucket account access key secret r) t =
      (account ≡ access_account nn) × Has IsHeld t
  AccessNeeds (access_write ba r) t =
      (meta.contains_finalizer bucket_access_finalizer ba.finalizers ≡ true)
      ⊎ Has IsUnclaimed t
      ⊎ Has IsWithdrawn t
  AccessNeeds (secret_dropped ref r) t = Has IsWithdrawn t
  AccessNeeds (secret_made ref entries r) t = IsDocument entries t
  AccessNeeds (secret_changed ref entries r) t = IsDocument entries t
  AccessNeeds (access_status ba r) t =
      (ba.access_granted ≡ true) × (ba.account_id ≡ access_account nn) × Has IsSaved t
  AccessNeeds (access_read ref r) t = Unit
  AccessNeeds (claim_read ref r) t = Unit
  AccessNeeds (class_read name r) t = Unit
  AccessNeeds (secret_read ref r) t = Unit
  AccessNeeds (resolved class r) t = Unit
  AccessNeeds _ t = ⊥
