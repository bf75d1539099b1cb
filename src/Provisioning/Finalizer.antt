-- ===== src/Provisioning/Finalizer.antt =====
-- What a claim's finalizer asks of the provider, and which bucket it asks it for.
use k8s_s3_bucket_operator.Prelude.{
  ◌++◌, Bool, [], ◌∷◌, append_assoc, ok, ◌>>=◌, if◌then◌else◌, Bool-cases, inl, inr, ◌≡◌, ◌≢◌, refl,
  arith,
}
use k8s_s3_bucket_operator.Text.{Text, codes, ◌==◌, eq_iff, trim_space, to_lower, dashed}
use k8s_s3_bucket_operator.Text.Laws.{trim_space-nil}
use k8s_s3_bucket_operator.Api.{at_key, BucketClaim, BucketClass, delete_policy}
use k8s_s3_bucket_operator.Provider.{Call, revoke, delete, Calls, Backend, outcome, recording}
use k8s_s3_bucket_operator.Provisioning.{
  account_id, bucket_name_for, bound_bucket_name, revoke_access_and_maybe_delete_bucket,
}

module _ (claim : BucketClaim) where
  abbrev pub revoke_call : Text → Call
  revoke_call key = revoke (bound_bucket_name claim) (account_id claim) key

  abbrev pub delete_call : Call
  delete_call = delete (bound_bucket_name claim)

module _ (b : Backend) (hardens : Bool) (claim : BucketClaim) (class : BucketClass)
    (key : Text) where
  -- Under any policy but Delete the finalizer asks for the revocation alone and succeeds, whatever
  -- the back end answers. Under Delete it asks for the revocation and then, also if that failed, for
  -- the deletion of the same bucket, and it ends as the deletion does.
  pub revoke_access_and_maybe_delete_bucket_lem :
      (before : Calls)
      → revoke_access_and_maybe_delete_bucket (recording b hardens) claim class key before ≡ (
          if class.deletion_policy == delete_policy
          then (
            outcome (b.failure (before ++ revoke_call claim key ∷ []) (delete_call claim)),
            before ++ revoke_call claim key ∷ delete_call claim ∷ [],
          )
          else (ok tt, before ++ revoke_call claim key ∷ []))
  unfolding revoke_access_and_maybe_delete_bucket ◌>>=◌
  revoke_access_and_maybe_delete_bucket_lem before =
      elim (Bool-cases (class.deletion_policy == delete_policy)) [
        | inl deleted ↦ rw (deleted, append_assoc) refl
        | inr kept ↦ rw kept refl
      ]

-- The finalizer's bucket is the one that provisioning created, once its name is in the status.
pub bound_bucket_name_recorded :
    (claim : BucketClaim)
    → claim.status.bucket_name ≢ []
    → bound_bucket_name claim ≡ claim.status.bucket_name
unfolding bound_bucket_name
bound_bucket_name_recorded claim h = ground (arith, eq_iff claim.status.bucket_name [])

-- For a claim without a bucket name in its status and its spec, whose class names the bucket by the
-- parameter bucketName, other than the generated name in lower case, the finalizer takes another
-- bucket than provisioning does.
pub finalizer_misses_hinted_bucket :
    (claim : BucketClaim) (class : BucketClass)
    → claim.status.bucket_name ≡ []
    → claim.spec.bucket_name ≡ []
    → trim_space (at_key class.parameters (codes "bucketName")) ≢ []
    → to_lower (trim_space (at_key class.parameters (codes "bucketName")))
      ≢ dashed claim.namespace claim.name
    → bound_bucket_name claim ≢ bucket_name_for claim class
unfolding bound_bucket_name bucket_name_for
finalizer_misses_hinted_bucket claim class h1 h2 h3 h4 =
    let hint = trim_space (at_key class.parameters (codes "bucketName")) in
    ground (
      arith,
      eq_iff claim.status.bucket_name [],
      eq_iff claim.spec.bucket_name [],
      eq_iff hint [],
      trim_space-nil,
    )
