-- ===== src/Controller/Outcome.antt =====
-- When `Reconcile` of a `BucketClaim` reports that it is done.
pub mod Endings
pub mod Claims
use k8s_s3_bucket_operator.Prelude.{Bool, true, false, List, [], ◌∷◌, Result, ok, err, ◌⊎◌, ◌≡◌}
use k8s_s3_bucket_operator.Text.{Text, codes, ◌==◌}
use k8s_s3_bucket_operator.Errors.{GoError, is_not_found}
use k8s_s3_bucket_operator.Api.{BucketClaim, BucketClass}
use k8s_s3_bucket_operator.Controller.Kube.{Meta}
use k8s_s3_bucket_operator.Controller.Claim.{bucket_claim_finalizer, operator_driver, is_settled}
use k8s_s3_bucket_operator.Controller.Trace.{
  Event, claim_read, claim_write, status_write, class_read, resolved,
}
use k8s_s3_bucket_operator.Controller.Protocol.{IsHopeless, IsBoundWrite}

-- The claim is there, and bound for its generation.
abbrev pub IsSettledIn : Result GoError BucketClaim → Type 0
IsSettledIn r = (claim : BucketClaim) × (r ≡ ok claim) × (is_settled claim ≡ true)

-- The claim is not there.
abbrev pub IsAbsentIn : Result GoError BucketClaim → Type 0
IsAbsentIn r = (e : GoError) × (r ≡ err e) × (is_not_found e ≡ true)

module _ (meta : Meta) where
  -- The claim is being deleted, and others' finalizers are left at most.
  abbrev pub IsLeftIn : Result GoError BucketClaim → Type 0
  IsLeftIn r =
      (claim : BucketClaim) × (r ≡ ok claim)
      × (claim.being_deleted ≡ true)
      × (meta.contains_finalizer bucket_claim_finalizer claim.finalizers ≡ false)

  -- The removal of the finalizer was accepted.
  abbrev pub IsFreedBy : BucketClaim → Result GoError BucketClaim → Type 0
  IsFreedBy claim r =
      (old : List Text) × (claim.finalizers ≡ meta.remove_finalizer bucket_claim_finalizer old)
      × ((updated : BucketClaim) × (r ≡ ok updated))

  -- Nothing is left to do after this event: the claim is not there, left, freed or settled; its class
  -- is another driver's, or has no provider now or later; or its status of success was accepted.
  abbrev pub IsEnd : Event → Type 0
  IsEnd (claim_read nn r) = IsAbsentIn r ⊎ IsLeftIn r ⊎ IsSettledIn r
  IsEnd (claim_write claim r) = IsFreedBy claim r ⊎ IsSettledIn r
  IsEnd (class_read name r) =
      (class : BucketClass) × (r ≡ ok class) × ((class.driver_name == operator_driver) ≡ false)
  IsEnd (resolved class r) = IsHopeless (resolved class r)
  IsEnd (status_write claim r) = IsBoundWrite meta (status_write claim r)
  IsEnd _ = ⊥
