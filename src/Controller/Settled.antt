-- ===== src/Controller/Settled.antt =====
-- `Reconcile` of a claim that is bound for its generation.
use k8s_s3_bucket_operator.Prelude.{
  ℕ, Bool, true, false, some, List, nat_eq, Result, ok, ◌>>=◌, ◌≡◌, refl, ap, ◌∙◌, if_true,
  if_false, continue, arith,
}
use k8s_s3_bucket_operator.Text.{Text, codes, eq_refl}
use k8s_s3_bucket_operator.Errors.{GoError, Go}
use k8s_s3_bucket_operator.Api.{Condition, ObjectReference, BucketClaim, BucketClass}
use k8s_s3_bucket_operator.Provider.{Provider}
use k8s_s3_bucket_operator.Provisioning.{AccessCredentials}
use k8s_s3_bucket_operator.Controller.Kube.{Cluster, Meta, done}
use k8s_s3_bucket_operator.Controller.Notes.{ready_type}
use k8s_s3_bucket_operator.Controller.Claim.{
  bucket_claim_finalizer, ready_condition, is_settled, ready_now, bound_claim, protect, advance,
  with_claim, reconcile,
}

nat_eq_refl : (n : ℕ) → nat_eq n n ≡ true
nat_eq_refl n = ground arith

bound_settled :
    (quote : Text → Text) (meta : Meta)
    (set : (c : Condition) (l : List Condition)
      → c.kind ≡ ready_type
      → ready_condition (meta.set_status_condition c l) ≡ some c)
    (secret : ObjectReference) (creds : AccessCredentials) (claim : BucketClaim)
    → is_settled (bound_claim quote meta secret creds claim) ≡ true
unfolding is_settled bound_claim
bound_settled quote meta set secret creds claim =
    rw
      (
        set (ready_now quote claim creds) claim.status.conditions refl,
        eq_refl (codes "Bound"),
        nat_eq_refl claim.generation,
      )
      refl

module _ {W : Type 0} (quote : Text → Text) (meta : Meta) (kube : Cluster W)
    (resolve : BucketClass → Go W (Provider W)) (enable_cosi : Bool) where
  protect_held :
      (claim : BucketClaim) (w : W)
      → meta.contains_finalizer bucket_claim_finalizer claim.finalizers ≡ true
      → protect quote meta kube resolve enable_cosi claim w ≡ (ok claim, w)
  unfolding protect
  protect_held claim w held = if_true _ _ _ held

  advance_settled :
      (nn : ObjectReference) (claim : BucketClaim) (w : W)
      → is_settled claim ≡ true
      → advance quote meta kube resolve enable_cosi nn claim w ≡ (ok done, w)
  unfolding advance
  advance_settled nn claim w settled = if_true _ _ _ settled

  with_claim_settled :
      (nn : ObjectReference) (claim : BucketClaim) (w : W)
      → claim.being_deleted ≡ false
      → meta.contains_finalizer bucket_claim_finalizer claim.finalizers ≡ true
      → is_settled claim ≡ true
      → with_claim quote meta kube resolve enable_cosi nn (ok claim) w ≡ (ok done, w)
  unfolding with_claim ◌>>=◌
  with_claim_settled nn claim w alive held settled =
      if_false _ _ _ alive
      ∙ ap
          (λ (x : Result GoError BucketClaim × W).
            continue (advance quote meta kube resolve enable_cosi nn) x.1 x.0)
          (protect_held claim w held)
      ∙ advance_settled nn claim w settled

  settled_still :
      (nn : ObjectReference) (claim : BucketClaim) (w w' : W)
      → kube.get_claim nn w ≡ (ok claim, w')
      → claim.being_deleted ≡ false
      → meta.contains_finalizer bucket_claim_finalizer claim.finalizers ≡ true
      → is_settled claim ≡ true
      → reconcile quote meta kube resolve enable_cosi nn w ≡ (ok done, w')
  unfolding reconcile ◌>>=◌
  settled_still nn claim w w' read alive held settled =
      ap
        (λ (x : Result GoError BucketClaim × W).
          with_claim quote meta kube resolve enable_cosi nn x.0 x.1)
        read
      ∙ with_claim_settled nn claim w' alive held settled

  -- The run after a success does nothing: if the API server answers with the claim as the success
  -- wrote it, not being deleted and with its finalizer, then Reconcile reads it, asks for nothing
  -- else and is done. Setting the condition Ready makes it the first of its type, as documented.
  pub reconcile_again_still :
      (set : (c : Condition) (l : List Condition)
        → c.kind ≡ ready_type
        → ready_condition (meta.set_status_condition c l) ≡ some c)
      (nn secret : ObjectReference) (creds : AccessCredentials) (claim : BucketClaim) (w w' : W)
      → claim.being_deleted ≡ false
      → meta.contains_finalizer bucket_claim_finalizer claim.finalizers ≡ true
      → kube.get_claim nn w ≡ (ok (bound_claim quote meta secret creds claim), w')
      → reconcile quote meta kube resolve enable_cosi nn w ≡ (ok done, w')
  unfolding bound_claim
  reconcile_again_still set nn secret creds claim w w' alive held read =
      settled_still nn (bound_claim quote meta secret creds claim) w w' read alive held
        (bound_settled quote meta set secret creds claim)
