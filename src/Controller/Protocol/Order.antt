-- ===== src/Controller/Protocol/Order.antt =====
-- Whole runs of `Reconcile` of a `BucketClaim`, and the order of their requests.
use k8s_s3_bucket_operator.Prelude.{
  Bool, true, false, List, [], ◌∷◌, Result, ok, err, if◌then◌else◌, inl, ◌≡◌, refl,
}
use k8s_s3_bucket_operator.Text.{Text}
use k8s_s3_bucket_operator.Errors.{GoError, is_not_found}
use k8s_s3_bucket_operator.Api.{ObjectReference, BucketClaim}
use k8s_s3_bucket_operator.Controller.Kube.{Meta}
use k8s_s3_bucket_operator.Controller.Claim.{bucket_claim_finalizer, protect, with_claim, reconcile}
use k8s_s3_bucket_operator.Controller.Trace.{
  claim_read, claim_write, Trace, Environment, cluster, resolving,
}
use k8s_s3_bucket_operator.Controller.Lawful.{
  Has, Keeps, IsLawful, still-IsLawful, if-IsLawful, event-IsLawful, bind-IsLawful,
  attempt-IsLawful,
}
use k8s_s3_bucket_operator.Controller.Protocol.{IsProtected, Needs}
use k8s_s3_bucket_operator.Controller.Protocol.Finalizing.{retire-IsLawful}
use k8s_s3_bucket_operator.Controller.Protocol.Reconciling.{advance-IsLawful}

module _ (quote : Text → Text) (meta : Meta) (env : Environment) (enable_cosi : Bool)
    (added : (f : Text) (l : List Text)
      → meta.contains_finalizer f (meta.add_finalizer f l) ≡ true) where
  -- A lawful run, after which the claim that it returns has its finalizer.
  abbrev Protects : Trace → Result GoError BucketClaim × Trace → Type 0
  Protects t run =
      IsLawful (Needs meta) t run
      × ((held : BucketClaim) → run.0 ≡ ok held → Has (IsProtected meta) run.1)

  protected_if_new :
      (held : Bool) (claim : BucketClaim) (t : Trace)
      → meta.contains_finalizer bucket_claim_finalizer claim.finalizers ≡ held
      → (meta.contains_finalizer bucket_claim_finalizer claim.finalizers ≡ true
          → Has (IsProtected meta) t)
      → Protects t (
          if held
          then (ok claim, t)
          else (cluster env).update_claim
              (record claim {
                finalizers = meta.add_finalizer bucket_claim_finalizer claim.finalizers;
              })
              t)
  protected_if_new true claim t h p = (still-IsLawful (ok claim) t, λ _ _. p h)
  protected_if_new false claim t h p =
      let new = record claim {
        finalizers = meta.add_finalizer bucket_claim_finalizer claim.finalizers;
      } in
      let r = env.updated t new in
      let has = added bucket_claim_finalizer claim.finalizers in
      (event-IsLawful r (claim_write new r) t (inl has), λ held e. inl (held, e, has))

  protect-Protects :
      (claim : BucketClaim) (t : Trace)
      → (meta.contains_finalizer bucket_claim_finalizer claim.finalizers ≡ true
          → Has (IsProtected meta) t)
      → Protects t (protect quote meta (cluster env) (resolving env) enable_cosi claim t)
  unfolding protect
  protect-Protects claim t p = protected_if_new _ claim t refl p

  with_claim-IsLawful :
      (nn : ObjectReference) (r : Result GoError BucketClaim) (t : Trace)
      → IsLawful (Needs meta) (claim_read nn r ∷ t) (
          with_claim quote meta
            (cluster env)
            (resolving env)
            enable_cosi
            nn
            r
            (claim_read nn r ∷ t))
  unfolding with_claim
  with_claim-IsLawful nn (err e) t =
      if-IsLawful (is_not_found e) _ _ _ (still-IsLawful _ _) (still-IsLawful _ _)
  with_claim-IsLawful nn (ok claim) t =
      let u : Trace = claim_read nn (ok claim) ∷ t in
      let read = λ (h : meta.contains_finalizer bucket_claim_finalizer claim.finalizers ≡ true).
        inl (claim, refl, h) in
      let (lawful, held) = protect-Protects claim u read in
      if-IsLawful claim.being_deleted _ _ u
        (retire-IsLawful quote meta env enable_cosi claim u read)
        (bind-IsLawful (protect quote meta (cluster env) (resolving env) enable_cosi claim) _ u
          lawful (λ c e. advance-IsLawful quote meta env enable_cosi nn c _ (held c e)))

  -- Each run of Reconcile for a claim keeps the order `Needs`, in whatever way the API server, the
  -- resolver and the provider answer, if adding a finalizer to a list gives a list that contains it:
  -- the provider is called, and access granted, only when the claim is in the cluster with its
  -- finalizer; the finalizer is taken away only after the release (the class is not found, or its
  -- provider cannot be made by an error that the finalizer gives up on, or a revocation for the
  -- claim's account and bucket was sent and the class does not ask for the deletion of the bucket or
  -- that bucket was deleted); the secret is filled only with credentials that were granted before; a
  -- status is written only after its credentials were granted and stored, or says that the bucket is
  -- not ready and comes right after the claim was read, not bound and not being deleted; and the COSI
  -- bucket is written only after a status of success was accepted.
  pub reconcile-Keeps :
      (nn : ObjectReference)
      → Keeps (Needs meta) (reconcile quote meta (cluster env) (resolving env) enable_cosi nn []).1
  unfolding reconcile
  reconcile-Keeps nn =
      let r = env.claim [] nn in
      let lawful =
        attempt-IsLawful ((cluster env).get_claim nn)
          (with_claim quote meta (cluster env) (resolving env) enable_cosi nn) []
          (event-IsLawful r (claim_read nn r) [] tt) (with_claim-IsLawful nn r []) in
      lawful.keeps tt
