-- ===== src/Controller/Outcome/Claims.antt =====
-- What `Reconcile` reports, and the events of its run.
use k8s_s3_bucket_operator.Prelude.{
  Bool, true, false, [], ◌∷◌, Result, ok, err, pure, ◌>>=◌, ◌>>◌, if◌then◌else◌, inl, inr, ◌≡◌,
  refl,
}
use k8s_s3_bucket_operator.Text.{Text}
use k8s_s3_bucket_operator.Errors.{GoError, is_not_found}
use k8s_s3_bucket_operator.Api.{ObjectReference, BucketClaim}
use k8s_s3_bucket_operator.Controller.Kube.{Meta, done}
use k8s_s3_bucket_operator.Controller.Claim.{
  bucket_claim_finalizer, is_settled, finalize_bucket_claim, retire, protect, advance, with_claim,
  reconcile,
}
use k8s_s3_bucket_operator.Controller.Trace.{claim_read, Trace, Environment, cluster, resolving}
use k8s_s3_bucket_operator.Controller.Lawful.{Has}
use k8s_s3_bucket_operator.Controller.Outcome.{IsEnd}
use k8s_s3_bucket_operator.Controller.Reports.{Reports, if-Reports, bind-Reports, attempt-Reports}
use k8s_s3_bucket_operator.Controller.Outcome.Endings.{with_class-Reports}

module _ (quote : Text → Text) (meta : Meta) (env : Environment) (enable_cosi : Bool) where
  retired-Reports :
      (claim : BucketClaim) (t : Trace)
      → Reports (IsEnd meta) (
          (finalize_bucket_claim quote meta (cluster env) (resolving env) enable_cosi claim
              >> ((cluster env).update_claim (record claim {
                finalizers = meta.remove_finalizer bucket_claim_finalizer claim.finalizers;
              })
                  >>= λ updated. pure done))
            t)
  retired-Reports claim t =
      let gone = record claim {
        finalizers = meta.remove_finalizer bucket_claim_finalizer claim.finalizers;
      } in
      bind-Reports (IsEnd meta)
        (finalize_bucket_claim quote meta (cluster env) (resolving env) enable_cosi claim) _ t
        (λ _ _.
          bind-Reports (IsEnd meta) ((cluster env).update_claim gone) (λ _. pure done) _
            (λ updated accepted _. inl (inl (claim.finalizers, refl, (updated, accepted)))))

  retire-Reports :
      (nn : ObjectReference) (claim : BucketClaim) (t : Trace)
      → claim.being_deleted ≡ true
      → Reports (IsEnd meta) (
          retire quote meta
            (cluster env)
            (resolving env)
            enable_cosi
            claim
            (claim_read nn (ok claim) ∷ t))
  unfolding retire
  retire-Reports nn claim t dying =
      if-Reports (IsEnd meta) (meta.contains_finalizer bucket_claim_finalizer claim.finalizers) _ _
        (λ _. retired-Reports claim _) (λ free _. inl (inr (inl (claim, refl, dying, free))))

  advance-Reports :
      (nn : ObjectReference) (claim : BucketClaim) (t : Trace)
      → (is_settled claim ≡ true → Has (IsEnd meta) t)
      → Reports
          (IsEnd meta)
          (advance quote meta (cluster env) (resolving env) enable_cosi nn claim t)
  unfolding advance
  advance-Reports nn claim t settled =
      let name = claim.spec.bucket_class_name in
      if-Reports (IsEnd meta) (is_settled claim) _ _ (λ h _. settled h)
        (λ _.
          attempt-Reports (IsEnd meta) ((cluster env).get_class name) _ t
            (with_class-Reports quote meta env enable_cosi nn claim name (env.class t name) t))

  -- The claim that a run returns was read or written by its last event.
  held_if_new :
      (has : Bool) (nn : ObjectReference) (claim held : BucketClaim) (t : Trace)
      → let new = record claim {
        finalizers = meta.add_finalizer bucket_claim_finalizer claim.finalizers;
      } in
        let u : Trace = claim_read nn (ok claim) ∷ t in
        let run = if has then (ok claim, u) else (cluster env).update_claim new u in
        run.0 ≡ ok held → is_settled held ≡ true → Has (IsEnd meta) run.1
  held_if_new true nn claim held t e settled = inl (inr (inr (held, e, settled)))
  held_if_new false nn claim held t e settled = inl (inr (held, e, settled))

  protect_settled :
      (nn : ObjectReference) (claim held : BucketClaim) (t : Trace)
      → let run =
          protect quote meta
            (cluster env)
            (resolving env)
            enable_cosi
            claim
            (claim_read nn (ok claim) ∷ t) in
        run.0 ≡ ok held → is_settled held ≡ true → Has (IsEnd meta) run.1
  unfolding protect
  protect_settled nn claim held t e settled = held_if_new _ nn claim held t e settled

  with_claim-Reports :
      (nn : ObjectReference) (r : Result GoError BucketClaim) (t : Trace)
      → Reports (IsEnd meta) (
          with_claim quote meta
            (cluster env)
            (resolving env)
            enable_cosi
            nn
            r
            (claim_read nn r ∷ t))
  unfolding with_claim
  with_claim-Reports nn (err e) t =
      if-Reports (IsEnd meta) (is_not_found e) _ _ (λ h _. inl (inl (e, refl, h))) (λ _ h. cc)
  with_claim-Reports nn (ok claim) t =
      if-Reports (IsEnd meta) claim.being_deleted _ _ (λ dying. retire-Reports nn claim t dying)
        (λ _.
          bind-Reports (IsEnd meta)
            (protect quote meta (cluster env) (resolving env) enable_cosi claim) _
            (claim_read nn (ok claim) ∷ t)
            (λ held e.
              advance-Reports nn held _ (λ settled. protect_settled nn claim held t e settled)))

  -- Reconcile reports that it is done with a claim, so that nothing is tried again, only after one of
  -- these: the claim was not found; it was read as being deleted and without the operator's finalizer;
  -- the removal of the finalizer was accepted; it was read or answered as bound and ready for its
  -- generation; its class was read with another driver; the resolver failed with an error that says
  -- that the back end is unsupported or not implemented or that the AWS secret is missing or invalid;
  -- or a status of success was accepted.
  pub reconcile_done :
      (nn : ObjectReference)
      → (reconcile quote meta (cluster env) (resolving env) enable_cosi nn []).0 ≡ ok done
      → Has (IsEnd meta) (reconcile quote meta (cluster env) (resolving env) enable_cosi nn []).1
  unfolding reconcile
  reconcile_done nn h =
      attempt-Reports (IsEnd meta) ((cluster env).get_claim nn)
        (with_claim quote meta (cluster env) (resolving env) enable_cosi nn) []
        (with_claim-Reports nn (env.claim [] nn) []) h
