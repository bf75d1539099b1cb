-- ===== src/Controller/Success/Whole.antt =====
-- Whole runs of Reconcile in an environment that accepts every request.
use k8s_s3_bucket_operator.Prelude.{
  Bool, true, false, not, [], ◌∷◌, Result, ok, err, if◌then◌else◌, inl, ◌≡◌, refl, subst, arith,
}
use k8s_s3_bucket_operator.Text.{Text, ◌==◌}
use k8s_s3_bucket_operator.Errors.{GoError}
use k8s_s3_bucket_operator.Api.{ObjectReference, BucketClaim, BucketClass}
use k8s_s3_bucket_operator.Controller.Kube.{Meta, done}
use k8s_s3_bucket_operator.Controller.Claim.{
  bucket_claim_finalizer, operator_driver, is_settled, protect, with_class, advance, with_claim,
  reconcile,
}
use k8s_s3_bucket_operator.Controller.Trace.{claim_read, Trace, Environment, cluster, resolving}
use k8s_s3_bucket_operator.Controller.Lawful.{Has}
use k8s_s3_bucket_operator.Controller.Success.{IsAccepting}
use k8s_s3_bucket_operator.Controller.Success.Bound.{
  IsGood, Succeeds, if-Succeeds, bind-Succeeds, attempt-Succeeds, with_provider-Succeeds,
}

module _ (quote : Text → Text) (meta : Meta) (nn : ObjectReference) (env : Environment)
    (accepting : IsAccepting meta nn env) (enable_cosi : Bool) where
  with_class-Succeeds :
      (claim : BucketClaim) (r : Result GoError BucketClass) (t : Trace)
      → ((class : BucketClass) × (r ≡ ok class) × ((class.driver_name == operator_driver) ≡ true))
      → Succeeds quote meta nn env accepting enable_cosi
          (with_class quote meta (cluster env) (resolving env) enable_cosi nn claim r t)
  unfolding with_class
  with_class-Succeeds claim (err e) t (class, h, ours) = cc
  with_class-Succeeds claim (ok class) t (known, h, ours) =
      let same : known ≡ class = cc in
      let own = subst (λ (x : BucketClass). (x.driver_name == operator_driver) ≡ true) same ours in
      if-Succeeds quote meta nn env accepting enable_cosi
        (not (class.driver_name == operator_driver)) _ _
        (λ foreign. absurd (ground (arith, own, foreign)))
        (λ _. attempt-Succeeds quote meta nn env accepting enable_cosi (resolving env class) _ t (
          with_provider-Succeeds quote meta nn env accepting enable_cosi claim class
            (env.provider t class) _ (accepting.provider t class)))

  advance-Succeeds :
      (claim : BucketClaim) (t : Trace)
      → (is_settled claim ≡ true → Has (IsGood meta) t)
      → Succeeds quote meta nn env accepting enable_cosi
          (advance quote meta (cluster env) (resolving env) enable_cosi nn claim t)
  unfolding advance
  advance-Succeeds claim t settled =
      let name = claim.spec.bucket_class_name in
      if-Succeeds quote meta nn env accepting enable_cosi (is_settled claim) _ _
        (λ h. (refl, settled h))
        (λ _.
          attempt-Succeeds quote meta nn env accepting enable_cosi ((cluster env).get_class name) _
            t (with_class-Succeeds claim (env.class t name) _ (accepting.class t name)))

  -- The claim that a run returns was read or written by its last event.
  held_if_new :
      (has : Bool) (claim : BucketClaim) (t : Trace)
      → let new = record claim {
        finalizers = meta.add_finalizer bucket_claim_finalizer claim.finalizers;
      } in
        let u : Trace = claim_read nn (ok claim) ∷ t in
        let run = if has then (ok claim, u) else (cluster env).update_claim new u in
        ((held : BucketClaim) × (run.0 ≡ ok held))
        × ((held : BucketClaim)
            → run.0 ≡ ok held
            → is_settled held ≡ true
            → Has (IsGood meta) run.1)
  held_if_new true claim t = ((claim, refl), λ held e settled. inl (held, e, settled))
  held_if_new false claim t = (accepting.updated _ _, λ held e settled. inl (held, e, settled))

  protected :
      (claim : BucketClaim) (t : Trace)
      → let run =
          protect quote meta
            (cluster env)
            (resolving env)
            enable_cosi
            claim
            (claim_read nn (ok claim) ∷ t) in
        ((held : BucketClaim) × (run.0 ≡ ok held))
        × ((held : BucketClaim)
            → run.0 ≡ ok held
            → is_settled held ≡ true
            → Has (IsGood meta) run.1)
  unfolding protect
  protected claim t =
      held_if_new (meta.contains_finalizer bucket_claim_finalizer claim.finalizers) claim t

  with_claim-Succeeds :
      (r : Result GoError BucketClaim) (t : Trace)
      → ((claim : BucketClaim) × (r ≡ ok claim) × (claim.being_deleted ≡ false))
      → Succeeds quote meta nn env accepting enable_cosi (
          with_claim quote meta
            (cluster env)
            (resolving env)
            enable_cosi
            nn
            r
            (claim_read nn r ∷ t))
  unfolding with_claim
  with_claim-Succeeds (err e) t (claim, h, alive) = cc
  with_claim-Succeeds (ok claim) t (known, h, alive) =
      let same : known ≡ claim = cc in
      let living = subst (λ (x : BucketClaim). x.being_deleted ≡ false) same alive in
      let (held, good) = protected claim t in
      if-Succeeds quote meta nn env accepting enable_cosi claim.being_deleted _ _
        (λ dying. absurd (ground (arith, living, dying)))
        (λ _.
          bind-Succeeds quote meta nn env accepting enable_cosi
            (protect quote meta (cluster env) (resolving env) enable_cosi claim) _
            (claim_read nn (ok claim) ∷ t) held (λ c e. advance-Succeeds c _ (good c e)))

  -- In an environment that accepts every request, where the claim is there and not being deleted, its
  -- class is there and the operator's, a provider can be made for it and answers every grant with
  -- complete credentials, the secret can be owned by the claim, and the COSI bucket can be read or is
  -- not found: Reconcile reports that it is done,
  -- and the claim was read or answered as bound and ready for its generation, or its status of success
  -- was accepted.
  pub reconcile_binds :
      ((reconcile quote meta (cluster env) (resolving env) enable_cosi nn []).0 ≡ ok done)
      × Has (IsGood meta) (reconcile quote meta (cluster env) (resolving env) enable_cosi nn []).1
  unfolding reconcile
  reconcile_binds =
      attempt-Succeeds quote meta nn env accepting enable_cosi ((cluster env).get_claim nn)
        (with_claim quote meta (cluster env) (resolving env) enable_cosi nn) []
        (with_claim-Succeeds (env.claim [] nn) [] (accepting.claim []))
