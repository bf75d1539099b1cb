-- ===== src/Controller/Outcome/Endings.antt =====
-- What `Reconcile` reports for a claim whose class was read.
use k8s_s3_bucket_operator.Prelude.{
  Bool, true, not, ◌||◌, ◌∷◌, Result, ok, err, pure, ◌>>=◌, ◌>>◌, inl, ◌≡◌, refl, arith,
}
use k8s_s3_bucket_operator.Text.{Text, codes, ◌==◌, contains}
use k8s_s3_bucket_operator.Errors.{GoError, message, is_not_found, is_not_implemented, is_transient}
use k8s_s3_bucket_operator.Api.{ObjectReference, BucketClaim, BucketClass}
use k8s_s3_bucket_operator.Provisioning.{AccessCredentials, provision_bucket_and_grant_access}
use k8s_s3_bucket_operator.Controller.Kube.{Meta, Requeue, done, after}
use k8s_s3_bucket_operator.Controller.Notes.{
  Reason, is_bound, note_claim_provisioning, note_claim_not_ready,
}
use k8s_s3_bucket_operator.Controller.Claim.{
  operator_driver, is_hopeless, key_in, fill_secret, credentials_name, bound_claim, publish_if,
  provisioning_failed, bind_claim, with_credentials, note_start, unresolved, with_provider,
  with_class,
}
use k8s_s3_bucket_operator.Controller.Trace.{
  claim_read, status_write, class_read, secret_read, resolved, Trace, Environment, cluster,
  provider_with, made, resolving,
}
use k8s_s3_bucket_operator.Controller.Lawful.{Has, Has-run}
use k8s_s3_bucket_operator.Controller.Protocol.Noting.{note_claim_not_ready-IsLawful}
use k8s_s3_bucket_operator.Controller.Protocol.Binding.{publish_if-IsLawful, bound_phase}
use k8s_s3_bucket_operator.Controller.Reports.{
  Reports, if-Reports, bind-Reports, attempt-Reports, undone-Reports,
}
use k8s_s3_bucket_operator.Controller.Outcome.{IsEnd}

module _ (quote : Text → Text) (meta : Meta) (env : Environment) (enable_cosi : Bool) where
  failed : (e : GoError) → ◌≡◌ {A = Result GoError Requeue} (err e) (ok done) → ⊥
  failed e h = cc

  -- A note on a claim whose end has come.
  noted-Reports :
      (nn : ObjectReference) (reason : Reason) (text : Text) (t : Trace)
      → Has (IsEnd meta) t
      → Reports
          (IsEnd meta)
          ((note_claim_not_ready meta (cluster env) nn reason text >> (λ w. (ok done, w))) t)
  noted-Reports nn reason text t h =
      bind-Reports (IsEnd meta) (note_claim_not_ready meta (cluster env) nn reason text)
        (λ _ w. (ok done, w)) t
        (λ _ _ _.
          Has-run (IsEnd meta) t _ (note_claim_not_ready-IsLawful meta env nn reason text t) h)

  provisioning_failed-Reports :
      (nn : ObjectReference) (e : GoError) (t : Trace)
      → Reports
          (IsEnd meta)
          (provisioning_failed quote meta (cluster env) (resolving env) enable_cosi nn e t)
  unfolding provisioning_failed
  provisioning_failed-Reports nn e t =
      if-Reports (IsEnd meta) (is_transient e) _ _
        (λ _.
          undone-Reports (IsEnd meta) (note_claim_provisioning meta (cluster env) nn _)
            (ok (after 15)) t (λ h. cc))
        (λ _.
          undone-Reports (IsEnd meta) (note_claim_not_ready meta (cluster env) nn _ (message e))
            (err e) t (failed e))

  unresolved-Reports :
      (nn : ObjectReference) (class : BucketClass) (e : GoError) (t : Trace)
      → (is_hopeless e ≡ true → Has (IsEnd meta) t)
      → Reports
          (IsEnd meta)
          (unresolved quote meta (cluster env) (resolving env) enable_cosi nn class e t)
  unfolding unresolved is_hopeless
  unresolved-Reports nn class e t end =
      if-Reports (IsEnd meta) (is_not_found e) _ _
        (λ _.
          undone-Reports (IsEnd meta) (note_claim_provisioning meta (cluster env) nn _)
            (ok (after 10)) t (λ h. cc))
        (λ _.
          if-Reports (IsEnd meta) (contains (message e) (codes "unsupported backend")) _ _
            (λ a. noted-Reports nn _ _ t (end (ground (arith, a))))
            (λ _.
              if-Reports (IsEnd meta)
                (contains (message e) (codes "awsCredentialSecretRef")
                  || contains (message e) (codes "invalid AWS credential secret"))
                _ _ (λ a. noted-Reports nn _ _ t (end (ground (arith, a))))
                (λ _.
                  if-Reports (IsEnd meta) (is_not_implemented e) _ _
                    (λ a. noted-Reports nn _ _ t (end (ground (arith, a))))
                    (λ _.
                      undone-Reports (IsEnd meta)
                        (note_claim_not_ready meta (cluster env) nn _ (message e)) (err e) t
                        (failed e)))))

  bound-Reports :
      (nn : ObjectReference) (claim : BucketClaim) (class : BucketClass) (creds : AccessCredentials)
      (t : Trace)
      → Reports (IsEnd meta) (
          ((cluster env).get_claim nn >>= λ current.
          (cluster env).update_claim_status
            (bound_claim quote meta (credentials_name claim) creds current)
          >>= λ bound.
              publish_if quote meta
                (cluster env)
                (resolving env)
                enable_cosi
                enable_cosi
                bound
                class
              >> pure done)
            t)
  bound-Reports nn claim class creds t =
      bind-Reports (IsEnd meta) ((cluster env).get_claim nn) _ t (λ current _.
        let written = bound_claim quote meta (credentials_name claim) creds current in
        let u : Trace = claim_read nn (env.claim t nn) ∷ t in
        bind-Reports (IsEnd meta) ((cluster env).update_claim_status written) _ u (λ bound accepted.
          let v : Trace = status_write written (env.status_updated u written) ∷ u in
          bind-Reports (IsEnd meta)
            (publish_if quote meta (cluster env) (resolving env) enable_cosi enable_cosi bound
              class)
            _ v
            (λ _ _ _.
              Has-run (IsEnd meta) v _
                (publish_if-IsLawful quote meta env enable_cosi enable_cosi bound class v (
                  inl (
                    bound_phase quote meta env enable_cosi claim current creds,
                    (bound, accepted),
                  )))
                (inl (
                  bound_phase quote meta env enable_cosi claim current creds,
                  (bound, accepted),
                )))))

  bind_claim-Reports :
      (nn : ObjectReference) (claim : BucketClaim) (class : BucketClass) (creds : AccessCredentials)
      (stored : Result GoError (Unit {0})) (t : Trace)
      → Reports (IsEnd meta) (
          bind_claim quote meta
            (cluster env)
            (resolving env)
            enable_cosi
            nn
            claim
            class
            creds
            stored
            t)
  unfolding bind_claim
  bind_claim-Reports nn claim class creds (err e) t =
      undone-Reports (IsEnd meta) (note_claim_not_ready meta (cluster env) nn _ (message e)) (err e)
        t (failed e)
  bind_claim-Reports nn claim class creds (ok u) t = bound-Reports nn claim class creds t

  with_credentials-Reports :
      (nn : ObjectReference) (claim : BucketClaim) (class : BucketClass)
      (r : Result GoError AccessCredentials) (t : Trace)
      → Reports
          (IsEnd meta)
          (with_credentials quote meta (cluster env) (resolving env) enable_cosi nn claim class r t)
  unfolding with_credentials
  with_credentials-Reports nn claim class (err e) t = provisioning_failed-Reports nn e t
  with_credentials-Reports nn claim class (ok creds) t =
      attempt-Reports (IsEnd meta)
        ((cluster env).create_or_update_secret (credentials_name claim)
          (fill_secret meta claim creds))
        _ t (bind_claim-Reports nn claim class creds _ _)

  with_provider-Reports :
      (nn : ObjectReference) (claim : BucketClaim) (class : BucketClass) (r : Result GoError Bool)
      (t : Trace)
      → Reports (IsEnd meta) (
          with_provider quote meta
            (cluster env)
            (resolving env)
            enable_cosi
            nn
            claim
            class
            (made env r)
            (resolved class r ∷ t))
  unfolding with_provider
  with_provider-Reports nn claim class (err e) t =
      unresolved-Reports nn class e (resolved class (err e) ∷ t) (λ h. inl (e, refl, h))
  with_provider-Reports nn claim class (ok hardens) t =
      let u : Trace = resolved class (ok hardens) ∷ t in
      let note =
        note_start quote meta (cluster env) (resolving env) enable_cosi (is_bound meta claim) nn in
      let ref = credentials_name claim in
      bind-Reports (IsEnd meta) note _ u (λ _ _.
        attempt-Reports (IsEnd meta) ((cluster env).get_secret ref) _ (note u).1 (
          attempt-Reports (IsEnd meta)
            (provision_bucket_and_grant_access (provider_with env hardens) claim class
              (key_in (codes "accessKeyID") (env.secret (note u).1 ref))
              (key_in (codes "accessSecretKey") (env.secret (note u).1 ref)))
            _ (secret_read ref (env.secret (note u).1 ref) ∷ (note u).1)
            (with_credentials-Reports nn claim class _ _)))

  pub with_class-Reports :
      (nn : ObjectReference) (claim : BucketClaim) (name : Text) (r : Result GoError BucketClass)
      (t : Trace)
      → Reports (IsEnd meta) (
          with_class quote meta
            (cluster env)
            (resolving env)
            enable_cosi
            nn
            claim
            r
            (class_read name r ∷ t))
  unfolding with_class
  with_class-Reports nn claim name (err e) t =
      if-Reports (IsEnd meta) (is_not_found e) _ _
        (λ _.
          undone-Reports (IsEnd meta) (note_claim_provisioning meta (cluster env) nn _)
            (ok (after 10)) _ (λ h. cc))
        (λ _.
          undone-Reports (IsEnd meta) (note_claim_not_ready meta (cluster env) nn _ (message e))
            (err e) _ (failed e))
  with_class-Reports nn claim name (ok class) t =
      let u : Trace = class_read name (ok class) ∷ t in
      if-Reports (IsEnd meta) (not (class.driver_name == operator_driver)) _ _
        (λ h. noted-Reports nn _ _ u (inl (class, refl, ground (arith, h))))
        (λ _.
          attempt-Reports (IsEnd meta) (resolving env class) _ u
            (with_provider-Reports nn claim class (env.provider u class) u))
