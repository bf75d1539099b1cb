-- ===== src/Controller/Protocol/Reconciling.antt =====
-- What `Reconcile` does for a claim that is not being deleted, as runs over a trace.
use k8s_s3_bucket_operator.Prelude.{
  Bool, true, false, not, ◌||◌, ◌∷◌, Result, ok, err, ◌>>◌, inl, inr, ◌≡◌, refl, ap,
}
use k8s_s3_bucket_operator.Text.{Text, codes, ◌==◌, contains}
use k8s_s3_bucket_operator.Errors.{
  GoError, message, as_provisioning, is_not_found, is_not_implemented, is_transient,
}
use k8s_s3_bucket_operator.Api.{ObjectReference, BucketClaim, BucketClass}
use k8s_s3_bucket_operator.Provisioning.{AccessCredentials, provision_bucket_and_grant_access}
use k8s_s3_bucket_operator.Controller.Kube.{Meta, Requeue, after}
use k8s_s3_bucket_operator.Controller.Notes.{
  Reason, is_bound, note_claim_provisioning, note_claim_not_ready, reconcile_secret_failed,
}
use k8s_s3_bucket_operator.Controller.Claim.{
  operator_driver, is_settled, reason_of, transient_text, key_in, fill_secret, credentials_name,
  provisioning_failed, bind_claim, with_credentials, note_start, unresolved, with_provider,
  with_class, advance,
}
use k8s_s3_bucket_operator.Controller.Trace.{
  class_read, secret_read, secret_written, resolved, Trace, Environment, cluster, changed,
  provider_with, made, resolving,
}
use k8s_s3_bucket_operator.Controller.Lawful.{
  Has, Has-run, IsLawful, still-IsLawful, if-IsLawful, event-IsLawful, bind-IsLawful,
  attempt-IsLawful,
}
use k8s_s3_bucket_operator.Controller.Protocol.{IsGrantOf, IsStored, IsProtected, Needs}
use k8s_s3_bucket_operator.Controller.Protocol.Noting.{
  note_claim_provisioning-IsLawful, note_claim_not_ready-IsLawful,
}
use k8s_s3_bucket_operator.Controller.Protocol.Provisioning.{provision-Guarded}
use k8s_s3_bucket_operator.Controller.Protocol.Binding.{provisioned_grant, bound-IsLawful}

module _ (quote : Text → Text) (meta : Meta) (env : Environment) (enable_cosi : Bool) where
  -- A waiting note, and then a result.
  waiting-IsLawful :
      (nn : ObjectReference) (text : Text) (r : Result GoError Requeue) (t : Trace)
      → IsLawful
          (Needs meta)
          t
          ((note_claim_provisioning meta (cluster env) nn text >> (λ w. (r, w))) t)
  waiting-IsLawful nn text r t =
      bind-IsLawful (note_claim_provisioning meta (cluster env) nn text) (λ _ w. (r, w)) t
        (note_claim_provisioning-IsLawful meta env nn text t) (λ _ _. still-IsLawful r _)

  -- A note of failure, and then a result.
  failing-IsLawful :
      (nn : ObjectReference) (reason : Reason) (text : Text) (r : Result GoError Requeue)
      (t : Trace)
      → IsLawful
          (Needs meta)
          t
          ((note_claim_not_ready meta (cluster env) nn reason text >> (λ w. (r, w))) t)
  failing-IsLawful nn reason text r t =
      bind-IsLawful (note_claim_not_ready meta (cluster env) nn reason text) (λ _ w. (r, w)) t
        (note_claim_not_ready-IsLawful meta env nn reason text t) (λ _ _. still-IsLawful r _)

  provisioning_failed-IsLawful :
      (nn : ObjectReference) (e : GoError) (t : Trace)
      → IsLawful
          (Needs meta)
          t
          (provisioning_failed quote meta (cluster env) (resolving env) enable_cosi nn e t)
  unfolding provisioning_failed
  provisioning_failed-IsLawful nn e t =
      if-IsLawful (is_transient e) _ _ t
        (waiting-IsLawful nn (transient_text quote (as_provisioning e) (message e)) (ok (after 15))
          t)
        (failing-IsLawful nn (reason_of (as_provisioning e)) (message e) (err e) t)

  unresolved-IsLawful :
      (nn : ObjectReference) (class : BucketClass) (e : GoError) (t : Trace)
      → IsLawful
          (Needs meta)
          t
          (unresolved quote meta (cluster env) (resolving env) enable_cosi nn class e t)
  unfolding unresolved
  unresolved-IsLawful nn class e t =
      if-IsLawful (is_not_found e) _ _ t (waiting-IsLawful nn _ _ t) (
        if-IsLawful (contains (message e) (codes "unsupported backend")) _ _ t
          (failing-IsLawful nn _ _ _ t)
          (if-IsLawful
            (contains (message e) (codes "awsCredentialSecretRef")
              || contains (message e) (codes "invalid AWS credential secret"))
            _ _ t (failing-IsLawful nn _ _ _ t)
            (if-IsLawful (is_not_implemented e) _ _ t (failing-IsLawful nn _ _ _ t)
              (failing-IsLawful nn _ _ _ t))))

  bind_claim-IsLawful :
      (nn : ObjectReference) (claim : BucketClaim) (class : BucketClass) (creds : AccessCredentials)
      (stored : Result GoError (Unit {0})) (t : Trace)
      → Has (IsGrantOf creds) t
      → ((u : Unit {0}) → stored ≡ ok u → Has (IsStored meta creds) t)
      → IsLawful (Needs meta) t (
          bind_claim quote meta
            (cluster env)
            (resolving env)
            enable_cosi
            nn
            claim
            class
            creds
            stored
            t)
  unfolding bind_claim
  bind_claim-IsLawful nn claim class creds (err e) t g kept =
      failing-IsLawful nn reconcile_secret_failed (message e) (err e) t
  bind_claim-IsLawful nn claim class creds (ok u) t g kept =
      bound-IsLawful quote meta env enable_cosi nn claim class creds t g (kept u refl)

  with_credentials-IsLawful :
      (nn : ObjectReference) (claim : BucketClaim) (class : BucketClass)
      (r : Result GoError AccessCredentials) (t : Trace)
      → ((creds : AccessCredentials) → r ≡ ok creds → Has (IsGrantOf creds) t)
      → IsLawful
          (Needs meta)
          t
          (with_credentials quote meta (cluster env) (resolving env) enable_cosi nn claim class r t)
  unfolding with_credentials
  with_credentials-IsLawful nn claim class (err e) t g = provisioning_failed-IsLawful nn e t
  with_credentials-IsLawful nn claim class (ok creds) t g =
      let ref = credentials_name claim in
      let fill = fill_secret meta claim creds in
      let old = env.stored t ref in
      let r = changed env ref fill t in
      attempt-IsLawful ((cluster env).create_or_update_secret ref fill) _ t
        (event-IsLawful r (secret_written ref (fill old) r) t
          (claim, creds, old, refl, g creds refl))
        (bind_claim-IsLawful nn claim class creds r (secret_written ref (fill old) r ∷ t)
          (inr (g creds refl)) (λ u h. inl (claim, old, refl, h)))

  note_start-IsLawful :
      (bound : Bool) (nn : ObjectReference) (t : Trace)
      → IsLawful
          (Needs meta)
          t
          (note_start quote meta (cluster env) (resolving env) enable_cosi bound nn t)
  note_start-IsLawful true nn t = still-IsLawful _ t
  note_start-IsLawful false nn t = note_claim_provisioning-IsLawful meta env nn _ t

  with_provider-IsLawful :
      (nn : ObjectReference) (claim : BucketClaim) (class : BucketClass) (r : Result GoError Bool)
      (t : Trace)
      → Has (IsProtected meta) t
      → IsLawful (Needs meta) t (
          with_provider quote meta
            (cluster env)
            (resolving env)
            enable_cosi
            nn
            claim
            class
            (made env r)
            t)
  unfolding with_provider
  with_provider-IsLawful nn claim class (err e) t p = unresolved-IsLawful nn class e t
  with_provider-IsLawful nn claim class (ok hardens) t p =
      let note =
        note_start quote meta (cluster env) (resolving env) enable_cosi (is_bound meta claim) nn in
      let noted = note_start-IsLawful (is_bound meta claim) nn t in
      let ref = credentials_name claim in
      bind-IsLawful note _ t noted (λ _ _.
        let u = (note t).1 in
        let v : Trace = secret_read ref (env.secret u ref) ∷ u in
        let q : Has (IsProtected meta) v = inr (Has-run _ t (note t) noted p) in
        let provisioning =
          provision_bucket_and_grant_access (provider_with env hardens) claim class
            (key_in (codes "accessKeyID") (env.secret u ref))
            (key_in (codes "accessSecretKey") (env.secret u ref)) in
        attempt-IsLawful ((cluster env).get_secret ref) _ u
          (event-IsLawful (env.secret u ref) (secret_read ref (env.secret u ref)) u tt)
          (attempt-IsLawful provisioning _ v
            (provision-Guarded meta env hardens claim class _ _ v q)
            (with_credentials-IsLawful nn claim class (provisioning v).0 (provisioning v).1
              (λ creds h.
                provisioned_grant env hardens claim class _ _ creds v (provisioning v).1
                  (ap (λ (r : Result GoError AccessCredentials). (r, (provisioning v).1)) h)))))

  with_class-IsLawful :
      (nn : ObjectReference) (claim : BucketClaim) (r : Result GoError BucketClass) (t : Trace)
      → Has (IsProtected meta) t
      → IsLawful
          (Needs meta)
          t
          (with_class quote meta (cluster env) (resolving env) enable_cosi nn claim r t)
  unfolding with_class
  with_class-IsLawful nn claim (err e) t p =
      if-IsLawful (is_not_found e) _ _ t (waiting-IsLawful nn _ _ t) (failing-IsLawful nn _ _ _ t)
  with_class-IsLawful nn claim (ok class) t p =
      if-IsLawful (not (class.driver_name == operator_driver)) _ _ t (failing-IsLawful nn _ _ _ t) (
        attempt-IsLawful (resolving env class) _ t
          (event-IsLawful (made env (env.provider t class)) (resolved class (env.provider t class))
            t tt)
          (with_provider-IsLawful nn claim class (env.provider t class) _ (inr p)))

  pub advance-IsLawful :
      (nn : ObjectReference) (claim : BucketClaim) (t : Trace)
      → Has (IsProtected meta) t
      → IsLawful
          (Needs meta)
          t
          (advance quote meta (cluster env) (resolving env) enable_cosi nn claim t)
  unfolding advance
  advance-IsLawful nn claim t p =
      let name = claim.spec.bucket_class_name in
      if-IsLawful (is_settled claim) _ _ t (still-IsLawful _ t) (
        attempt-IsLawful ((cluster env).get_class name) _ t
          (event-IsLawful (env.class t name) (class_read name (env.class t name)) t tt)
          (with_class-IsLawful nn claim (env.class t name) _ (inr p)))
