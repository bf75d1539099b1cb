-- ===== src/Controller/Protocol/Finalizing.antt =====
-- The deletion of a claim, as runs over a trace.
use k8s_s3_bucket_operator.Prelude.{
  Bool, true, false, Option, none, some, [], ◌∷◌, Result, ok, err, pure, ◌>>=◌, ◌>>◌, if◌then◌else◌,
  inl, inr, ◌≡◌, ◌≢◌, refl,
}
use k8s_s3_bucket_operator.Text.{Text, codes, ◌==◌, eq_refl}
use k8s_s3_bucket_operator.Errors.{GoError, is_not_found, wrapped}
use k8s_s3_bucket_operator.Api.{ObjectReference, BucketClaim, BucketClass, delete_policy}
use k8s_s3_bucket_operator.Provider.{revoke, delete}
use k8s_s3_bucket_operator.Provisioning.{
  account_id, bound_bucket_name, revoke_access_and_maybe_delete_bucket,
}
use k8s_s3_bucket_operator.Controller.Kube.{Meta, done}
use k8s_s3_bucket_operator.Controller.Claim.{
  bucket_claim_finalizer, is_hopeless, finalizer_key, finalize_with, finalize_class,
  finalize_bucket_claim, retire,
}
use k8s_s3_bucket_operator.Controller.Trace.{
  claim_write, class_read, secret_read, resolved, called, Trace, Environment, cluster,
  provider_with, made, resolving,
}
use k8s_s3_bucket_operator.Controller.Lawful.{
  Has, IsLawful, still-IsLawful, event-IsLawful, then-IsLawful, bind-IsLawful,
}
use k8s_s3_bucket_operator.Controller.Protocol.{
  IsRetained, IsRevoked, IsReleased, IsProtected, Needs,
}

module _ (quote : Text → Text) (meta : Meta) (env : Environment) (enable_cosi : Bool) where
  -- A lawful run, after which the claim is released if it succeeded.
  abbrev Finalizes : BucketClaim → Trace → Result GoError (Unit {0}) × Trace → Type 0
  Finalizes claim t run = IsLawful (Needs meta) t run × (run.0 ≡ ok tt → IsReleased claim run.1)

  then-Finalizes :
      {A : Type 0} (claim : BucketClaim) (t : Trace) (first : Result GoError A × Trace)
      (second : Result GoError (Unit {0}) × Trace)
      → IsLawful (Needs meta) t first
      → Finalizes claim first.1 second
      → Finalizes claim t second
  then-Finalizes claim t first second a (b, released) = (then-IsLawful t first second a b, released)

  deleted_or_kept :
      (delete_it hardens : Bool) (claim : BucketClaim) (class : BucketClass) (t : Trace)
      → Has (IsProtected meta) t
      → Has (IsRevoked claim) t
      → (class.deletion_policy ≢ delete_policy → Has IsRetained t)
      → (class.deletion_policy == delete_policy) ≡ delete_it
      → Finalizes claim t (
          (if delete_it
              then (provider_with env hardens).delete_bucket (bound_bucket_name claim)
              else pure tt)
            t)
  deleted_or_kept true hardens claim class t p revoked kept e = (
    event-IsLawful (env.performed t (delete (bound_bucket_name claim)))
        (called (delete (bound_bucket_name claim))
          (env.performed t (delete (bound_bucket_name claim))))
        t p,
    λ h. inr (inr (inr (inr revoked, inl (refl, h)))),
  )
  deleted_or_kept false hardens claim class t p revoked kept e = (
    still-IsLawful (ok tt) t,
    λ _. inr (inr (inl (revoked, kept (λ same. cc (e, same, eq_refl delete_policy))))),
  )

  revoke-Finalizes :
      (hardens : Bool) (claim : BucketClaim) (class : BucketClass) (key : Text) (t : Trace)
      → Has (IsProtected meta) t
      → (class.deletion_policy ≢ delete_policy → Has IsRetained t)
      → Finalizes claim t
          (revoke_access_and_maybe_delete_bucket (provider_with env hardens) claim class key t)
  unfolding revoke_access_and_maybe_delete_bucket ◌>>=◌
  revoke-Finalizes hardens claim class key t p kept =
      let c = revoke (bound_bucket_name claim) (account_id claim) key in
      let r = env.performed t c in
      then-Finalizes {A = Unit {0}} claim t (ok tt, called c r ∷ t) _
        (event-IsLawful (ok tt) (called c r) t p)
        (deleted_or_kept (class.deletion_policy == delete_policy) hardens claim class
          (called c r ∷ t) (inr p) (inl (refl, refl)) (λ h. inr (kept h)) refl)

  keyed-Finalizes :
      (hardens : Bool) (claim : BucketClaim) (class : BucketClass) (secret : Option ObjectReference)
      (t : Trace)
      → Has (IsProtected meta) t
      → (class.deletion_policy ≢ delete_policy → Has IsRetained t)
      → Finalizes claim t (
          (finalizer_key quote meta (cluster env) (resolving env) enable_cosi claim secret
              >>= revoke_access_and_maybe_delete_bucket (provider_with env hardens) claim class)
            t)
  unfolding ◌>>=◌
  keyed-Finalizes hardens claim class none t p kept =
      revoke-Finalizes hardens claim class [] t p kept
  keyed-Finalizes hardens claim class (some secret) t p kept =
      let r = env.secret t secret in
      then-Finalizes claim t (r, secret_read secret r ∷ t) _
        (event-IsLawful r (secret_read secret r) t tt)
        (revoke-Finalizes hardens claim class _ (secret_read secret r ∷ t) (inr p)
          (λ h. inr (kept h)))

  given_up :
      (hopeless : Bool) (claim : BucketClaim) (class : BucketClass) (e : GoError) (t : Trace)
      → is_hopeless e ≡ hopeless
      → Finalizes claim (resolved class (err e) ∷ t) (
          if hopeless then (ok tt, resolved class (err e) ∷ t) else (
            err (wrapped (codes "storage provider for finalization: ") e []),
            resolved class (err e) ∷ t,
          ))
  given_up true claim class e t h = (still-IsLawful _ _, λ _. inr (inl (inl (e, refl, h))))
  given_up false claim class e t h = (still-IsLawful _ _, λ ended. cc)

  finalize_with-Finalizes :
      (r : Result GoError Bool) (claim : BucketClaim) (class : BucketClass) (t : Trace)
      → Has (IsProtected meta) t
      → (class.deletion_policy ≢ delete_policy → Has IsRetained t)
      → Finalizes claim (resolved class r ∷ t) (
          finalize_with quote meta
            (cluster env)
            (resolving env)
            enable_cosi
            claim
            class
            (made env r)
            (resolved class r ∷ t))
  unfolding finalize_with
  finalize_with-Finalizes (ok hardens) claim class t p kept =
      keyed-Finalizes hardens claim class claim.status.secret_reference _ (inr p)
        (λ h. inr (kept h))
  finalize_with-Finalizes (err e) claim class t p kept =
      given_up (is_hopeless e) claim class e t refl

  missing_class :
      (missing : Bool) (claim : BucketClaim) (name : Text) (e : GoError) (t : Trace)
      → is_not_found e ≡ missing
      → Finalizes claim (class_read name (err e) ∷ t) (
          if missing
          then (ok tt, class_read name (err e) ∷ t)
          else (err e, class_read name (err e) ∷ t))
  missing_class true claim name e t h = (still-IsLawful _ _, λ _. inl (inl (e, refl, h)))
  missing_class false claim name e t h = (still-IsLawful _ _, λ ended. cc)

  finalize_class-Finalizes :
      (r : Result GoError BucketClass) (claim : BucketClaim) (name : Text) (t : Trace)
      → Has (IsProtected meta) t
      → Finalizes claim (class_read name r ∷ t) (
          finalize_class quote meta
            (cluster env)
            (resolving env)
            enable_cosi
            claim
            r
            (class_read name r ∷ t))
  unfolding finalize_class ◌>>=◌
  finalize_class-Finalizes (err e) claim name t p =
      missing_class (is_not_found e) claim name e t refl
  finalize_class-Finalizes (ok class) claim name t p =
      let u : Trace = class_read name (ok class) ∷ t in
      let r = env.provider u class in
      then-Finalizes claim u (r, resolved class r ∷ u) _ (event-IsLawful r (resolved class r) u tt)
        (finalize_with-Finalizes r claim class u (inr p) (λ h. inl (class, refl, h)))

  finalize_bucket_claim-Finalizes :
      (claim : BucketClaim) (t : Trace)
      → Has (IsProtected meta) t
      → Finalizes claim t
          (finalize_bucket_claim quote meta (cluster env) (resolving env) enable_cosi claim t)
  unfolding finalize_bucket_claim ◌>>=◌
  finalize_bucket_claim-Finalizes claim t p =
      let name = claim.spec.bucket_class_name in
      let r = env.class t name in
      then-Finalizes claim t (r, class_read name r ∷ t) _
        (event-IsLawful r (class_read name r) t tt) (finalize_class-Finalizes r claim name t p)

  -- The finalizers of a claim do not matter.
  freed-IsReleased :
      (claim : BucketClaim) (t : Trace)
      → IsReleased claim t
      → IsReleased
          (record claim {
            finalizers = meta.remove_finalizer bucket_claim_finalizer claim.finalizers;
          })
          t
  unfolding bound_bucket_name account_id
  freed-IsReleased claim t h = h

  retired_if_held :
      (held : Bool) (claim : BucketClaim) (t : Trace)
      → meta.contains_finalizer bucket_claim_finalizer claim.finalizers ≡ held
      → (meta.contains_finalizer bucket_claim_finalizer claim.finalizers ≡ true
          → Has (IsProtected meta) t)
      → IsLawful (Needs meta) t (
          if held
          then (finalize_bucket_claim quote meta (cluster env) (resolving env) enable_cosi claim
                >> ((cluster env).update_claim (record claim {
                  finalizers = meta.remove_finalizer bucket_claim_finalizer claim.finalizers;
                })
                    >>= λ updated. pure done))
              t
          else (ok done, t))
  retired_if_held true claim t h p =
      let gone = record claim {
        finalizers = meta.remove_finalizer bucket_claim_finalizer claim.finalizers;
      } in
      let finalizing = finalize_bucket_claim-Finalizes claim t (p h) in
      bind-IsLawful
        (finalize_bucket_claim quote meta (cluster env) (resolving env) enable_cosi claim) _ t
        finalizing.0
        (λ _ ended.
          let u =
            (finalize_bucket_claim quote meta (cluster env) (resolving env) enable_cosi claim
              t).1 in
          bind-IsLawful ((cluster env).update_claim gone) (λ updated. pure done) u
            (event-IsLawful (env.updated u gone) (claim_write gone (env.updated u gone)) u
              (inr (freed-IsReleased claim _ (finalizing.1 ended))))
            (λ updated _. still-IsLawful _ _))
  retired_if_held false claim t h p = still-IsLawful _ _

  pub retire-IsLawful :
      (claim : BucketClaim) (t : Trace)
      → (meta.contains_finalizer bucket_claim_finalizer claim.finalizers ≡ true
          → Has (IsProtected meta) t)
      → IsLawful
          (Needs meta)
          t
          (retire quote meta (cluster env) (resolving env) enable_cosi claim t)
  unfolding retire
  retire-IsLawful claim t p = retired_if_held _ claim t refl p
