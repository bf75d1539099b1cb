-- ===== src/Controller/Access/Release.antt =====
-- The deletion of an access, as runs over a trace.
use k8s_s3_bucket_operator.Prelude.{
  Bool, true, false, ◌∷◌, Result, ok, err, pure, attempt, ◌>>=◌, if◌then◌else◌, continue, ◌⊎◌, inl,
  inr, ◌≡◌, refl,
}
use k8s_s3_bucket_operator.Text.{Text}
use k8s_s3_bucket_operator.Errors.{GoError, Go, is_not_found}
use k8s_s3_bucket_operator.Api.{ObjectReference, BucketClaim, BucketClass}
use k8s_s3_bucket_operator.Provider.{Provider, revoke}
use k8s_s3_bucket_operator.Controller.Kube.{Meta, done, BucketAccess}
use k8s_s3_bucket_operator.Controller.Trace.{
  Event, claim_read, class_read, secret_read, secret_dropped, access_write, resolved, called, Trace,
  Environment, cluster, provider_with, made, resolving,
}
use k8s_s3_bucket_operator.Controller.Lawful.{
  Has, IsLawful, still-IsLawful, if-IsLawful, event-IsLawful, then-IsLawful, bind-IsLawful,
  attempt-IsLawful,
}
use k8s_s3_bucket_operator.Controller.Access.{
  bucket_access_finalizer, BucketInfo, access_account, revoked_bucket, revoked_key, is_unavailable,
  sibling, provider_for_claim, let_go, dropping, after_revocation, revoke_from, revoke_of, withdraw,
}
use k8s_s3_bucket_operator.Controller.Access.Rules.{IsUnclaimed, IsHeld, IsWithdrawn, AccessNeeds}

module _ (marshal : BucketInfo → Result GoError Text) (unmarshal : Text → Text) (meta : Meta)
    (env : Environment) (nn : ObjectReference) where
  classed-IsLawful :
      {A : Type 0} (P : Event → Type 0) (name : Text) (r : Result GoError BucketClass)
      (k : Result GoError (Provider Trace) → Go Trace A) (t : Trace)
      → Has P t
      → ((found : Result GoError Bool) (u : Trace)
          → Has P u
          → IsLawful (AccessNeeds marshal meta nn) u (k (made env found) u))
      → IsLawful
          (AccessNeeds marshal meta nn)
          (class_read name r ∷ t)
          (let x = continue (resolving env) (class_read name r ∷ t) r in k x.0 x.1)
  classed-IsLawful P name (err e) k t h go = go (err e) (class_read name (err e) ∷ t) (inr h)
  classed-IsLawful P name (ok class) k t h go =
      let u : Trace = class_read name (ok class) ∷ t in
      let r = env.provider u class in
      then-IsLawful u (made env r, resolved class r ∷ u) _
        (event-IsLawful (made env r) (resolved class r) u tt)
        (go r (resolved class r ∷ u) (inr (inr h)))

  -- A step that is lawful for each provider that the environment makes.
  pub provided-IsLawful :
      {A : Type 0} (P : Event → Type 0) (claim : BucketClaim)
      (k : Result GoError (Provider Trace) → Go Trace A) (t : Trace)
      → Has P t
      → ((found : Result GoError Bool) (u : Trace)
          → Has P u
          → IsLawful (AccessNeeds marshal meta nn) u (k (made env found) u))
      → IsLawful (AccessNeeds marshal meta nn) t (
          (attempt (provider_for_claim marshal unmarshal meta (cluster env) (resolving env) claim)
              >>= k)
            t)
  unfolding provider_for_claim ◌>>=◌
  provided-IsLawful P claim k t h go =
      let name = claim.spec.bucket_class_name in
      let r = env.class t name in
      then-IsLawful t (r, class_read name r ∷ t) _ (event-IsLawful r (class_read name r) t tt)
        (classed-IsLawful P name r k t h go)

  let_go-IsLawful :
      (ba : BucketAccess) (t : Trace)
      → (Has IsUnclaimed t ⊎ Has (IsWithdrawn marshal meta nn) t)
      → IsLawful
          (AccessNeeds marshal meta nn)
          t
          (let_go marshal unmarshal meta (cluster env) (resolving env) ba t)
  unfolding let_go
  let_go-IsLawful ba t h =
      let gone = record ba {
        finalizers = meta.remove_finalizer bucket_access_finalizer ba.finalizers;
      } in
      bind-IsLawful ((cluster env).update_access gone) (λ updated. pure done) t
        (event-IsLawful (env.access_updated t gone) (access_write gone (env.access_updated t gone))
          t (inr h))
        (λ updated _. still-IsLawful _ _)

  after_revocation-IsLawful :
      (ba : BucketAccess) (r : Result GoError (Unit {0})) (t : Trace)
      → ((u : Unit {0}) → r ≡ ok u → Has (IsWithdrawn marshal meta nn) t)
      → IsLawful
          (AccessNeeds marshal meta nn)
          t
          (after_revocation marshal unmarshal meta (cluster env) (resolving env) nn ba r t)
  unfolding after_revocation
  after_revocation-IsLawful ba (err e) t h = still-IsLawful _ t
  after_revocation-IsLawful ba (ok u) t h =
      let ref = sibling nn ba.credentials_secret_name in
      bind-IsLawful (dropping marshal unmarshal meta (cluster env) (resolving env) ref) _ t
        (event-IsLawful {A = Unit {0}} (ok tt) (secret_dropped ref (env.accepted t)) t (h u refl))
        (λ _ _. let_go-IsLawful ba _ (inr (inr (h u refl))))

  revoke_from-IsLawful :
      (ba : BucketAccess) (claim : BucketClaim) (key : Text) (r : Result GoError Bool) (t : Trace)
      → Has (IsHeld marshal meta nn) t
      → IsLawful (AccessNeeds marshal meta nn) t (
          revoke_from marshal unmarshal meta
            (cluster env)
            (resolving env)
            nn
            ba
            claim
            key
            (made env r)
            t)
  unfolding revoke_from
  revoke_from-IsLawful ba claim key (err e) t h =
      if-IsLawful (is_unavailable e) _ _ t (still-IsLawful _ t) (still-IsLawful _ t)
  revoke_from-IsLawful ba claim key (ok hardens) t h =
      let c = revoke (revoked_bucket claim) (access_account nn) key in
      let r = env.performed t c in
      attempt-IsLawful
        ((provider_with env hardens).revoke_access (revoked_bucket claim) (access_account nn) key) _
        t (event-IsLawful r (called c r) t (refl, h))
        (after_revocation-IsLawful ba r (called c r ∷ t) (λ u e. inl (refl, e)))

  missing_claim :
      (missing : Bool) (ba : BucketAccess) (ref : ObjectReference) (e : GoError) (t : Trace)
      → is_not_found e ≡ missing
      → IsLawful (AccessNeeds marshal meta nn) (claim_read ref (err e) ∷ t) (
          if missing
          then let_go marshal unmarshal meta
              (cluster env)
              (resolving env)
              ba
              (claim_read ref (err e) ∷ t)
          else (err e, claim_read ref (err e) ∷ t))
  missing_claim true ba ref e t h = let_go-IsLawful ba _ (inl (inl (e, refl, h)))
  missing_claim false ba ref e t h = still-IsLawful _ _

  revoke_of-IsLawful :
      (ba : BucketAccess) (ref : ObjectReference) (r : Result GoError BucketClaim) (t : Trace)
      → Has (IsHeld marshal meta nn) t
      → IsLawful (AccessNeeds marshal meta nn) (claim_read ref r ∷ t) (
          revoke_of marshal unmarshal meta
            (cluster env)
            (resolving env)
            nn
            ba
            r
            (claim_read ref r ∷ t))
  unfolding revoke_of
  revoke_of-IsLawful ba ref (err e) t h = missing_claim (is_not_found e) ba ref e t refl
  revoke_of-IsLawful ba ref (ok claim) t h =
      let u : Trace = claim_read ref (ok claim) ∷ t in
      let place = sibling nn ba.credentials_secret_name in
      let secret = env.secret u place in
      attempt-IsLawful ((cluster env).get_secret place) _ u
        (event-IsLawful secret (secret_read place secret) u tt)
        (provided-IsLawful (IsHeld marshal meta nn) claim
          (revoke_from marshal unmarshal meta (cluster env) (resolving env) nn ba claim
            (revoked_key unmarshal nn secret))
          (secret_read place secret ∷ u) (inr (inr h))
          (λ found v held. revoke_from-IsLawful ba claim _ found v held))

  withdrawn_if_held :
      (held : Bool) (ba : BucketAccess) (t : Trace)
      → meta.contains_finalizer bucket_access_finalizer ba.finalizers ≡ held
      → (meta.contains_finalizer bucket_access_finalizer ba.finalizers ≡ true
          → Has (IsHeld marshal meta nn) t)
      → IsLawful (AccessNeeds marshal meta nn) t (
          if held
          then (attempt ((cluster env).get_claim (sibling nn ba.bucket_claim_name))
                >>= revoke_of marshal unmarshal meta (cluster env) (resolving env) nn ba)
              t
          else (ok done, t))
  withdrawn_if_held false ba t e h = still-IsLawful _ t
  withdrawn_if_held true ba t e h =
      let ref = sibling nn ba.bucket_claim_name in
      let r = env.claim t ref in
      attempt-IsLawful ((cluster env).get_claim ref) _ t (event-IsLawful r (claim_read ref r) t tt)
        (revoke_of-IsLawful ba ref r t (h e))

  pub withdraw-IsLawful :
      (ba : BucketAccess) (t : Trace)
      → (meta.contains_finalizer bucket_access_finalizer ba.finalizers ≡ true
          → Has (IsHeld marshal meta nn) t)
      → IsLawful
          (AccessNeeds marshal meta nn)
          t
          (withdraw marshal unmarshal meta (cluster env) (resolving env) nn ba t)
  unfolding withdraw
  withdraw-IsLawful ba t h = withdrawn_if_held _ ba t refl h
