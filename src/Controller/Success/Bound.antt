-- ===== src/Controller/Success/Bound.antt =====
-- Reconcile in an environment that accepts every request, once the provider is there.
use k8s_s3_bucket_operator.Prelude.{
  Bool, true, false, [], ◌∷◌, Result, ok, err, pure, continue, attempt, ◌>>=◌, ◌>>◌, if◌then◌else◌,
  ◌⊎◌, inl, inr, ◌≡◌, refl, subst, Bool-cases,
}
use k8s_s3_bucket_operator.Text.{Text, codes, ◌==◌, trim_space}
use k8s_s3_bucket_operator.Errors.{GoError, Go, is_not_found}
use k8s_s3_bucket_operator.Api.{ObjectReference, BucketClaim, BucketClass}
use k8s_s3_bucket_operator.Provisioning.{AccessCredentials, provision_bucket_and_grant_access}
use k8s_s3_bucket_operator.Controller.Kube.{Meta, Requeue, done, SecretObject, CosiBucket}
use k8s_s3_bucket_operator.Controller.Notes.{is_bound, note_claim_provisioning}
use k8s_s3_bucket_operator.Controller.Claim.{
  key_in, fill_secret, credentials_name, bound_claim, publish_bucket, ensure_cosi_bucket,
  publish_if, bind_claim, with_credentials, note_start, with_provider,
}
use k8s_s3_bucket_operator.Controller.Trace.{
  Event, claim_read, claim_write, status_write, secret_read, bucket_read, Trace, Environment,
  cluster, changed, provider_with, made, resolving,
}
use k8s_s3_bucket_operator.Controller.Lawful.{Has, Has-run}
use k8s_s3_bucket_operator.Controller.Protocol.{IsBoundWrite}
use k8s_s3_bucket_operator.Controller.Protocol.Binding.{publish_if-IsLawful, bound_phase}
use k8s_s3_bucket_operator.Controller.Outcome.{IsSettledIn}
use k8s_s3_bucket_operator.Controller.Success.{IsAccepting, Works}
use k8s_s3_bucket_operator.Controller.Success.Provisioned.{provision-Works}

-- The claim was bound already, or its status of success was accepted.
abbrev pub IsGood : Meta → Event → Type 0
IsGood meta (claim_read nn r) = IsSettledIn r
IsGood meta (claim_write claim r) = IsSettledIn r
IsGood meta (status_write claim r) = IsBoundWrite meta (status_write claim r)
IsGood meta _ = ⊥

module _ (quote : Text → Text) (meta : Meta) (nn : ObjectReference) (env : Environment)
    (accepting : IsAccepting meta nn env) (enable_cosi : Bool) where
  abbrev pub Succeeds : Result GoError Requeue × Trace → Type 0
  Succeeds run = (run.0 ≡ ok done) × Has (IsGood meta) run.1

  continue-Succeeds :
      {A : Type 0} (f : A → Go Trace Requeue) (run : Result GoError A × Trace)
      → ((a : A) × (run.0 ≡ ok a))
      → ((a : A) → run.0 ≡ ok a → Succeeds (f a run.1))
      → Succeeds (continue f run.1 run.0)
  continue-Succeeds f (ok c, u) (a, e) k = k c refl
  continue-Succeeds f (err d, u) (a, e) k = cc

  pub bind-Succeeds :
      {A : Type 0} (m : Go Trace A) (f : A → Go Trace Requeue) (t : Trace)
      → ((a : A) × ((m t).0 ≡ ok a))
      → ((a : A) → (m t).0 ≡ ok a → Succeeds (f a (m t).1))
      → Succeeds ((m >>= f) t)
  unfolding ◌>>=◌
  bind-Succeeds m f t w k = continue-Succeeds f (m t) w k

  pub attempt-Succeeds :
      {A : Type 0} (m : Go Trace A) (f : Result GoError A → Go Trace Requeue) (t : Trace)
      → Succeeds (f (m t).0 (m t).1)
      → Succeeds ((attempt m >>= f) t)
  unfolding ◌>>=◌
  attempt-Succeeds m f t k = k

  pub if-Succeeds :
      (b : Bool) (x y : Result GoError Requeue × Trace)
      → (b ≡ true → Succeeds x)
      → (b ≡ false → Succeeds y)
      → Succeeds (if b then x else y)
  if-Succeeds true x y hx hy = hx refl
  if-Succeeds false x y hx hy = hy refl

  published_works :
      (name : Text) (claim : BucketClaim) (class : BucketClass) (r : Result GoError CosiBucket)
      (t : Trace)
      → ((b : CosiBucket) × (r ≡ ok b)) ⊎ ((e : GoError) × (r ≡ err e) × (is_not_found e ≡ true))
      → (u : Unit {0}) × ((publish_bucket quote meta
            (cluster env)
            (resolving env)
            enable_cosi
            name
            claim
            class
            r
            t).0
          ≡ ok u)
  unfolding publish_bucket
  published_works name claim class (ok b) t h = (tt, accepting.accepted t)
  published_works name claim class (err e) t (inl (b, h)) = cc
  published_works name claim class (err e) t (inr (d, h, missing)) =
      let same : d ≡ e = cc in
      let absent = subst (λ x. is_not_found x ≡ true) same missing in
      (tt, rw absent (accepting.accepted t))

  ensure_cosi_bucket-Works :
      (claim : BucketClaim) (class : BucketClass)
      → Works (ensure_cosi_bucket quote meta (cluster env) (resolving env) enable_cosi claim class)
  unfolding ensure_cosi_bucket ◌>>=◌
  ensure_cosi_bucket-Works claim class t =
      let name = trim_space claim.status.bucket_name in
      elim (Bool-cases (name == [])) [
        | inl empty ↦ (tt, rw empty refl)
        | inr named ↦
            let (u, h) =
              published_works name claim class (env.bucket t name)
                (bucket_read name (env.bucket t name) ∷ t) (accepting.bucket t name) in
            (u, rw named h)
      ]

  publish_if-Works :
      (wanted : Bool) (claim : BucketClaim) (class : BucketClass)
      → Works (publish_if quote meta (cluster env) (resolving env) enable_cosi wanted claim class)
  publish_if-Works true claim class t = ensure_cosi_bucket-Works claim class t
  publish_if-Works false claim class t = (tt, refl)

  bound-Succeeds :
      (claim : BucketClaim) (class : BucketClass) (creds : AccessCredentials) (t : Trace)
      → Succeeds (
          ((cluster env).get_claim nn >>= λ current.
          (cluster env).update_claim_status
            (bound_claim quote meta (credentials_name claim) creds current)
          >>= λ bound.
              publish_if quote meta
                (cluster env)
                (resolving env)
                enable_cosi
                enable_cosi
                bound
                class
              >> pure done)
            t)
  bound-Succeeds claim class creds t =
      let (c, here, alive) = accepting.claim t in
      bind-Succeeds ((cluster env).get_claim nn) _ t (c, here)
        (λ current _.
          let written = bound_claim quote meta (credentials_name claim) creds current in
          let u : Trace = claim_read nn (env.claim t nn) ∷ t in
          bind-Succeeds ((cluster env).update_claim_status written) _ u
            (accepting.status_updated u written)
            (λ bound accepted.
              let v : Trace = status_write written (env.status_updated u written) ∷ u in
              let wrote : IsBoundWrite meta (status_write written (env.status_updated u written)) =
                (bound_phase quote meta env enable_cosi claim current creds, (bound, accepted)) in
              bind-Succeeds
                (publish_if quote meta (cluster env) (resolving env) enable_cosi enable_cosi bound
                  class)
                _ v (publish_if-Works enable_cosi bound class v)
                (λ _ _. (
                  refl,
                  Has-run (IsGood meta) v _
                      (publish_if-IsLawful quote meta env enable_cosi enable_cosi bound class v
                        (inl wrote))
                      (inl wrote),
                ))))

  stored_ok :
      (r : Result GoError SecretObject) (t : Trace)
      → ((s : SecretObject) × (r ≡ ok s))
      → elim r as (λ _. Result GoError (Unit {0})) [ ok secret ↦ env.accepted t | err e ↦ err e ]
        ≡ ok tt
  stored_ok (ok s) t h = accepting.accepted t
  stored_ok (err e) t (s, h) = cc

  bind_claim-Succeeds :
      (claim : BucketClaim) (class : BucketClass) (creds : AccessCredentials)
      (r : Result GoError (Unit {0})) (t : Trace)
      → r ≡ ok tt
      → Succeeds
          (bind_claim quote meta (cluster env) (resolving env) enable_cosi nn claim class creds r t)
  unfolding bind_claim
  bind_claim-Succeeds claim class creds (ok u) t h = bound-Succeeds claim class creds t
  bind_claim-Succeeds claim class creds (err e) t h = cc

  filled :
      (claim : BucketClaim) (creds : AccessCredentials) (old : SecretObject)
      → (s : SecretObject) × (fill_secret meta claim creds old ≡ ok s)
  unfolding fill_secret
  filled claim creds old = accepting.owned claim _

  with_credentials-Succeeds :
      (claim : BucketClaim) (class : BucketClass) (r : Result GoError AccessCredentials) (t : Trace)
      → ((creds : AccessCredentials) × (r ≡ ok creds))
      → Succeeds
          (with_credentials quote meta (cluster env) (resolving env) enable_cosi nn claim class r t)
  unfolding with_credentials
  with_credentials-Succeeds claim class (err e) t (creds, h) = cc
  with_credentials-Succeeds claim class (ok creds) t h =
      let ref = credentials_name claim in
      let fill = fill_secret meta claim creds in
      attempt-Succeeds ((cluster env).create_or_update_secret ref fill) _ t (
        bind_claim-Succeeds claim class creds (changed env ref fill t) _
          (stored_ok (fill (env.stored t ref)) t (filled claim creds (env.stored t ref))))

  note_start-Works :
      (bound : Bool)
      → Works (note_start quote meta (cluster env) (resolving env) enable_cosi bound nn)
  unfolding note_claim_provisioning
  note_start-Works true t = (tt, refl)
  note_start-Works false t = (tt, refl)

  pub with_provider-Succeeds :
      (claim : BucketClaim) (class : BucketClass) (r : Result GoError Bool) (t : Trace)
      → ((hardens : Bool) × (r ≡ ok hardens))
      → Succeeds (
          with_provider quote meta
            (cluster env)
            (resolving env)
            enable_cosi
            nn
            claim
            class
            (made env r)
            t)
  unfolding with_provider
  with_provider-Succeeds claim class (err e) t (hardens, h) = cc
  with_provider-Succeeds claim class (ok hardens) t h =
      let note =
        note_start quote meta (cluster env) (resolving env) enable_cosi (is_bound meta claim) nn in
      let ref = credentials_name claim in
      bind-Succeeds note _ t (note_start-Works (is_bound meta claim) t) (λ _ _.
        let u = (note t).1 in
        let secret = env.secret u ref in
        let provisioning =
          provision_bucket_and_grant_access (provider_with env hardens) claim class
            (key_in (codes "accessKeyID") secret) (key_in (codes "accessSecretKey") secret) in
        attempt-Succeeds ((cluster env).get_secret ref) _ u (
          attempt-Succeeds provisioning _ (secret_read ref secret ∷ u) (
            with_credentials-Succeeds claim class _ _ (
              provision-Works meta nn env accepting hardens claim class _ _
                (secret_read ref secret ∷ u)))))
