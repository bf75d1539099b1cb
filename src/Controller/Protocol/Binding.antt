-- ===== src/Controller/Protocol/Binding.antt =====
-- Storing the credentials, binding a claim and publishing its bucket, as runs over a trace.
use k8s_s3_bucket_operator.Prelude.{
  Bool, true, false, [], ◌∷◌, Result, ok, err, pure, ◌>>=◌, ◌>>◌, bind-eq-ok, inl, inr, ◌≡◌, refl,
  subst,
}
use k8s_s3_bucket_operator.Text.{Text, codes, ◌==◌, trim_space}
use k8s_s3_bucket_operator.Errors.{GoError, grant_access, is_not_found}
use k8s_s3_bucket_operator.Api.{Params, ObjectReference, BucketClaim, BucketClass}
use k8s_s3_bucket_operator.Provider.{Call}
use k8s_s3_bucket_operator.Provisioning.{
  AccessCredentials, account_id, labelled, complete, create_bucket_and_configure, grant,
  provision_bucket_and_grant_access,
}
use k8s_s3_bucket_operator.Controller.Kube.{Meta, done, CosiBucket}
use k8s_s3_bucket_operator.Controller.Claim.{
  credentials_name, bound_claim, cosi_bucket, publish_bucket, ensure_cosi_bucket, publish_if,
}
use k8s_s3_bucket_operator.Controller.Trace.{
  Event, claim_read, status_write, bucket_read, bucket_made, bucket_status, granted, Trace,
  Environment, cluster, provider_with, resolving,
}
use k8s_s3_bucket_operator.Controller.Lawful.{
  Has, IsLawful, still-IsLawful, if-IsLawful, event-IsLawful, bind-IsLawful, attempt-IsLawful,
}
use k8s_s3_bucket_operator.Controller.Protocol.{IsGrantOf, IsStored, IsEarned, IsBoundWrite, Needs}

labelled_ok :
    (bucket : Text) (r : Result GoError Params) (params : Params)
    → labelled grant_access bucket r ≡ ok params
    → r ≡ ok params
labelled_ok bucket (ok p) params h = h
labelled_ok bucket (err e) params h = cc

pub provisioned_grant :
    (env : Environment) (hardens : Bool) (claim : BucketClaim) (class : BucketClass)
    (key secret : Text) (creds : AccessCredentials) (t u : Trace)
    → provision_bucket_and_grant_access (provider_with env hardens) claim class key secret t
      ≡ (ok creds, u)
    → Has (IsGrantOf creds) u
unfolding provision_bucket_and_grant_access grant
provisioned_grant env hardens claim class key secret creds t u h =
    let mc = provider_with env hardens in
    let made =
      bind-eq-ok (create_bucket_and_configure mc claim class)
        (λ bucket. grant mc claim bucket key secret) t h in
    let account = account_id claim in
    let r =
      env.credentials made.between
        (Call.grant made.value account claim.spec.access_type key secret) in
    let last : Event = granted made.value account claim.spec.access_type key secret r in
    let given =
      bind-eq-ok
        (λ w. (
          labelled grant_access made.value
              (env.credentials w (Call.grant made.value account claim.spec.access_type key secret)),
          granted made.value account claim.spec.access_type key secret (
                env.credentials w (Call.grant made.value account claim.spec.access_type key secret))
              ∷ w,
        ))
        (λ params w. (complete made.value params, w)) made.between made.second in
    let grown : ◌≡◌ {A = Trace} (last ∷ made.between) u = cc (given.first, given.second) in
    subst (Has (IsGrantOf creds)) grown (
      inl (given.value, labelled_ok made.value r given.value (cc (given.first)), cc (given.second)))

module _ (quote : Text → Text) (meta : Meta) (env : Environment) (enable_cosi : Bool) where
  published-IsLawful :
      (name : Text) (claim : BucketClaim) (class : BucketClass) (found : Result GoError CosiBucket)
      (t : Trace)
      → Has (IsBoundWrite meta) t
      → IsLawful (Needs meta) t (
          publish_bucket quote meta
            (cluster env)
            (resolving env)
            enable_cosi
            name
            claim
            class
            found
            t)
  unfolding publish_bucket
  published-IsLawful name claim class (ok bucket) t h =
      event-IsLawful (env.accepted t) (bucket_status _ (env.accepted t)) t h
  published-IsLawful name claim class (err e) t h =
      if-IsLawful (is_not_found e) _ _ t
        (event-IsLawful (env.accepted t)
          (bucket_made (cosi_bucket name claim class) (env.accepted t)) t h)
        (still-IsLawful (err e) t)

  ensure_cosi_bucket-IsLawful :
      (claim : BucketClaim) (class : BucketClass) (t : Trace)
      → Has (IsBoundWrite meta) t
      → IsLawful
          (Needs meta)
          t
          (ensure_cosi_bucket quote meta (cluster env) (resolving env) enable_cosi claim class t)
  unfolding ensure_cosi_bucket
  ensure_cosi_bucket-IsLawful claim class t h =
      let name = trim_space claim.status.bucket_name in
      if-IsLawful (name == []) _ _ t (still-IsLawful (ok tt) t) (
        attempt-IsLawful ((cluster env).get_bucket name) _ t
          (event-IsLawful (env.bucket t name) (bucket_read name (env.bucket t name)) t tt)
          (published-IsLawful name claim class _ _ (inr h)))

  pub publish_if-IsLawful :
      (wanted : Bool) (claim : BucketClaim) (class : BucketClass) (t : Trace)
      → Has (IsBoundWrite meta) t
      → IsLawful
          (Needs meta)
          t
          (publish_if quote meta (cluster env) (resolving env) enable_cosi wanted claim class t)
  publish_if-IsLawful true claim class t h = ensure_cosi_bucket-IsLawful claim class t h
  publish_if-IsLawful false claim class t h = still-IsLawful _ t

  bound-IsEarned :
      (claim current : BucketClaim) (creds : AccessCredentials) (t : Trace)
      → Has (IsGrantOf creds) t
      → Has (IsStored meta creds) t
      → IsEarned meta (bound_claim quote meta (credentials_name claim) creds current) t
  unfolding bound_claim
  bound-IsEarned claim current creds t g stored = record {
    creds = creds;
    phase = refl;
    bucket = refl;
    endpoint = refl;
    was_granted = g;
    was_stored = stored;
  }

  pub bound_phase :
      (claim current : BucketClaim) (creds : AccessCredentials)
      → (bound_claim quote meta (credentials_name claim) creds current).status.phase ≡ codes "Bound"
  unfolding bound_claim
  bound_phase claim current creds = refl

  -- The steps of `bind_claim` for stored credentials.
  pub bound-IsLawful :
      (nn : ObjectReference) (claim : BucketClaim) (class : BucketClass) (creds : AccessCredentials)
      (t : Trace)
      → Has (IsGrantOf creds) t
      → Has (IsStored meta creds) t
      → IsLawful (Needs meta) t (
          ((cluster env).get_claim nn >>= λ current.
          (cluster env).update_claim_status
            (bound_claim quote meta (credentials_name claim) creds current)
          >>= λ bound.
              publish_if quote meta
                (cluster env)
                (resolving env)
                enable_cosi
                enable_cosi
                bound
                class
              >> pure done)
            t)
  bound-IsLawful nn claim class creds t g stored =
      bind-IsLawful ((cluster env).get_claim nn) _ t
        (event-IsLawful (env.claim t nn) (claim_read nn (env.claim t nn)) t tt)
        (λ current _.
          let written = bound_claim quote meta (credentials_name claim) creds current in
          let u : Trace = claim_read nn (env.claim t nn) ∷ t in
          bind-IsLawful ((cluster env).update_claim_status written) _ u
            (event-IsLawful (env.status_updated u written)
              (status_write written (env.status_updated u written)) u
              (inl (bound-IsEarned claim current creds u (inr g) (inr stored))))
            (λ bound accepted.
              bind-IsLawful
                (publish_if quote meta (cluster env) (resolving env) enable_cosi enable_cosi bound
                  class)
                _ _
                (publish_if-IsLawful enable_cosi bound class _
                  (inl (bound_phase claim current creds, (bound, accepted))))
                (λ _ _. still-IsLawful _ _)))
