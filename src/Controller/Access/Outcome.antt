-- ===== src/Controller/Access/Outcome.antt =====
-- When the reconciler of `BucketAccess`es reports that it is done.
use k8s_s3_bucket_operator.Prelude.{
  Bool, true, false, not, ◌||◌, List, [], ◌∷◌, Result, ok, err, pure, if◌then◌else◌, ◌⊎◌, inl, inr,
  ◌≡◌, refl,
}
use k8s_s3_bucket_operator.Text.{Text, ◌==◌, trim_space, to_lower}
use k8s_s3_bucket_operator.Errors.{GoError, is_not_found}
use k8s_s3_bucket_operator.Api.{Params, read_write, ObjectReference, BucketClaim}
use k8s_s3_bucket_operator.Provider.{Provider}
use k8s_s3_bucket_operator.Controller.Kube.{Meta, done, BucketAccess}
use k8s_s3_bucket_operator.Controller.Trace.{
  Event, secret_read, access_read, access_write, access_status, Trace, Environment, cluster,
  resolving,
}
use k8s_s3_bucket_operator.Controller.Lawful.{Has}
use k8s_s3_bucket_operator.Controller.Reports.{Reports, if-Reports, bind-Reports, attempt-Reports}
use k8s_s3_bucket_operator.Controller.Access.{
  bucket_access_finalizer, BucketInfo, bucket_info, access_account, revoked_bucket, is_unavailable,
  sibling, provider_for_claim, let_go, dropping, after_revocation, revoke_from, revoke_of, withdraw,
  hold, upsert, with_document, with_granted, grant_by, grant_on, grant_once, with_access,
  reconcile_access,
}

module _ (meta : Meta) where
  -- The access is there, and there is nothing to do for it: its spec is incomplete, it is being
  -- deleted and others' finalizers are left at most, or it was granted.
  abbrev pub IsIdleIn : Result GoError BucketAccess → Type 0
  IsIdleIn r =
      (ba : BucketAccess) × (r ≡ ok ba)
      × ((ba.bucket_claim_name == [] || ba.credentials_secret_name == []) ≡ true
          ⊎ ((ba.being_deleted ≡ true)
              × (meta.contains_finalizer bucket_access_finalizer ba.finalizers ≡ false))
          ⊎ (ba.access_granted ≡ true))

  -- Nothing is left to do after this event: the access is not there or idle, the removal of its
  -- finalizer was accepted, or its status as granted was.
  abbrev pub IsAccessEnd : Event → Type 0
  IsAccessEnd (access_read nn r) =
      ((e : GoError) × (r ≡ err e) × (is_not_found e ≡ true)) ⊎ IsIdleIn r
  IsAccessEnd (access_write ba r) =
      (old : List Text) × (ba.finalizers ≡ meta.remove_finalizer bucket_access_finalizer old)
      × ((updated : BucketAccess) × (r ≡ ok updated))
  IsAccessEnd (access_status ba r) = (ba.access_granted ≡ true) × ((u : Unit {0}) × (r ≡ ok u))
  IsAccessEnd _ = ⊥

module _ (marshal : BucketInfo → Result GoError Text) (unmarshal : Text → Text) (meta : Meta)
    (env : Environment) (nn : ObjectReference) where
  let_go-Reports :
      (ba : BucketAccess) (t : Trace)
      → Reports
          (IsAccessEnd meta)
          (let_go marshal unmarshal meta (cluster env) (resolving env) ba t)
  unfolding let_go
  let_go-Reports ba t =
      let gone = record ba {
        finalizers = meta.remove_finalizer bucket_access_finalizer ba.finalizers;
      } in
      bind-Reports (IsAccessEnd meta) ((cluster env).update_access gone) (λ _. pure done) t
        (λ updated accepted _. inl (ba.finalizers, refl, (updated, accepted)))

  after_revocation-Reports :
      (ba : BucketAccess) (r : Result GoError (Unit {0})) (t : Trace)
      → Reports
          (IsAccessEnd meta)
          (after_revocation marshal unmarshal meta (cluster env) (resolving env) nn ba r t)
  unfolding after_revocation
  after_revocation-Reports ba (err e) t = λ h. cc
  after_revocation-Reports ba (ok u) t =
      bind-Reports (IsAccessEnd meta)
        (dropping marshal unmarshal meta (cluster env) (resolving env)
          (sibling nn ba.credentials_secret_name))
        _ t (λ _ _. let_go-Reports ba _)

  revoke_from-Reports :
      (ba : BucketAccess) (claim : BucketClaim) (key : Text)
      (found : Result GoError (Provider Trace)) (t : Trace)
      → Reports
          (IsAccessEnd meta)
          (revoke_from marshal unmarshal meta (cluster env) (resolving env) nn ba claim key found t)
  unfolding revoke_from
  revoke_from-Reports ba claim key (err e) t =
      if-Reports (IsAccessEnd meta) (is_unavailable e) _ _ (λ _ h. cc) (λ _ h. cc)
  revoke_from-Reports ba claim key (ok mc) t =
      attempt-Reports (IsAccessEnd meta)
        (mc.revoke_access (revoked_bucket claim) (access_account nn) key) _ t
        (after_revocation-Reports ba _ _)

  revoke_of-Reports :
      (ba : BucketAccess) (r : Result GoError BucketClaim) (t : Trace)
      → Reports
          (IsAccessEnd meta)
          (revoke_of marshal unmarshal meta (cluster env) (resolving env) nn ba r t)
  unfolding revoke_of
  revoke_of-Reports ba (err e) t =
      if-Reports (IsAccessEnd meta) (is_not_found e) _ _ (λ _. let_go-Reports ba t) (λ _ h. cc)
  revoke_of-Reports ba (ok claim) t =
      let ref = sibling nn ba.credentials_secret_name in
      attempt-Reports (IsAccessEnd meta) ((cluster env).get_secret ref) _ t (
        attempt-Reports (IsAccessEnd meta)
          (provider_for_claim marshal unmarshal meta (cluster env) (resolving env) claim) _
          (secret_read ref (env.secret t ref) ∷ t) (revoke_from-Reports ba claim _ _ _))

  withdraw-Reports :
      (ba : BucketAccess) (t : Trace)
      → (meta.contains_finalizer bucket_access_finalizer ba.finalizers ≡ false
          → Has (IsAccessEnd meta) t)
      → Reports
          (IsAccessEnd meta)
          (withdraw marshal unmarshal meta (cluster env) (resolving env) nn ba t)
  unfolding withdraw
  withdraw-Reports ba t left =
      if-Reports (IsAccessEnd meta) (meta.contains_finalizer bucket_access_finalizer ba.finalizers)
        _ _
        (λ _.
          attempt-Reports (IsAccessEnd meta)
            ((cluster env).get_claim (sibling nn ba.bucket_claim_name)) _ t
            (revoke_of-Reports ba _ _))
        (λ free _. left free)

  with_document-Reports :
      (ba held : BucketAccess) (r : Result GoError Text) (t : Trace)
      → Reports
          (IsAccessEnd meta)
          (with_document marshal unmarshal meta (cluster env) (resolving env) nn ba held r t)
  unfolding with_document
  with_document-Reports ba held (err e) t = λ h. cc
  with_document-Reports ba held (ok raw) t =
      let ref = sibling nn ba.credentials_secret_name in
      let existing = env.secret t ref in
      let new = record held { access_granted = true; account_id = access_account nn } in
      attempt-Reports (IsAccessEnd meta) ((cluster env).get_secret ref) _ t (
        bind-Reports (IsAccessEnd meta)
          (upsert marshal unmarshal meta (cluster env) (resolving env) ref raw existing) _
          (secret_read ref existing ∷ t)
          (λ _ _.
            bind-Reports (IsAccessEnd meta) ((cluster env).update_access_status new)
              (λ _. pure done) _ (λ u accepted _. inl (refl, (u, accepted)))))

  with_granted-Reports :
      (ba held : BucketAccess) (r : Result GoError Params) (t : Trace)
      → Reports
          (IsAccessEnd meta)
          (with_granted marshal unmarshal meta (cluster env) (resolving env) nn ba held r t)
  unfolding with_granted
  with_granted-Reports ba held (err e) t = λ h. cc
  with_granted-Reports ba held (ok creds) t =
      with_document-Reports ba held (marshal (bucket_info creds)) t

  grant_by-Reports :
      (ba held : BucketAccess) (bucket : Text) (found : Result GoError (Provider Trace)) (t : Trace)
      → Reports
          (IsAccessEnd meta)
          (grant_by marshal unmarshal meta (cluster env) (resolving env) nn ba held bucket found t)
  unfolding grant_by
  grant_by-Reports ba held bucket (err e) t =
      if-Reports (IsAccessEnd meta) (is_unavailable e) _ _ (λ _ h. cc)
        (λ _. if-Reports (IsAccessEnd meta) (is_not_found e) _ _ (λ _ h. cc) (λ _ h. cc))
  grant_by-Reports ba held bucket (ok mc) t =
      attempt-Reports (IsAccessEnd meta)
        (mc.grant_access bucket (access_account nn) read_write [] []) _ t
        (with_granted-Reports ba held _ _)

  grant_on-Reports :
      (ba held : BucketAccess) (r : Result GoError BucketClaim) (t : Trace)
      → Reports
          (IsAccessEnd meta)
          (grant_on marshal unmarshal meta (cluster env) (resolving env) nn ba held r t)
  unfolding grant_on
  grant_on-Reports ba held (err e) t =
      if-Reports (IsAccessEnd meta) (is_not_found e) _ _ (λ _ h. cc) (λ _ h. cc)
  grant_on-Reports ba held (ok claim) t =
      let bucket = trim_space claim.status.bucket_name in
      if-Reports (IsAccessEnd meta) (not claim.status.bucket_ready || bucket == []) _ _ (λ _ h. cc)
        (λ _.
          attempt-Reports (IsAccessEnd meta)
            (provider_for_claim marshal unmarshal meta (cluster env) (resolving env) claim) _ t
            (grant_by-Reports ba held (to_lower bucket) _ _))

  grant_once-Reports :
      (ba held : BucketAccess) (t : Trace)
      → (ba.access_granted ≡ true → Has (IsAccessEnd meta) t)
      → Reports
          (IsAccessEnd meta)
          (grant_once marshal unmarshal meta (cluster env) (resolving env) nn ba held t)
  unfolding grant_once
  grant_once-Reports ba held t given =
      if-Reports (IsAccessEnd meta) ba.access_granted _ _ (λ h _. given h)
        (λ _.
          attempt-Reports (IsAccessEnd meta)
            ((cluster env).get_claim (sibling nn ba.bucket_claim_name)) _ t
            (grant_on-Reports ba held _ _))

  kept_if_new :
      (has : Bool) (ba : BucketAccess) (t : Trace)
      → Has (IsAccessEnd meta) t
      → Has
          (IsAccessEnd meta)
          (if has
            then (ok ba, t)
            else (cluster env).update_access
                (record ba {
                  finalizers = meta.add_finalizer bucket_access_finalizer ba.finalizers;
                })
                t).1
  kept_if_new true ba t h = h
  kept_if_new false ba t h = inr h

  hold_keeps :
      (ba : BucketAccess) (t : Trace)
      → Has (IsAccessEnd meta) t
      → Has (IsAccessEnd meta) (hold marshal unmarshal meta (cluster env) (resolving env) ba t).1
  unfolding hold
  hold_keeps ba t h = kept_if_new _ ba t h

  with_access-Reports :
      (r : Result GoError BucketAccess) (t : Trace)
      → Reports (IsAccessEnd meta) (
          with_access marshal unmarshal meta
            (cluster env)
            (resolving env)
            nn
            r
            (access_read nn r ∷ t))
  unfolding with_access
  with_access-Reports (err e) t =
      if-Reports (IsAccessEnd meta) (is_not_found e) _ _ (λ h _. inl (inl (e, refl, h))) (λ _ h. cc)
  with_access-Reports (ok ba) t =
      let u : Trace = access_read nn (ok ba) ∷ t in
      if-Reports (IsAccessEnd meta) (ba.bucket_claim_name == [] || ba.credentials_secret_name == [])
        _ _ (λ bare _. inl (inr (ba, refl, inl bare)))
        (λ _.
          if-Reports (IsAccessEnd meta) ba.being_deleted _ _
            (λ dying. withdraw-Reports ba u (λ free. inl (inr (ba, refl, inr (inl (dying, free))))))
            (λ _.
              bind-Reports (IsAccessEnd meta)
                (hold marshal unmarshal meta (cluster env) (resolving env) ba) _ u
                (λ held _.
                  grant_once-Reports ba held _
                    (λ given. hold_keeps ba u (inl (inr (ba, refl, inr (inr given))))))))

  -- Reconcile reports that it is done with an access, so that nothing is tried again, only after one of
  -- these: the access was not found; it was read with an incomplete spec, or as being deleted without
  -- the operator's finalizer, or as granted; the removal of the finalizer was accepted; or a status as
  -- granted was accepted.
  pub reconcile_access_done :
      (reconcile_access marshal unmarshal meta (cluster env) (resolving env) nn []).0 ≡ ok done
      → Has
          (IsAccessEnd meta)
          (reconcile_access marshal unmarshal meta (cluster env) (resolving env) nn []).1
  unfolding reconcile_access
  reconcile_access_done h =
      attempt-Reports (IsAccessEnd meta) ((cluster env).get_access nn)
        (with_access marshal unmarshal meta (cluster env) (resolving env) nn) []
        (with_access-Reports (env.access [] nn) []) h
