-- ===== src/Controller/Access/Order.antt =====
-- Whole runs of the reconciler of `BucketAccess`es, and the order of their requests.
use k8s_s3_bucket_operator.Prelude.{
  Bool, true, false, not, ◌||◌, some, List, [], ◌∷◌, Result, ok, err, pure, if◌then◌else◌, inl, inr,
  ◌≡◌, refl, Bool-cases,
}
use k8s_s3_bucket_operator.Text.{Text, ◌==◌, eq_refl, trim_space, to_lower}
use k8s_s3_bucket_operator.Errors.{GoError, is_not_found}
use k8s_s3_bucket_operator.Api.{Params, lookup, insert, read_write, ObjectReference, BucketClaim}
use k8s_s3_bucket_operator.Provider.{Call}
use k8s_s3_bucket_operator.Controller.Kube.{Meta, done, BucketAccess}
use k8s_s3_bucket_operator.Controller.Trace.{
  claim_read, secret_read, secret_made, secret_changed, access_read, access_write, access_status,
  granted, Trace, Environment, cluster, provider_with, made, resolving,
}
use k8s_s3_bucket_operator.Controller.Lawful.{
  Has, Keeps, IsLawful, still-IsLawful, if-IsLawful, event-IsLawful, bind-IsLawful,
  attempt-IsLawful,
}
use k8s_s3_bucket_operator.Controller.Access.{
  bucket_access_finalizer, BucketInfo, bucket_info, document_key, access_account, is_unavailable,
  sibling, hold, upsert, with_document, with_granted, grant_by, grant_on, grant_once, with_access,
  reconcile_access,
}
use k8s_s3_bucket_operator.Controller.Access.Rules.{IsHeld, IsGrantIn, IsSaved, AccessNeeds}
use k8s_s3_bucket_operator.Controller.Access.Release.{provided-IsLawful, withdraw-IsLawful}

pub lookup-insert : (k v : Text) (m : Params) → lookup k (insert k v m) ≡ some v
unfolding lookup insert
lookup-insert k v [] = rw (eq_refl k) refl
lookup-insert k v ((j, w) ∷ m) = elim (Bool-cases (j == k)) [
  | inl same ↦ rw (same, eq_refl k) refl
  | inr other ↦ rw (other, other) (lookup-insert k v m)
]

module _ (marshal : BucketInfo → Result GoError Text) (unmarshal : Text → Text) (meta : Meta)
    (env : Environment) (nn : ObjectReference) where
  -- A lawful run, after which the secret is saved if it succeeded.
  abbrev Saves : Trace → Result GoError (Unit {0}) × Trace → Type 0
  Saves t run =
      IsLawful (AccessNeeds marshal meta nn) t run
      × ((u : Unit {0}) → run.0 ≡ ok u → Has (IsSaved marshal meta nn) run.1)

  made_if_missing :
      (missing : Bool) (ref : ObjectReference) (raw : Text) (e : GoError) (t : Trace)
      → Has (IsGrantIn marshal meta nn raw) t
      → Saves t (
          if missing
          then (cluster env).create_secret ref ((document_key, raw) ∷ []) t
          else (err e, t))
  unfolding insert
  made_if_missing true ref raw e t h =
      let entries : Params = (document_key, raw) ∷ [] in
      (
        event-IsLawful (env.accepted t) (secret_made ref entries (env.accepted t)) t
            (raw, lookup-insert document_key raw [], h),
        λ u saved. inl saved,
      )
  made_if_missing false ref raw e t h = (still-IsLawful (err e) t, λ u saved. cc)

  upsert-Saves :
      (ref : ObjectReference) (raw : Text) (existing : Result GoError Params) (t : Trace)
      → Has (IsGrantIn marshal meta nn raw) t
      → Saves t (upsert marshal unmarshal meta (cluster env) (resolving env) ref raw existing t)
  unfolding upsert
  upsert-Saves ref raw (err e) t h = made_if_missing (is_not_found e) ref raw e t h
  upsert-Saves ref raw (ok old) t h =
      let entries = insert document_key raw old in
      (
        event-IsLawful (env.accepted t) (secret_changed ref entries (env.accepted t)) t
            (raw, lookup-insert document_key raw old, h),
        λ u saved. inl saved,
      )

  with_document-IsLawful :
      (ba held : BucketAccess) (r : Result GoError Text) (t : Trace)
      → ((raw : Text) → r ≡ ok raw → Has (IsGrantIn marshal meta nn raw) t)
      → IsLawful
          (AccessNeeds marshal meta nn)
          t
          (with_document marshal unmarshal meta (cluster env) (resolving env) nn ba held r t)
  unfolding with_document
  with_document-IsLawful ba held (err e) t h = still-IsLawful _ t
  with_document-IsLawful ba held (ok raw) t h =
      let ref = sibling nn ba.credentials_secret_name in
      let existing = env.secret t ref in
      let u : Trace = secret_read ref existing ∷ t in
      let new = record held { access_granted = true; account_id = access_account nn } in
      let (lawful, saved) = upsert-Saves ref raw existing u (inr (h raw refl)) in
      attempt-IsLawful ((cluster env).get_secret ref) _ t
        (event-IsLawful existing (secret_read ref existing) t tt)
        (bind-IsLawful
          (upsert marshal unmarshal meta (cluster env) (resolving env) ref raw existing) _ u lawful
          (λ x e.
            let v =
              (upsert marshal unmarshal meta (cluster env) (resolving env) ref raw existing u).1 in
            bind-IsLawful ((cluster env).update_access_status new) (λ _. pure done) v
              (event-IsLawful (env.accepted v) (access_status new (env.accepted v)) v
                (refl, refl, saved x e))
              (λ _ _. still-IsLawful _ _)))

  granted-IsLawful :
      (ba held : BucketAccess) (bucket : Text) (r : Result GoError Params) (t : Trace)
      → IsLawful
          (AccessNeeds marshal meta nn)
          (granted bucket (access_account nn) read_write [] [] r ∷ t)
          (with_granted marshal unmarshal meta
            (cluster env)
            (resolving env)
            nn
            ba
            held
            r
            (granted bucket (access_account nn) read_write [] [] r ∷ t))
  unfolding with_granted
  granted-IsLawful ba held bucket (err e) t = still-IsLawful _ _
  granted-IsLawful ba held bucket (ok creds) t =
      with_document-IsLawful ba held (marshal (bucket_info creds)) _
        (λ raw e. inl (refl, (creds, refl, e)))

  grant_by-IsLawful :
      (ba held : BucketAccess) (bucket : Text) (r : Result GoError Bool) (t : Trace)
      → Has (IsHeld marshal meta nn) t
      → IsLawful (AccessNeeds marshal meta nn) t (
          grant_by marshal unmarshal meta
            (cluster env)
            (resolving env)
            nn
            ba
            held
            bucket
            (made env r)
            t)
  unfolding grant_by
  grant_by-IsLawful ba held bucket (err e) t h =
      if-IsLawful (is_unavailable e) _ _ t (still-IsLawful _ t)
        (if-IsLawful (is_not_found e) _ _ t (still-IsLawful _ t) (still-IsLawful _ t))
  grant_by-IsLawful ba held bucket (ok hardens) t h =
      let r = env.credentials t (Call.grant bucket (access_account nn) read_write [] []) in
      attempt-IsLawful
        ((provider_with env hardens).grant_access bucket (access_account nn) read_write [] []) _ t
        (event-IsLawful r (granted bucket (access_account nn) read_write [] [] r) t (refl, h))
        (granted-IsLawful ba held bucket r t)

  grant_on-IsLawful :
      (ba held : BucketAccess) (r : Result GoError BucketClaim) (t : Trace)
      → Has (IsHeld marshal meta nn) t
      → IsLawful
          (AccessNeeds marshal meta nn)
          t
          (grant_on marshal unmarshal meta (cluster env) (resolving env) nn ba held r t)
  unfolding grant_on
  grant_on-IsLawful ba held (err e) t h =
      if-IsLawful (is_not_found e) _ _ t (still-IsLawful _ t) (still-IsLawful _ t)
  grant_on-IsLawful ba held (ok claim) t h =
      let bucket = trim_space claim.status.bucket_name in
      if-IsLawful (not claim.status.bucket_ready || bucket == []) _ _ t (still-IsLawful _ t) (
        provided-IsLawful marshal unmarshal meta env nn (IsHeld marshal meta nn) claim
          (grant_by marshal unmarshal meta (cluster env) (resolving env) nn ba held
            (to_lower bucket))
          t h (λ found u p. grant_by-IsLawful ba held (to_lower bucket) found u p))

  grant_once-IsLawful :
      (ba held : BucketAccess) (t : Trace)
      → Has (IsHeld marshal meta nn) t
      → IsLawful
          (AccessNeeds marshal meta nn)
          t
          (grant_once marshal unmarshal meta (cluster env) (resolving env) nn ba held t)
  unfolding grant_once
  grant_once-IsLawful ba held t h =
      let ref = sibling nn ba.bucket_claim_name in
      let r = env.claim t ref in
      if-IsLawful ba.access_granted _ _ t (still-IsLawful _ t) (
        attempt-IsLawful ((cluster env).get_claim ref) _ t
          (event-IsLawful r (claim_read ref r) t tt) (grant_on-IsLawful ba held r _ (inr h)))

  -- A lawful run, after which the access that it returns has its finalizer.
  abbrev Holds : Trace → Result GoError BucketAccess × Trace → Type 0
  Holds t run =
      IsLawful (AccessNeeds marshal meta nn) t run
      × ((held : BucketAccess) → run.0 ≡ ok held → Has (IsHeld marshal meta nn) run.1)

  held_if_new :
      (added : (f : Text) (l : List Text)
        → meta.contains_finalizer f (meta.add_finalizer f l) ≡ true)
      (has : Bool) (ba : BucketAccess) (t : Trace)
      → meta.contains_finalizer bucket_access_finalizer ba.finalizers ≡ has
      → (meta.contains_finalizer bucket_access_finalizer ba.finalizers ≡ true
          → Has (IsHeld marshal meta nn) t)
      → Holds t (
          if has
          then (ok ba, t)
          else (cluster env).update_access
              (record ba { finalizers = meta.add_finalizer bucket_access_finalizer ba.finalizers })
              t)
  held_if_new added true ba t e h = (still-IsLawful (ok ba) t, λ _ _. h e)
  held_if_new added false ba t e h =
      let new = record ba {
        finalizers = meta.add_finalizer bucket_access_finalizer ba.finalizers;
      } in
      let r = env.access_updated t new in
      let has = added bucket_access_finalizer ba.finalizers in
      (event-IsLawful r (access_write new r) t (inl has), λ held ended. inl (held, ended, has))

  hold-Holds :
      (added : (f : Text) (l : List Text)
        → meta.contains_finalizer f (meta.add_finalizer f l) ≡ true)
      (ba : BucketAccess) (t : Trace)
      → (meta.contains_finalizer bucket_access_finalizer ba.finalizers ≡ true
          → Has (IsHeld marshal meta nn) t)
      → Holds t (hold marshal unmarshal meta (cluster env) (resolving env) ba t)
  unfolding hold
  hold-Holds added ba t h = held_if_new added _ ba t refl h

  with_access-IsLawful :
      (added : (f : Text) (l : List Text)
        → meta.contains_finalizer f (meta.add_finalizer f l) ≡ true)
      (r : Result GoError BucketAccess) (t : Trace)
      → IsLawful (AccessNeeds marshal meta nn) (access_read nn r ∷ t) (
          with_access marshal unmarshal meta
            (cluster env)
            (resolving env)
            nn
            r
            (access_read nn r ∷ t))
  unfolding with_access
  with_access-IsLawful added (err e) t =
      if-IsLawful (is_not_found e) _ _ _ (still-IsLawful _ _) (still-IsLawful _ _)
  with_access-IsLawful added (ok ba) t =
      let u : Trace = access_read nn (ok ba) ∷ t in
      let read = λ (h : meta.contains_finalizer bucket_access_finalizer ba.finalizers ≡ true).
        inl (ba, refl, h) in
      let (lawful, held) = hold-Holds added ba u read in
      if-IsLawful (ba.bucket_claim_name == [] || ba.credentials_secret_name == []) _ _ u
        (still-IsLawful _ u)
        (if-IsLawful ba.being_deleted _ _ u
          (withdraw-IsLawful marshal unmarshal meta env nn ba u read)
          (bind-IsLawful (hold marshal unmarshal meta (cluster env) (resolving env) ba) _ u lawful
            (λ new e. grant_once-IsLawful ba new _ (held new e))))

  -- Each run of Reconcile for an access keeps the rules `AccessNeeds`, in whatever way the API server,
  -- the resolver and the provider answer, if adding a finalizer to a list gives a list that contains
  -- it: the provider is asked for nothing but to grant and to revoke, for the access's own account and
  -- only when the access is in the cluster with its finalizer; the finalizer is taken away only after
  -- the provider revoked the account's access or the claim was not found; the secret is deleted only
  -- after the revocation; a secret is written only with a document that was made of credentials
  -- granted before; a status is written only as granted, for that account, after the secret was
  -- accepted; and claims and COSI buckets are never written.
  pub reconcile_access-Keeps :
      (added : (f : Text) (l : List Text)
        → meta.contains_finalizer f (meta.add_finalizer f l) ≡ true)
      → Keeps
          (AccessNeeds marshal meta nn)
          (reconcile_access marshal unmarshal meta (cluster env) (resolving env) nn []).1
  unfolding reconcile_access
  reconcile_access-Keeps added =
      let r = env.access [] nn in
      let lawful =
        attempt-IsLawful ((cluster env).get_access nn)
          (with_access marshal unmarshal meta (cluster env) (resolving env) nn) []
          (event-IsLawful r (access_read nn r) [] tt) (with_access-IsLawful added r []) in
      lawful.keeps tt
