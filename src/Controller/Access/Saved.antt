-- ===== src/Controller/Access/Saved.antt =====
-- The secret that a grant saves, and the key that the finalizer revokes.
use k8s_s3_bucket_operator.Prelude.{
  Bool, true, false, ◌&&◌, [], ◌∷◌, Result, ok, err, attempt, ◌>>=◌, bind-eq-ok, if_true, if_false,
  if◌then◌else◌, ◌≡◌, ◌≢◌, refl, sym, ap, subst, ◌∙◌, inl, inr, Bool-cases,
}
use k8s_s3_bucket_operator.Text.{Text, codes, ◌==◌, eq_iff, eq_refl, trim_space}
use k8s_s3_bucket_operator.Errors.{GoError, api_status, is_not_found}
use k8s_s3_bucket_operator.Api.{Params, at_key, insert, ObjectReference, BucketClaim}
use k8s_s3_bucket_operator.Controller.Kube.{Meta, Requeue, done, BucketAccess}
use k8s_s3_bucket_operator.Controller.Trace.{
  secret_made, secret_changed, secret_dropped, secret_read, Trace, Environment, cluster, resolving,
}
use k8s_s3_bucket_operator.Controller.Access.{
  BucketInfo, bucket_info, document_key, revoked_key, sibling, provider_for_claim, revoke_from,
  revoke_of, upsert, with_document, with_granted,
}
use k8s_s3_bucket_operator.Controller.Access.Order.{lookup-insert}

abbrev pub same : ObjectReference → ObjectReference → Bool
same r s = r.namespace == s.namespace && r.name == s.name

-- The entries of a secret after the accepted requests of a record, if its reconciler is the only one
-- that makes, changes or deletes it.
unfoldable pub read_back : ObjectReference → Trace → Result GoError Params
read_back ref [] = err (api_status true [])
read_back ref (secret_made r entries (ok u) ∷ t) =
    let before = read_back ref t in if same r ref then ok entries else before
read_back ref (secret_changed r entries (ok u) ∷ t) =
    let before = read_back ref t in if same r ref then ok entries else before
read_back ref (secret_dropped r (ok u) ∷ t) =
    let before = read_back ref t in if same r ref then err (api_status true []) else before
read_back ref (event ∷ t) = read_back ref t

pub same_refl : (r : ObjectReference) → same r r ≡ true
same_refl r = rw (eq_refl r.namespace, eq_refl r.name) refl

not_empty : (s : Text) → s ≢ [] → (s == []) ≡ false
not_empty s h = elim (Bool-cases (s == [])) [
  | inl empty ↦ absurd (h ((eq_iff s []).0 empty))
  | inr filled ↦ filled
]

module _ (marshal : BucketInfo → Result GoError Text) (unmarshal : Text → Text) (meta : Meta)
    (env : Environment) (ref : ObjectReference) (raw : Text) where
  made-read_back :
      (entries : Params) (t after : Trace) (r : Result GoError (Unit {0})) (u : Unit {0})
      → ◌≡◌ {A = Result GoError (Unit {0}) × Trace} (r, secret_made ref entries r ∷ t) (ok u, after)
      → read_back ref after ≡ ok entries
  unfolding read_back
  made-read_back entries t after r u h =
      let accepted : r ≡ ok u = ap (λ (x : Result GoError (Unit {0}) × Trace). x.0) h in
      let next : secret_made ref entries r ∷ t ≡ after =
        ap (λ (x : Result GoError (Unit {0}) × Trace). x.1) h in
      rw (← next, accepted) (if_true _ _ _ (same_refl ref))

  changed-read_back :
      (entries : Params) (t after : Trace) (r : Result GoError (Unit {0})) (u : Unit {0})
      → ◌≡◌ {A = Result GoError (Unit {0}) × Trace}
          (r, secret_changed ref entries r ∷ t)
          (ok u, after)
      → read_back ref after ≡ ok entries
  unfolding read_back
  changed-read_back entries t after r u h =
      let accepted : r ≡ ok u = ap (λ (x : Result GoError (Unit {0}) × Trace). x.0) h in
      let next : secret_changed ref entries r ∷ t ≡ after =
        ap (λ (x : Result GoError (Unit {0}) × Trace). x.1) h in
      rw (← next, accepted) (if_true _ _ _ (same_refl ref))

  -- Whatever was there before, the secret has the document.
  upsert-read_back :
      (existing : Result GoError Params) (t after : Trace) (u : Unit {0})
      → upsert marshal unmarshal meta (cluster env) (resolving env) ref raw existing t
        ≡ (ok u, after)
      → (entries : Params) × (read_back ref after ≡ ok (insert document_key raw entries))
  unfolding upsert insert
  upsert-read_back (err e) t after u h = elim (Bool-cases (is_not_found e)) [
    | inl missing ↦ ([], made-read_back _ t after _ u (sym (if_true _ _ _ missing) ∙ h))
    | inr failed ↦ absurd (cc (sym (if_false _ _ _ failed) ∙ h))
  ]
  upsert-read_back (ok entries) t after u h = (entries, changed-read_back _ t after _ u h)

  with_document-read_back :
      (nn : ObjectReference) (ba held : BucketAccess) (t after : Trace)
      → sibling nn ba.credentials_secret_name ≡ ref
      → with_document marshal unmarshal meta (cluster env) (resolving env) nn ba held (ok raw) t
        ≡ (ok done, after)
      → (entries : Params) × (read_back ref after ≡ ok (insert document_key raw entries))
  unfolding with_document read_back
  with_document-read_back nn ba held t after named h =
      let asked = bind-eq-ok _ _ t h in
      let saved = bind-eq-ok _ _ asked.between asked.second in
      let noted = bind-eq-ok _ _ saved.between saved.second in
      let stored =
        subst
          (λ (r : ObjectReference).
            upsert marshal unmarshal meta (cluster env) (resolving env) r raw asked.value
              asked.between
            ≡ (ok saved.value, saved.between))
          named saved.first in
      let (entries, back) =
        upsert-read_back asked.value asked.between saved.between saved.value stored in
      let status = ap (λ (x : Result GoError (Unit {0}) × Trace). read_back ref x.1) noted.first in
      let ended = ap (λ (x : Result GoError Requeue × Trace). read_back ref x.1) noted.second in
      (entries, sym ended ∙ sym status ∙ back)

module _ (marshal : BucketInfo → Result GoError Text) (unmarshal : Text → Text)
    (read : (info : BucketInfo) (raw : Text)
      → marshal info ≡ ok raw
      → unmarshal raw ≡ info.access_key_id)
    (meta : Meta) (env : Environment) (nn : ObjectReference) (creds : Params) where
  revoked_key-insert :
      (entries : Params) (raw : Text)
      → marshal (bucket_info creds) ≡ ok raw
      → trim_space (at_key creds (codes "accessKeyID")) ≢ []
      → revoked_key unmarshal nn (ok (insert document_key raw entries))
        ≡ trim_space (at_key creds (codes "accessKeyID"))
  unfolding revoked_key bucket_info
  revoked_key-insert entries raw made filled =
      rw (lookup-insert document_key raw entries, read (bucket_info creds) raw made)
        (if_false _ _ _ (not_empty _ filled))

  revoked_key-with_document :
      (ba held : BucketAccess) (r : Result GoError Text) (t after : Trace)
      → marshal (bucket_info creds) ≡ r
      → trim_space (at_key creds (codes "accessKeyID")) ≢ []
      → with_document marshal unmarshal meta (cluster env) (resolving env) nn ba held r t
        ≡ (ok done, after)
      → revoked_key unmarshal nn (read_back (sibling nn ba.credentials_secret_name) after)
        ≡ trim_space (at_key creds (codes "accessKeyID"))
  unfolding with_document
  revoked_key-with_document ba held (err e) t after made filled h = absurd (cc (h))
  revoked_key-with_document ba held (ok raw) t after made filled h =
      let (entries, back) =
        with_document-read_back marshal unmarshal meta env (sibling nn ba.credentials_secret_name)
          raw nn ba held t after refl h in
      ap (revoked_key unmarshal nn) back ∙ revoked_key-insert entries raw made filled

  -- If the reconciler of an access reports that it is done with granted credentials whose key is not
  -- blank, and if reading a document gives the key that it was made with: when the finalizer of the
  -- access finds the claim, and its secret is answered as the requests of that run left it, it goes on
  -- to revoke with the granted key, trimmed, whether the run had found a secret or none.
  pub revoke_of-with_granted :
      (ba held : BucketAccess) (t after : Trace)
      → trim_space (at_key creds (codes "accessKeyID")) ≢ []
      → with_granted marshal unmarshal meta (cluster env) (resolving env) nn ba held (ok creds) t
        ≡ (ok done, after)
      → (later : Environment) (claim : BucketClaim) (u : Trace)
      → later.secret u (sibling nn ba.credentials_secret_name)
        ≡ read_back (sibling nn ba.credentials_secret_name) after
      → revoke_of marshal unmarshal meta (cluster later) (resolving later) nn ba (ok claim) u
        ≡ (do
          found ←
              attempt
                (provider_for_claim marshal unmarshal meta (cluster later) (resolving later) claim)
          revoke_from marshal unmarshal meta
              (cluster later)
              (resolving later)
              nn
              ba
              claim
              (trim_space (at_key creds (codes "accessKeyID")))
              found)
            (secret_read
                (sibling nn ba.credentials_secret_name)
                (later.secret u (sibling nn ba.credentials_secret_name))
              ∷ u)
  unfolding revoke_of ◌>>=◌ with_granted
  revoke_of-with_granted ba held t after filled h later claim u held_still =
      let key =
        ap (revoked_key unmarshal nn) held_still
        ∙ revoked_key-with_document ba held (marshal (bucket_info creds)) t after refl filled h in
      ap
        (λ (k : Text).
          (do
            found ←
                attempt (
                  provider_for_claim marshal unmarshal meta (cluster later) (resolving later) claim)
            revoke_from marshal unmarshal meta (cluster later) (resolving later) nn ba claim k
                found)
            (secret_read (sibling nn ba.credentials_secret_name)
                (later.secret u (sibling nn ba.credentials_secret_name))
              ∷ u))
        key
