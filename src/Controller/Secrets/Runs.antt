-- ===== src/Controller/Secrets/Runs.antt =====
-- The secret of a claim between two runs of Reconcile.
use k8s_s3_bucket_operator.Prelude.{
  Bool, true, false, [], ◌∷◌, Result, ok, err, attempt, ◌>>=◌, bind-eq-ok, if_true, if◌then◌else◌,
  Bool-cases, inl, inr, ◌≡◌, refl, sym, ap, subst, ◌∙◌,
}
use k8s_s3_bucket_operator.Text.{Text, ◌==◌, trim_space}
use k8s_s3_bucket_operator.Errors.{GoError, is_not_found}
use k8s_s3_bucket_operator.Api.{Params, ObjectReference, BucketClaim, BucketClass}
use k8s_s3_bucket_operator.Provider.{Provider}
use k8s_s3_bucket_operator.Provisioning.{AccessCredentials, provision_bucket_and_grant_access}
use k8s_s3_bucket_operator.Controller.Kube.{Meta, Requeue, done, SecretObject, CosiBucket}
use k8s_s3_bucket_operator.Controller.Notes.{is_bound}
use k8s_s3_bucket_operator.Controller.Trace.{
  secret_read, secret_written, Trace, Environment, cluster, resolving, changed,
}
use k8s_s3_bucket_operator.Controller.Claim.{
  fill_secret, credentials_name, note_start, bind_claim, publish_if, publish_bucket,
  ensure_cosi_bucket, with_credentials, with_provider,
}
use k8s_s3_bucket_operator.Controller.Access.Saved.{same, same_refl}
use k8s_s3_bucket_operator.Controller.Secrets.{IsMerged, with_provider-fill_secret}

-- The StringData that was accepted last for a secret.
unfoldable pub filled_with : ObjectReference → Trace → Params
filled_with ref [] = []
filled_with ref (secret_written r (ok s) (ok u) ∷ t) =
    let before = filled_with ref t in if same r ref then s.string_data else before
filled_with ref (event ∷ t) = filled_with ref t

filling_ok :
    (r : Result GoError SecretObject) (accepted : Result GoError (Unit {0})) (u : Unit {0})
    → (elim r as (λ _. Result GoError (Unit {0})) [ ok secret ↦ accepted | err e ↦ err e ]) ≡ ok u
    → (s : SecretObject) × (r ≡ ok s)
filling_ok (ok s) accepted u h = (s, refl)
filling_ok (err e) accepted u h = cc

module _ (quote : Text → Text) (meta : Meta) (env : Environment) (enable_cosi : Bool)
    (ref : ObjectReference) where
  publish_bucket-filled_with :
      (name : Text) (claim : BucketClaim) (class : BucketClass) (r : Result GoError CosiBucket)
      (t : Trace)
      → filled_with ref
          (publish_bucket quote meta
            (cluster env)
            (resolving env)
            enable_cosi
            name
            claim
            class
            r
            t).1
        ≡ filled_with ref t
  unfolding publish_bucket filled_with
  publish_bucket-filled_with name claim class (ok b) t = refl
  publish_bucket-filled_with name claim class (err e) t = elim (Bool-cases (is_not_found e)) [
    | inl missing ↦ rw missing refl
    | inr failed ↦ rw failed refl
  ]

  publish_if-filled_with :
      (enabled : Bool) (claim : BucketClaim) (class : BucketClass) (t : Trace)
      → filled_with ref
          (publish_if quote meta (cluster env) (resolving env) enable_cosi enabled claim class t).1
        ≡ filled_with ref t
  unfolding ensure_cosi_bucket filled_with ◌>>=◌
  publish_if-filled_with false claim class t = refl
  publish_if-filled_with true claim class t =
      let name = trim_space claim.status.bucket_name in
      elim (Bool-cases (name == [])) [
        | inl unnamed ↦ rw unnamed refl
        | inr named ↦ rw named (publish_bucket-filled_with name claim class (env.bucket t name) _)
      ]

  bind_claim-filled_with :
      (nn : ObjectReference) (claim : BucketClaim) (class : BucketClass) (creds : AccessCredentials)
      (r : Result GoError (Unit {0})) (t after : Trace)
      → bind_claim quote meta (cluster env) (resolving env) enable_cosi nn claim class creds r t
        ≡ (ok done, after)
      → ((u : Unit {0}) × (r ≡ ok u)) × (filled_with ref after ≡ filled_with ref t)
  unfolding bind_claim filled_with
  bind_claim-filled_with nn claim class creds (err e) t after h =
      let noted = bind-eq-ok _ _ t h in absurd (cc (noted.second))
  bind_claim-filled_with nn claim class creds (ok u) t after h =
      let got = bind-eq-ok _ _ t h in
      let updated = bind-eq-ok _ _ got.between got.second in
      let published = bind-eq-ok _ _ updated.between updated.second in
      let e1 = ap (λ (x : Result GoError BucketClaim × Trace). filled_with ref x.1) got.first in
      let e2 = ap (λ (x : Result GoError BucketClaim × Trace). filled_with ref x.1) updated.first in
      let e3 =
        ap (λ (x : Result GoError (Unit {0}) × Trace). filled_with ref x.1) published.first in
      let e4 = ap (λ (x : Result GoError Requeue × Trace). filled_with ref x.1) published.second in
      let kept = publish_if-filled_with enable_cosi updated.value class updated.between in
      ((u, refl), sym e4 ∙ sym e3 ∙ kept ∙ sym e2 ∙ sym e1)

  written-filled_with :
      (s : Result GoError SecretObject) (r : Result GoError (Unit {0})) (t : Trace)
      (new : SecretObject) (u : Unit {0})
      → s ≡ ok new
      → r ≡ ok u
      → filled_with ref (secret_written ref s r ∷ t) ≡ new.string_data
  unfolding filled_with
  written-filled_with s r t new u e1 e2 = rw (e1, e2) (if_true _ _ _ (same_refl ref))

  -- A run that is done has filled the secret.
  with_credentials-filled_with :
      (nn : ObjectReference) (claim : BucketClaim) (class : BucketClass) (creds : AccessCredentials)
      (t after : Trace)
      → credentials_name claim ≡ ref
      → with_credentials quote meta
          (cluster env)
          (resolving env)
          enable_cosi
          nn
          claim
          class
          (ok creds)
          t
        ≡ (ok done, after)
      → (old new : SecretObject) × (fill_secret meta claim creds old ≡ ok new)
        × (filled_with ref after ≡ new.string_data)
  unfolding with_credentials
  with_credentials-filled_with nn claim class creds t after named h =
      let fill = fill_secret meta claim creds in
      let asked = bind-eq-ok _ _ t h in
      let ((u, accepted), kept) =
        bind_claim-filled_with nn claim class creds asked.value asked.between after asked.second in
      let old = env.stored t (credentials_name claim) in
      let answer = changed env (credentials_name claim) fill t in
      let same_answer : ok answer ≡ ok asked.value =
        ap (λ (x : Result GoError (Result GoError (Unit {0})) × Trace). x.0) asked.first in
      let answered : answer ≡ ok u = cc (same_answer, accepted) in
      let (new, made) = filling_ok (fill old) (env.accepted t) u answered in
      let written = written-filled_with (fill old) answer t new u made answered in
      let last =
        ap (λ (x : Result GoError (Result GoError (Unit {0})) × Trace). filled_with ref x.1)
          asked.first in
      (
        old,
        new,
        made,
        kept
            ∙ sym last
            ∙ ap (λ (r : ObjectReference). filled_with ref (secret_written r (fill old) answer ∷ t))
                named
            ∙ written,
      )

module _ (quote : Text → Text) (meta : Meta) (env next : Environment) (enable_cosi : Bool)
    (nn : ObjectReference) (claim later : BucketClaim) (class : BucketClass) where
  -- If a run of Reconcile, once granted credentials for a claim, is done, a later run for a claim of the
  -- same namespace and name that has a provider goes on to provision and grant with the same keys,
  -- trimmed, whatever the secret had before, if the secret is answered with every entry of the
  -- StringData that was accepted for it last, as the API server merges StringData into Data, and if
  -- setting the owner of a secret leaves its StringData alone.
  pub with_provider-with_credentials :
      (creds : AccessCredentials) (mc : Provider Trace) (found : Params) (t after u : Trace)
      → ((s s' : SecretObject)
          → meta.set_controller_reference claim s ≡ ok s'
          → s'.string_data ≡ s.string_data)
      → later.name ≡ claim.name
      → later.namespace ≡ claim.namespace
      → with_credentials quote meta
          (cluster env)
          (resolving env)
          enable_cosi
          nn
          claim
          class
          (ok creds)
          t
        ≡ (ok done, after)
      → IsMerged (filled_with (credentials_name claim) after) found
      → next.secret
          (note_start quote meta
            (cluster next)
            (resolving next)
            enable_cosi
            (is_bound meta later)
            nn
            u).1
          (credentials_name claim)
        ≡ ok found
      → with_provider quote meta
          (cluster next)
          (resolving next)
          enable_cosi
          nn
          later
          class
          (ok mc)
          u
        ≡ (do
          granted ← attempt (
              provision_bucket_and_grant_access mc later class
                (trim_space creds.access_key_id)
                (trim_space creds.access_secret_key))
          with_credentials quote meta
              (cluster next)
              (resolving next)
              enable_cosi
              nn
              later
              class
              granted)
            (secret_read (credentials_name claim) (ok found)
              ∷ (note_start quote meta
                  (cluster next)
                  (resolving next)
                  enable_cosi
                  (is_bound meta later)
                  nn
                  u).1)
  with_provider-with_credentials creds mc found t after u owned names namespaces h merged answered =
      let (old, new, made, filled) =
        with_credentials-filled_with quote meta env enable_cosi (credentials_name claim) nn claim
          class creds t after refl h in
      let same_name : credentials_name later ≡ credentials_name claim =
        rw (names, namespaces) refl in
      with_provider-fill_secret quote meta (cluster next) (resolving next) enable_cosi nn claim
        later class mc creds old new found u _ owned made
        (subst (λ (m : Params). IsMerged m found) filled merged) (rw (same_name, answered) refl)
