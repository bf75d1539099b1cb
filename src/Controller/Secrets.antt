-- ===== src/Controller/Secrets.antt =====
-- internal/controller/bucketclaim_controller.go: the secret of a claim, written by one run of Reconcile
-- and read by the next.
pub mod Runs
use k8s_s3_bucket_operator.Prelude.{
  Bool, true, false, Option, some, [], ◌∷◌, ok, attempt, ◌>>=◌, Bool-cases, inl, inr, ◌≡◌, refl, ap,
  ◌∙◌, arith,
}
use k8s_s3_bucket_operator.Text.{Text, codes, ◌==◌, eq_iff, trim_space}
use k8s_s3_bucket_operator.Errors.{Go}
use k8s_s3_bucket_operator.Api.{
  Params, at_key, or_empty, insert, lookup, ObjectReference, BucketClaim, BucketClass,
}
use k8s_s3_bucket_operator.Provider.{Provider}
use k8s_s3_bucket_operator.Provisioning.{AccessCredentials, provision_bucket_and_grant_access}
use k8s_s3_bucket_operator.Controller.Kube.{Cluster, Meta, SecretObject}
use k8s_s3_bucket_operator.Controller.Notes.{is_bound, note_claim_provisioning}
use k8s_s3_bucket_operator.Controller.Claim.{
  key_in, fill_secret, credentials_name, note_start, with_credentials, with_provider,
}
use k8s_s3_bucket_operator.Controller.Access.Order.{lookup-insert}

lookup-insert_other :
    (k j v : Text) (m : Params) → (j == k) ≡ false → lookup k (insert j v m) ≡ lookup k m
unfolding lookup insert
lookup-insert_other k j v [] h = rw h refl
lookup-insert_other k j v ((i, w) ∷ m) h = elim (Bool-cases (i == j)) [
  | inl same ↦ ground (arith, h, same, eq_iff i j)
  | inr other ↦ elim (Bool-cases (i == k)) [
    | inl found ↦ rw (other, found) refl
    | inr missing ↦ rw (other, missing) (lookup-insert_other k j v m h)
  ]
]

abbrev filled : AccessCredentials → Params → Params
filled creds old = insert (codes "endpoint") creds.endpoint (
    insert (codes "bucketName") creds.bucket_name (
      insert (codes "accessSecretKey") creds.access_secret_key
        (insert (codes "accessKeyID") creds.access_key_id old)))

-- The keys of the secret are different.
distinct :
    ((codes "endpoint" == codes "accessKeyID") ≡ false)
    × ((codes "bucketName" == codes "accessKeyID") ≡ false)
    × ((codes "accessSecretKey" == codes "accessKeyID") ≡ false)
    × ((codes "endpoint" == codes "accessSecretKey") ≡ false)
    × ((codes "bucketName" == codes "accessSecretKey") ≡ false)
unfolding codes ◌==◌
distinct = (refl, refl, refl, refl, refl)

-- Every entry of the one is an entry of the other.
abbrev pub IsMerged : Params → Params → Type 0
IsMerged string_data found = (k v : Text) → lookup k string_data ≡ some v → lookup k found ≡ some v

filled_lookup :
    (creds : AccessCredentials) (old : Params)
    → (lookup (codes "accessKeyID") (filled creds old) ≡ some creds.access_key_id)
      × (lookup (codes "accessSecretKey") (filled creds old) ≡ some creds.access_secret_key)
filled_lookup creds old =
    let (d1, d2, d3, d4, d5) = distinct in
    let id = codes "accessKeyID" in
    let secret = codes "accessSecretKey" in
    let with_id = insert id creds.access_key_id old in
    let with_secret = insert secret creds.access_secret_key with_id in
    let with_bucket = insert (codes "bucketName") creds.bucket_name with_secret in
    (
      lookup-insert_other id (codes "endpoint") creds.endpoint with_bucket d1
          ∙ lookup-insert_other id (codes "bucketName") creds.bucket_name with_secret d2
          ∙ lookup-insert_other id secret creds.access_secret_key with_id d3
          ∙ lookup-insert id creds.access_key_id old,
      lookup-insert_other secret (codes "endpoint") creds.endpoint with_bucket d4
          ∙ lookup-insert_other secret (codes "bucketName") creds.bucket_name with_secret d5
          ∙ lookup-insert secret creds.access_secret_key with_id,
    )

pub fill_secret-key_in :
    (meta : Meta) (claim : BucketClaim) (creds : AccessCredentials) (old new : SecretObject)
    (found : Params)
    → ((s t : SecretObject)
        → meta.set_controller_reference claim s ≡ ok t
        → t.string_data ≡ s.string_data)
    → fill_secret meta claim creds old ≡ ok new
    → IsMerged new.string_data found
    → (key_in (codes "accessKeyID") (ok found) ≡ trim_space creds.access_key_id)
      × (key_in (codes "accessSecretKey") (ok found) ≡ trim_space creds.access_secret_key)
unfolding fill_secret at_key
fill_secret-key_in meta claim creds old new found owned h merged =
    let (id, secret) = filled_lookup creds old.string_data in
    let same = owned (record old { string_data = filled creds old.string_data }) new h in
    let at_id = merged _ _ (ap (lookup (codes "accessKeyID")) same ∙ id) in
    let at_secret = merged _ _ (ap (lookup (codes "accessSecretKey")) same ∙ secret) in
    (
      ap (λ (o : Option Text). trim_space (or_empty o)) at_id,
      ap (λ (o : Option Text). trim_space (or_empty o)) at_secret,
    )

module _ {W : Type 0} (quote : Text → Text) (meta : Meta) (kube : Cluster W)
    (resolve : BucketClass → Go W (Provider W)) (enable_cosi : Bool) (nn : ObjectReference) where
  note_start_lem :
      (bound : Bool) (w : W)
      → note_start quote meta kube resolve enable_cosi bound nn w
        ≡ (ok tt, (note_start quote meta kube resolve enable_cosi bound nn w).1)
  unfolding note_claim_provisioning
  note_start_lem true w = refl
  note_start_lem false w = refl

  -- Where the secret is answered with the keys, the run goes on with them.
  pub with_provider-fill_secret :
      (claim later : BucketClaim) (class : BucketClass) (mc : Provider W)
      (creds : AccessCredentials) (old new : SecretObject) (found : Params) (w w' : W)
      → ((s t : SecretObject)
          → meta.set_controller_reference claim s ≡ ok t
          → t.string_data ≡ s.string_data)
      → fill_secret meta claim creds old ≡ ok new
      → IsMerged new.string_data found
      → kube.get_secret
          (credentials_name later)
          (note_start quote meta kube resolve enable_cosi (is_bound meta later) nn w).1
        ≡ (ok found, w')
      → with_provider quote meta kube resolve enable_cosi nn later class (ok mc) w
        ≡ (do
          granted ← attempt (
              provision_bucket_and_grant_access mc later class
                (trim_space creds.access_key_id)
                (trim_space creds.access_secret_key))
          with_credentials quote meta kube resolve enable_cosi nn later class granted)
            w'
  unfolding with_provider ◌>>=◌
  with_provider-fill_secret claim later class mc creds old new found w w' owned h merged answered =
      let (id, secret) = fill_secret-key_in meta claim creds old new found owned h merged in
      rw (note_start_lem (is_bound meta later) w, answered, id, secret) refl
