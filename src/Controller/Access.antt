-- ===== src/Controller/Access.antt =====
-- internal/controller/bucketaccess_controller.go: reconciling COSI's `BucketAccess`. Logging is left
-- out.
pub mod Rules
pub mod Release
pub mod Order
pub mod Documents
pub mod Saved
pub mod Outcome
use k8s_s3_bucket_operator.Prelude.{
  ◌++◌, ℕ, leb, ◌&&◌, Bool, true, false, ◌||◌, not, Option, none, some, List, [], ◌∷◌, take, Result,
  ok, err, pure, attempt, ◌>>=◌, ◌>>◌, if◌then◌else◌,
}
use k8s_s3_bucket_operator.Text.{Text, codes, ◌==◌, trim_space, to_lower, contains, dashed}
use k8s_s3_bucket_operator.Errors.{GoError, Go, message, is_not_found, is_not_implemented}
use k8s_s3_bucket_operator.Api.{
  Params, at_key, lookup, insert, read_write, ObjectReference, BucketClaim, BucketClass,
}
use k8s_s3_bucket_operator.Provider.{Provider}
use k8s_s3_bucket_operator.Controller.Kube.{Requeue, done, after, BucketAccess, Cluster, Meta}

abbrev pub bucket_access_finalizer : Text
bucket_access_finalizer = codes "cosi.objectstorage.k8s.io/bucketaccess-finalizer"

-- The bytes that `nonAlnumForAccessKey` does not match.
unfoldable pub is_key_byte : ℕ → Bool
is_key_byte c =
    (leb b'a' c && leb c b'z') || (leb b'A' c && leb c b'Z') || (leb b'0' c && leb c b'9')

-- nonAlnumForAccessKey.ReplaceAllString(s, "")
unfoldable pub key_bytes : Text → Text
key_bytes [] = []
key_bytes (c ∷ s) = let rest = key_bytes s in if is_key_byte c then c ∷ rest else rest

-- This file's own `accessKeyForAccount`.
unfoldable pub default_access_key : Text → Text
default_access_key account =
    let normalized = take 12 (to_lower (key_bytes account)) in
    codes "cosi" ++ (if normalized == [] then codes "user" else normalized)

-- fmt.Sprintf("%s-%s", req.Namespace, req.Name)
abbrev pub access_account : ObjectReference → Text
access_account nn = dashed nn.namespace nn.name

-- The name that the finalizer takes for the bucket.
unfoldable pub revoked_bucket : BucketClaim → Text
revoked_bucket claim =
    let bound = trim_space claim.status.bucket_name in
    let named = trim_space claim.spec.bucket_name in
    to_lower (
      if bound == []
      then (if named == [] then dashed claim.namespace claim.name else named)
      else bound)

-- What the secret's document says.
pub record BucketInfo : Type 0 where
  pub access_key_id : Text
  pub access_secret_key : Text
  pub endpoint : Option Text

unfoldable pub bucket_info : Params → BucketInfo
bucket_info creds =
    let endpoint = trim_space (at_key creds (codes "endpoint")) in
    record {
      access_key_id = at_key creds (codes "accessKeyID");
      access_secret_key = at_key creds (codes "accessSecretKey");
      endpoint = if endpoint == [] then none else some endpoint;
    }

abbrev pub document_key : Text
document_key = codes "BucketInfo"

abbrev key_of : (Text → Text) → Option Text → Text
key_of unmarshal none = []
key_of unmarshal (some raw) = trim_space (unmarshal raw)

-- The key of the secret, if it can be read.
abbrev stored_key : (Text → Text) → Result GoError Params → Text
stored_key unmarshal (err e) = []
stored_key unmarshal (ok entries) = key_of unmarshal (lookup document_key entries)

-- The key that the finalizer revokes.
unfoldable pub revoked_key : (Text → Text) → ObjectReference → Result GoError Params → Text
revoked_key unmarshal nn secret =
    let key = stored_key unmarshal secret in
    if key == [] then default_access_key (access_account nn) else key

-- No back end for now.
abbrev pub is_unavailable : GoError → Bool
is_unavailable e = is_not_implemented e || contains (message e) (codes "unsupported backend")

abbrev pub sibling : ObjectReference → Text → ObjectReference
sibling nn name = record { name = name; namespace = nn.namespace }

-- `resolve` is ProviderForClass of the resolver, `marshal` is json.Marshal of the document, and
-- `unmarshal` is the spec.s3.accessKeyID that json.Unmarshal finds in one, "" if there is none.
module _ {W : Type 0} (marshal : BucketInfo → Result GoError Text) (unmarshal : Text → Text)
    (meta : Meta) (kube : Cluster W) (resolve : BucketClass → Go W (Provider W)) where
  -- `providerForClaim`
  unfoldable pub provider_for_claim : BucketClaim → Go W (Provider W)
  provider_for_claim claim = do class ← kube.get_class claim.spec.bucket_class_name; resolve class

  -- The finalizer is taken away.
  unfoldable pub let_go : BucketAccess → Go W Requeue
  let_go ba = do
    updated ←
        kube.update_access
          (record ba { finalizers = meta.remove_finalizer bucket_access_finalizer ba.finalizers })
    pure done

  abbrev pub dropping : ObjectReference → Go W (Unit {0})
  dropping secret w = let (_, w') = kube.delete_secret secret w in (ok tt, w')

  unfoldable pub after_revocation :
      ObjectReference → BucketAccess → Result GoError (Unit {0}) → Go W Requeue
  after_revocation nn ba (err e) w = (ok (after 5), w)
  after_revocation nn ba (ok revoked) w =
      (do dropping (sibling nn ba.credentials_secret_name); let_go ba) w

  unfoldable pub revoke_from :
      ObjectReference
      → BucketAccess
      → BucketClaim
      → Text
      → Result GoError (Provider W)
      → Go W Requeue
  revoke_from nn ba claim key (err e) w =
      if is_unavailable e then (ok (after 15), w) else (err e, w)
  revoke_from nn ba claim key (ok mc) w =
      (do
        revoked ← attempt (mc.revoke_access (revoked_bucket claim) (access_account nn) key)
        after_revocation nn ba revoked)
        w

  unfoldable pub revoke_of :
      ObjectReference → BucketAccess → Result GoError BucketClaim → Go W Requeue
  revoke_of nn ba (err e) w = if is_not_found e then let_go ba w else (err e, w)
  revoke_of nn ba (ok claim) w =
      (do
        secret ← attempt (kube.get_secret (sibling nn ba.credentials_secret_name))
        found ← attempt (provider_for_claim claim)
        revoke_from nn ba claim (revoked_key unmarshal nn secret) found)
        w

  -- An access that is being deleted.
  unfoldable pub withdraw : ObjectReference → BucketAccess → Go W Requeue
  withdraw nn ba w =
      if meta.contains_finalizer bucket_access_finalizer ba.finalizers
      then (do
        found ← attempt (kube.get_claim (sibling nn ba.bucket_claim_name))
        revoke_of nn ba found)
          w
      else (ok done, w)

  -- The access with the finalizer, in the cluster too.
  unfoldable pub hold : BucketAccess → Go W BucketAccess
  hold ba w =
      if meta.contains_finalizer bucket_access_finalizer ba.finalizers
      then (ok ba, w)
      else kube.update_access
          (record ba { finalizers = meta.add_finalizer bucket_access_finalizer ba.finalizers }) w

  -- The secret is made, or changed.
  unfoldable pub upsert : ObjectReference → Text → Result GoError Params → Go W (Unit {0})
  upsert ref raw (err e) w =
      if is_not_found e then kube.create_secret ref ((document_key, raw) ∷ []) w else (err e, w)
  upsert ref raw (ok entries) w = kube.update_secret ref (insert document_key raw entries) w

  unfoldable pub with_document :
      ObjectReference → BucketAccess → BucketAccess → Result GoError Text → Go W Requeue
  with_document nn ba held (err e) w = (err e, w)
  with_document nn ba held (ok raw) w =
      (do
        existing ← attempt (kube.get_secret (sibling nn ba.credentials_secret_name))
        upsert (sibling nn ba.credentials_secret_name) raw existing
        kube.update_access_status
            (record held { access_granted = true; account_id = access_account nn })
        pure done)
        w

  unfoldable pub with_granted :
      ObjectReference → BucketAccess → BucketAccess → Result GoError Params → Go W Requeue
  with_granted nn ba held (err e) w = (ok (after 5), w)
  with_granted nn ba held (ok creds) w = with_document nn ba held (marshal (bucket_info creds)) w

  unfoldable pub grant_by :
      ObjectReference
      → BucketAccess
      → BucketAccess
      → Text
      → Result GoError (Provider W)
      → Go W Requeue
  grant_by nn ba held bucket (err e) w =
      if is_unavailable e
      then (ok (after 15), w)
      else if is_not_found e
      then (ok (after 5), w)
      else (err e, w)
  grant_by nn ba held bucket (ok mc) w =
      (do
        creds ← attempt (mc.grant_access bucket (access_account nn) read_write [] [])
        with_granted nn ba held creds)
        w

  unfoldable pub grant_on :
      ObjectReference → BucketAccess → BucketAccess → Result GoError BucketClaim → Go W Requeue
  grant_on nn ba held (err e) w = if is_not_found e then (ok (after 5), w) else (err e, w)
  grant_on nn ba held (ok claim) w =
      let bucket = trim_space claim.status.bucket_name in
      if not claim.status.bucket_ready || bucket == []
      then (ok (after 3), w)
      else (do
        found ← attempt (provider_for_claim claim)
        grant_by nn ba held (to_lower bucket) found)
          w

  -- `ba` is the access as it was read, `held` as it was last written.
  unfoldable pub grant_once : ObjectReference → BucketAccess → BucketAccess → Go W Requeue
  grant_once nn ba held w =
      if ba.access_granted
      then (ok done, w)
      else (do
        found ← attempt (kube.get_claim (sibling nn ba.bucket_claim_name))
        grant_on nn ba held found)
          w

  unfoldable pub with_access : ObjectReference → Result GoError BucketAccess → Go W Requeue
  with_access nn (err e) w = if is_not_found e then (ok done, w) else (err e, w)
  with_access nn (ok ba) w =
      if ba.bucket_claim_name == [] || ba.credentials_secret_name == []
      then (ok done, w)
      else if ba.being_deleted
      then withdraw nn ba w
      else (do held ← hold ba; grant_once nn ba held) w

  -- `Reconcile`
  unfoldable pub reconcile_access : ObjectReference → Go W Requeue
  reconcile_access nn = do found ← attempt (kube.get_access nn); with_access nn found
