-- ===== src/Minio/Buckets.antt =====
-- Creating and deleting MinIO buckets again.
use k8s_s3_bucket_operator.Prelude.{
  Bool, true, false, Result, ok, err, ◌>>=◌, bind-eq-ok, ◌≡◌, refl, subst, ap,
}
use k8s_s3_bucket_operator.Text.{Text}
use k8s_s3_bucket_operator.Errors.{GoError, Go}
use k8s_s3_bucket_operator.Policy.{AccessPolicy}
use k8s_s3_bucket_operator.Minio.{
  Clients, explained, explaining, make_missing, create_bucket, remove_present, delete_bucket,
}

-- What is relied on of a MinIO server that no one else uses: a bucket that was made is there, one
-- that was removed is not, and asking again gets the same answer and changes nothing.
pub record Settles {W : Type 0} (c : Clients W) : Type 0 where
  pub made :
      (bucket region : Text) (locking : Bool) (w w' : W)
      → c.make_bucket bucket region locking w ≡ (ok tt, w')
      → c.bucket_exists bucket w' ≡ (ok true, w')
  pub removed :
      (bucket : Text) (w w' : W)
      → c.remove_bucket bucket w ≡ (ok tt, w')
      → c.bucket_exists bucket w' ≡ (ok false, w')
  pub asked :
      (bucket : Text) (w w' : W) (found : Bool)
      → c.bucket_exists bucket w ≡ (ok found, w')
      → c.bucket_exists bucket w' ≡ (ok found, w')

explained-eq-ok :
    {W A : Type 0} (text : Text) (run : Result GoError A × W) {a : A} {w' : W}
    → ◌≡◌ {A = Result GoError A × W} (explained text run.0, run.1) (ok a, w')
    → run ≡ (ok a, w')
explained-eq-ok text (ok a, w) h = h
explained-eq-ok text (err e, w) h = cc

explaining-eq-ok :
    {W A : Type 0} (text : Text) (m : Go W A) (w : W) {a : A} {w' : W}
    → explaining text m w ≡ (ok a, w')
    → m w ≡ (ok a, w')
explaining-eq-ok text m w h = explained-eq-ok text (m w) h

module _ {W : Type 0} (quote secret_for : Text → Text)
    (marshal : AccessPolicy → Result GoError Text) (c : Clients W) (settles : Settles c) where
  made_there :
      (bucket region : Text) (locking found : Bool) (w w' : W)
      → c.bucket_exists bucket w ≡ (ok found, w)
      → make_missing quote secret_for marshal c bucket region locking found w ≡ (ok tt, w')
      → c.bucket_exists bucket w' ≡ (ok true, w')
  unfolding make_missing
  made_there bucket region locking true w w' there h =
      subst (λ (v : W). c.bucket_exists bucket v ≡ (ok true, v))
        (ap (λ (r : Result GoError (Unit {0}) × W). r.1) h) there
  made_there bucket region locking false w w' there h =
      settles.made bucket region locking w w'
        (explaining-eq-ok _ (c.make_bucket bucket region locking) w h)

  removed_gone :
      (bucket : Text) (found : Bool) (w w' : W)
      → c.bucket_exists bucket w ≡ (ok found, w)
      → remove_present quote secret_for marshal c bucket found w ≡ (ok tt, w')
      → c.bucket_exists bucket w' ≡ (ok false, w')
  unfolding remove_present
  removed_gone bucket false w w' there h =
      subst (λ (v : W). c.bucket_exists bucket v ≡ (ok false, v))
        (ap (λ (r : Result GoError (Unit {0}) × W). r.1) h) there
  removed_gone bucket true w w' there h =
      settles.removed bucket w w' (explaining-eq-ok _ (c.remove_bucket bucket) w h)

  created_there :
      (bucket region : Text) (locking : Bool) (w w' : W)
      → create_bucket quote secret_for marshal c bucket region locking w ≡ (ok tt, w')
      → c.bucket_exists bucket w' ≡ (ok true, w')
  unfolding create_bucket
  created_there bucket region locking w w' h =
      let asked = bind-eq-ok _ _ w h in
      let found = explaining-eq-ok _ (c.bucket_exists bucket) w asked.first in
      made_there bucket region locking asked.value asked.between w'
        (settles.asked bucket w asked.between asked.value found) asked.second

  deleted_gone :
      (bucket : Text) (w w' : W)
      → delete_bucket quote secret_for marshal c bucket w ≡ (ok tt, w')
      → c.bucket_exists bucket w' ≡ (ok false, w')
  unfolding delete_bucket
  deleted_gone bucket w w' h =
      let asked = bind-eq-ok _ _ w h in
      let found = explaining-eq-ok _ (c.bucket_exists bucket) w asked.first in
      removed_gone bucket asked.value asked.between w'
        (settles.asked bucket w asked.between asked.value found) asked.second

  -- On a MinIO server that no one else uses: after a bucket was created, creating it again, whatever
  -- the region and the locking asked for then, succeeds and changes nothing.
  pub create_bucket_idem :
      (bucket region region' : Text) (locking locking' : Bool) (w w' : W)
      → create_bucket quote secret_for marshal c bucket region locking w ≡ (ok tt, w')
      → create_bucket quote secret_for marshal c bucket region' locking' w' ≡ (ok tt, w')
  unfolding create_bucket make_missing ◌>>=◌
  create_bucket_idem bucket region region' locking locking' w w' h =
      rw (created_there bucket region locking w w' h) refl

  -- On a MinIO server that no one else uses: after a bucket was deleted, deleting it again succeeds
  -- and changes nothing.
  pub delete_bucket_idem :
      (bucket : Text) (w w' : W)
      → delete_bucket quote secret_for marshal c bucket w ≡ (ok tt, w')
      → delete_bucket quote secret_for marshal c bucket w' ≡ (ok tt, w')
  unfolding delete_bucket remove_present ◌>>=◌
  delete_bucket_idem bucket w w' h = rw (deleted_gone bucket w w' h) refl
