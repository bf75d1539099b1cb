-- ===== src/Tests/Minio.antt =====
-- The MinIO client at concrete accounts and servers.
use k8s_s3_bucket_operator.Prelude.{
  Bool, true, false, none, [], ◌∷◌, ◌++◌, ok, length, ◌≤◌, if◌then◌else◌, Result, ◌≡◌, refl, subst,
  ap, arith, ◌>>=◌,
}
use k8s_s3_bucket_operator.Text.{
  Text, codes, ◌==◌, eq_refl, to_lower, trim_space, equal_fold, dashed,
}
use k8s_s3_bucket_operator.Errors.{GoError}
use k8s_s3_bucket_operator.Api.{Params}
use k8s_s3_bucket_operator.Provisioning.{account_id, grant}
use k8s_s3_bucket_operator.Minio.Serving.{grant_serves}
use k8s_s3_bucket_operator.Tests.Provisioning.{logs}
use k8s_s3_bucket_operator.Policy.{AccessPolicy, bucket_policy, bucket_policy_read_only}
use k8s_s3_bucket_operator.Minio.{
  Clients, is_alnum, alnum, access_key_for_account, policy_name, policy_for, make_missing,
  create_bucket, remove_present, delete_bucket, minio_provider, grant_access, revoke_access,
}
use k8s_s3_bucket_operator.Minio.Keys.{
  access_key_for_account_collides, length-access_key_for_account,
}
use k8s_s3_bucket_operator.Minio.Buckets.{Settles, create_bucket_idem, delete_bucket_idem}
use k8s_s3_bucket_operator.Minio.Access.{
  Changes, user, policy, attach, drop_user, drop_policy, recorded, revoke_access_undoes_grant,
}

abbrev plainly : Text → Text
plainly t = t

abbrev written : AccessPolicy → Result GoError Text
written p = ok (codes "{}")

-- A server that keeps which buckets there are.
abbrev server : Clients (Text → Bool)
server = record {
  bucket_exists = λ bucket w. (ok (w bucket), w);
  make_bucket = λ bucket region locking w. (ok tt, λ t. if t == bucket then true else w t);
  remove_bucket = λ bucket w. (ok tt, λ t. if t == bucket then false else w t);
  put_quota = λ bucket bytes w. (ok tt, w);
  put_lifecycle = λ bucket rules w. (ok tt, w);
  put_replication = λ bucket target w. (ok tt, w);
  add_user = λ key secret w. (ok tt, w);
  add_canned_policy = λ name document w. (ok tt, w);
  set_policy = λ name key w. (ok tt, w);
  remove_user = λ key w. (ok tt, w);
  remove_canned_policy = λ name w. (ok tt, w);
  endpoint = codes "http://minio:9000";
}

server-Settles : Settles server
server-Settles = record {
  made = λ bucket region locking w w' h.
      subst (λ (v : Text → Bool). server.bucket_exists bucket v ≡ (ok true, v))
        (ap (λ (r : Result GoError (Unit {0}) × (Text → Bool)). r.1) h) (rw (eq_refl bucket) refl);
  removed = λ bucket w w' h.
      subst (λ (v : Text → Bool). server.bucket_exists bucket v ≡ (ok false, v))
        (ap (λ (r : Result GoError (Unit {0}) × (Text → Bool)). r.1) h) (rw (eq_refl bucket) refl);
  asked = λ bucket w w' found h. cc;
}

abbrev empty_server : Text → Bool
empty_server t = false

access_key_for_account_collides_example :
    access_key_for_account (dashed (codes "team-production") (codes "logs"))
    ≡ access_key_for_account (dashed (codes "team-production") (codes "images"))
unfolding codes alnum is_alnum
access_key_for_account_collides_example =
    access_key_for_account_collides (codes "team-production") (codes "logs") (codes "images")
      (omega arith)

length-access_key_for_account_example :
    (5 ≤ length (access_key_for_account (codes "---")))
    × (length (access_key_for_account (codes "---")) ≤ 16)
length-access_key_for_account_example = length-access_key_for_account (codes "---")

create_bucket_idem_example :
    create_bucket plainly plainly written server
      (codes "logs")
      (codes "eu-west-1")
      true
      (λ t. if t == codes "logs" then true else empty_server t)
    ≡ (ok tt, λ t. if t == codes "logs" then true else empty_server t)
unfolding create_bucket make_missing ◌>>=◌
create_bucket_idem_example =
    create_bucket_idem plainly plainly written server server-Settles (codes "logs")
      (codes "us-east-1") (codes "eu-west-1") false true empty_server
      (λ t. if t == codes "logs" then true else empty_server t) refl

delete_bucket_idem_example :
    delete_bucket plainly plainly written server
      (codes "logs")
      (λ t. if t == codes "logs" then false else t == codes "logs")
    ≡ (ok tt, λ t. if t == codes "logs" then false else t == codes "logs")
unfolding delete_bucket remove_present ◌>>=◌ codes ◌==◌
delete_bucket_idem_example =
    delete_bucket_idem plainly plainly written server server-Settles (codes "logs")
      (λ t. t == codes "logs") (λ t. if t == codes "logs" then false else t == codes "logs") refl

revoke_access_undoes_grant_example :
    let key = codes "cositeamlogs" in
    let name = codes "cosi-logs-team-logs" in
    let changes : Changes =
      user key (codes "team-logs") ∷ policy name (codes "{}") ∷ attach name key ∷ [] in
    (changes ≡ [] ++ user key (codes "team-logs") ∷ policy name (codes "{}") ∷ attach name key ∷ [])
    × (◌≡◌ {A = Params}
        ((codes "accessKeyID", key)
          ∷ (codes "accessSecretKey", codes "team-logs")
          ∷ (codes "bucketName", codes "logs")
          ∷ (codes "endpoint", codes "http://minio:9000")
          ∷ [])
        ((codes "accessKeyID", key)
          ∷ (codes "accessSecretKey", codes "team-logs")
          ∷ (codes "bucketName", codes "logs")
          ∷ (codes "endpoint", codes "http://minio:9000")
          ∷ []))
    × ((later : Changes)
        → revoke_access plainly plainly written
            (recorded (codes "http://minio:9000") (λ _ _. ok true) (λ _ _. none))
            (codes "logs")
            (codes "team-logs")
            []
            later
          ≡ (ok tt, later ++ drop_user key ∷ drop_policy name ∷ []))
unfolding grant_access access_key_for_account policy_name policy_for equal_fold bucket_policy
    bucket_policy_read_only alnum is_alnum to_lower dashed codes ◌==◌ ◌>>=◌
revoke_access_undoes_grant_example =
    revoke_access_undoes_grant (codes "http://minio:9000") (λ _ _. ok true) (λ _ _. none) plainly
      plainly written (codes "logs") (codes "team-logs") (codes "ReadOnly") [] [] (codes "{}") []
      (user (codes "cositeamlogs") (codes "team-logs")
        ∷ policy (codes "cosi-logs-team-logs") (codes "{}")
        ∷ attach (codes "cosi-logs-team-logs") (codes "cositeamlogs")
        ∷ [])
      ((codes "accessKeyID", codes "cositeamlogs")
        ∷ (codes "accessSecretKey", codes "team-logs")
        ∷ (codes "bucketName", codes "logs")
        ∷ (codes "endpoint", codes "http://minio:9000")
        ∷ [])
      refl refl

grant_serves_example :
    grant
      (minio_provider plainly plainly written
        (recorded (codes "http://minio:9000") (λ _ _. ok true) (λ _ _. none)))
      logs
      (codes "logs")
      []
      []
      []
    ≡ (
      ok (record {
        access_key_id = codes "cositeamlogs";
        access_secret_key = codes "team-logs";
        bucket_name = codes "logs";
        endpoint = codes "http://minio:9000";
      }),
      user (codes "cositeamlogs") (codes "team-logs")
          ∷ policy (codes "cosi-logs-team-logs") (codes "{}")
          ∷ attach (codes "cosi-logs-team-logs") (codes "cositeamlogs")
          ∷ [],
    )
unfolding account_id access_key_for_account policy_name policy_for equal_fold bucket_policy
    bucket_policy_read_only alnum is_alnum trim_space to_lower dashed codes ◌==◌
grant_serves_example =
    grant_serves (codes "http://minio:9000") (λ _ _. ok true) (λ _ _. none) (λ changes c. refl)
      plainly plainly written logs (codes "logs") [] [] (codes "{}") [] refl (λ h. cc) (λ h. cc)
      (λ h. cc)
