-- ===== src/Minio.antt =====
-- internal/minio/client.go: MinIO as a provider. Its S3 and admin clients are a parameter.
pub mod Keys
pub mod Buckets
pub mod Access
pub mod Serving
use k8s_s3_bucket_operator.Prelude.{
  ℕ, zero, suc, ◌+◌, ◌++◌, Bool, true, false, ◌&&◌, ◌||◌, not, Option, none, some, List, [], ◌∷◌,
  take, is_nil, leb, Result, ok, err, pure, fail, ◌>>=◌, ◌>>◌, if◌then◌else◌,
}
use k8s_s3_bucket_operator.Prelude.Int.{ℤ, pos, negsuc, positive}
use k8s_s3_bucket_operator.Text.{Text, codes, ◌==◌, trim_space, to_lower, equal_fold, dashed}
use k8s_s3_bucket_operator.Errors.{GoError, plain, wrapped, Go}
use k8s_s3_bucket_operator.Api.{Params, lookup, LifecycleRule, read_only}
use k8s_s3_bucket_operator.Policy.{AccessPolicy, bucket_policy, bucket_policy_read_only}
use k8s_s3_bucket_operator.Provider.{Provider}

-- `Config`
pub record Config : Type 0 where
  pub endpoint : Text
  pub access_key : Text
  pub secret_key : Text
  pub use_ssl : Bool

-- `firstSecretString`: a value that is there and has bytes is taken, even if trimming empties it.
unfoldable pub first_secret_string : Params → List Text → Text
first_secret_string secrets [] = []
first_secret_string secrets (k ∷ keys) =
    let rest = first_secret_string secrets keys in
    elim (lookup k secrets) [ none ↦ rest | some v ↦ if is_nil v then rest else trim_space v ]

-- `ConfigFromSecretData`
unfoldable pub config_from_secret_data : Params → Result GoError Config
config_from_secret_data secrets =
    let endpoint = first_secret_string secrets (codes "MINIO_ENDPOINT" ∷ codes "endpoint" ∷ []) in
    let access =
      first_secret_string secrets
        (codes "MINIO_ACCESS_KEY" ∷ codes "accessKey" ∷ codes "accessKeyID" ∷ []) in
    let secret =
      first_secret_string secrets
        (codes "MINIO_SECRET_KEY" ∷ codes "secretKey" ∷ codes "secretAccessKey" ∷ []) in
    let ssl = first_secret_string secrets (codes "MINIO_USE_SSL" ∷ codes "useSSL" ∷ []) in
    if is_nil secrets
    then err (plain (codes "secret data is empty"))
    else if endpoint == [] || access == [] || secret == []
    then err (
        plain (
          codes
            "secret must define endpoint (MINIO_ENDPOINT or endpoint), access key, and secret key"))
    else ok (record {
      endpoint = endpoint;
      access_key = access;
      secret_key = secret;
      use_ssl = ssl == codes "true" || ssl == codes "1" || equal_fold ssl (codes "yes");
    })

-- The bytes that `nonAlnum` does not match.
unfoldable pub is_alnum : ℕ → Bool
is_alnum c = (leb b'a' c && leb c b'z') || (leb b'A' c && leb c b'Z') || (leb b'0' c && leb c b'9')

-- nonAlnum.ReplaceAllString(s, "")
unfoldable pub alnum : Text → Text
alnum [] = []
alnum (c ∷ s) = let rest = alnum s in if is_alnum c then c ∷ rest else rest

-- `accessKeyForAccount`. The slice `s[:12]` of a shorter text is the text.
unfoldable pub access_key_for_account : Text → Text
access_key_for_account account =
    let normalized = take 12 (to_lower (alnum account)) in
    codes "cosi" ++ (if normalized == [] then codes "user" else normalized)

-- The two clients. `endpoint` is EndpointURL().
pub record Clients (W : Type 0) : Type 0 where
  pub bucket_exists : Text → Go W Bool
  pub make_bucket : Text → Text → Bool → Go W (Unit {0})
  pub remove_bucket : Text → Go W (Unit {0})
  pub put_quota : Text → ℕ → Go W (Unit {0})
  pub put_lifecycle : Text → List LifecycleRule → Go W (Unit {0})
  pub put_replication : Text → Text → Go W (Unit {0})
  pub add_user : Text → Text → Go W (Unit {0})
  pub add_canned_policy : Text → Text → Go W (Unit {0})
  pub set_policy : Text → Text → Go W (Unit {0})
  pub remove_user : Text → Go W (Unit {0})
  pub remove_canned_policy : Text → Go W (Unit {0})
  pub endpoint : Text

-- fmt.Errorf("...: %w", err), for the error of a call.
abbrev pub explained : {A : Type 0} → Text → Result GoError A → Result GoError A
explained text (ok a) = ok a
explained text (err e) = err (wrapped text e [])

abbrev pub explaining : {W A : Type 0} → Text → Go W A → Go W A
explaining text m w = let (r, w') = m w in (explained text r, w')

-- A failure is logged and no more.
abbrev pub ignoring : {W : Type 0} → Go W (Unit {0}) → Go W (Unit {0})
ignoring m w = let (_, w') = m w in (ok tt, w')

-- The key of an account, if none is given.
abbrev pub key_or : Text → Text → Text
key_or default key = if key == [] then default else key

unfoldable pub policy_name : Text → Text → Text
policy_name bucket account = codes "cosi-" ++ dashed bucket account

-- The access that a policy gives.
unfoldable pub policy_for : Text → Text → AccessPolicy
policy_for bucket access =
    if equal_fold access read_only then bucket_policy_read_only bucket else bucket_policy bucket

-- `quote` is the verb %q, `secret_for` is secretForAccount (a SHA-1 sum), `marshal` is json.Marshal.
module _ {W : Type 0} (quote secret_for : Text → Text)
    (marshal : AccessPolicy → Result GoError Text) (c : Clients W) where
  abbrev checked : Text → Go W Bool
  checked bucket = explaining (codes "checking bucket existence: ") (c.bucket_exists bucket)

  unfoldable pub make_missing : Text → Text → Bool → Bool → Go W (Unit {0})
  make_missing bucket region locking true w = (ok tt, w)
  make_missing bucket region locking false w =
      explaining (codes "creating bucket " ++ (quote bucket ++ codes ": "))
        (c.make_bucket bucket region locking) w

  -- `CreateBucket`
  unfoldable pub create_bucket : Text → Text → Bool → Go W (Unit {0})
  create_bucket bucket region locking = do
    exists ← checked bucket
    make_missing bucket region locking exists

  -- `SetBucketQuota`
  unfoldable pub set_bucket_quota : Text → ℤ → Go W (Unit {0})
  set_bucket_quota bucket (negsuc n) w = (ok tt, w)
  set_bucket_quota bucket (pos zero) w = (ok tt, w)
  set_bucket_quota bucket (pos (suc n)) w = c.put_quota bucket (suc n) w

  unfoldable pub remove_present : Text → Bool → Go W (Unit {0})
  remove_present bucket true w =
      explaining (codes "deleting bucket " ++ (quote bucket ++ codes ": ")) (c.remove_bucket bucket)
        w
  remove_present bucket false w = (ok tt, w)

  -- `DeleteBucket`
  unfoldable pub delete_bucket : Text → Go W (Unit {0})
  delete_bucket bucket = do exists ← checked bucket; remove_present bucket exists

  -- `GrantAccess`
  unfoldable pub grant_access : Text → Text → Text → Text → Text → Go W Params
  grant_access bucket account access existing_key existing_secret = do
    let key = key_or (access_key_for_account account) existing_key
    let secret = key_or (secret_for account) existing_secret
    let policy = policy_name bucket account
    explaining (codes "creating MinIO user " ++ (quote key ++ codes ": ")) (c.add_user key secret)
    document ← λ w.
        (explained (codes "marshalling bucket policy: ") (marshal (policy_for bucket access)), w)
    explaining (codes "creating policy " ++ (quote policy ++ codes ": "))
        (c.add_canned_policy policy document)
    explaining (codes "attaching policy to user " ++ (quote key ++ codes ": "))
        (c.set_policy policy key)
    pure (
        (codes "accessKeyID", key)
        ∷ (codes "accessSecretKey", secret)
        ∷ (codes "bucketName", bucket)
        ∷ (codes "endpoint", c.endpoint)
        ∷ [])

  -- `RevokeAccess`
  unfoldable pub revoke_access : Text → Text → Text → Go W (Unit {0})
  revoke_access bucket account key = do
    ignoring (c.remove_user (key_or (access_key_for_account account) key))
    ignoring (c.remove_canned_policy (policy_name bucket account))

  -- `Client` as a `Provider`. It configures no security.
  unfoldable pub minio_provider : Provider W
  minio_provider = record {
    create_bucket = create_bucket;
    set_bucket_quota = set_bucket_quota;
    set_bucket_lifecycle = c.put_lifecycle;
    set_bucket_replication = c.put_replication;
    grant_access = grant_access;
    revoke_access = revoke_access;
    delete_bucket = delete_bucket;
    configure_bucket_security = none;
  }
