-- ===== src/Cosi/Server.antt =====
-- internal/cosi/server.go and grpc.go: the handlers of the COSI driver. Serving them on a socket
-- (`Start`) is not modelled.
pub mod Statuses
pub mod Deletion
pub mod Names
pub mod Accounts
use k8s_s3_bucket_operator.Prelude.{
  ◌++◌, Bool, true, false, ◌||◌, not, Option, none, some, List, [], ◌∷◌, Result, ok, err, pure,
  continue, attempt, ◌>>=◌, ◌>>◌, if◌then◌else◌, is_nil,
}
use k8s_s3_bucket_operator.Prelude.Int.{pos}
use k8s_s3_bucket_operator.Text.{Text, codes, ◌==◌, trim_space, to_lower, cut, dashed}
use k8s_s3_bucket_operator.Errors.{
  GoError, plain, provisioning, as_provisioning, grpc_status, Code, invalid_argument,
  failed_precondition, unimplemented, unavailable, internal, message, is_grpc_status, is_transient,
  Go,
}
use k8s_s3_bucket_operator.Api.{
  Params, at_key, insert, BucketClaim, empty_claim, BucketClass, empty_class, delete_policy,
  retain_policy,
}
use k8s_s3_bucket_operator.Provider.{Provider}
use k8s_s3_bucket_operator.Provisioning.{
  AccessCredentials, provision_bucket, grant_bucket_access, revoke_bucket_access, account_id,
}
use k8s_s3_bucket_operator.Provisioning.Extensions.{Parsers, apply_claim_parameter_extensions}
use k8s_s3_bucket_operator.Cosi.Mapper.{
  class_name_from_bucket_name, build_synthetic_claim, build_synthetic_claim_for_access,
}

-- The status of an error that is none yet.
abbrev status_of : GoError → GoError
status_of e = grpc_status (if is_transient e then unavailable else internal) (message e)

-- `grpcErr`, at an error. A `ProvisioningError` is reported without what wraps it.
unfoldable pub grpc_err : GoError → GoError
grpc_err e = if is_grpc_status e then e else elim (as_provisioning e) [
  | some (op, bucket, cause) ↦ status_of (provisioning op bucket cause)
  | none ↦ status_of e
]

abbrev pub refusal : Text → GoError
refusal text = grpc_status invalid_argument text

-- An error of the request's content, as `status.Errorf(codes.InvalidArgument, "%v", err)`.
abbrev pub invalid : {A : Type 0} → Result GoError A → Result GoError A
invalid (ok a) = ok a
invalid (err e) = err (refusal (message e))

abbrev pub lift : {W A : Type 0} → Result GoError A → Go W A
lift r w = (r, w)

abbrev pub reported : {A : Type 0} → Result GoError A → Result GoError A
reported (ok a) = ok a
reported (err e) = err (grpc_err e)

-- A call whose error goes through `grpcErr`.
abbrev pub calling : {W A : Type 0} → Go W A → Go W A
calling m w = let (r, w') = m w in (reported r, w')

-- `syntheticClassFromParameters`

abbrev or_else : Text → Text → Text
or_else default t = if t == [] then default else t

unfoldable pub synthetic_class : Text → Text → Params → Result GoError BucketClass
synthetic_class driver_name bucket_class_name parameters =
    let name = trim_space bucket_class_name in
    let locking = trim_space (at_key parameters (codes "objectLockingEnabled")) in
    let region = trim_space (at_key parameters (codes "region")) in
    if name == []
    then err (plain (codes "bucketClassName is empty"))
    else ok (record empty_class {
      name = name;
      driver_name = trim_space driver_name;
      deletion_policy =
          or_else retain_policy (trim_space (at_key parameters (codes "deletionPolicy")));
      object_locking_enabled = locking == codes "true" || locking == codes "1";
      retention_mode = trim_space (at_key parameters (codes "retentionMode"));
      parameters = insert (codes "region") (or_else (codes "us-east-1") region) parameters;
    })

-- Requests: a pointer that may be nil is an `Option`.

pub record CreateRequest : Type 0 where
  pub name : Text
  pub parameters : Params

pub record CreateResponse : Type 0 where
  pub bucket_id : Text
  pub region : Text

pub data Authentication : Type 0 where
  key iam other : Authentication

pub record GrantRequest : Type 0 where
  pub bucket_id : Text
  pub name : Text
  pub authentication : Authentication
  pub parameters : Params

pub record GrantResponse : Type 0 where
  pub account_id : Text
  pub access_key_id : Text
  pub access_secret_key : Text

pub record RevokeRequest : Type 0 where
  pub bucket_id : Text
  pub account_id : Text

-- `DriverGetInfo`
unfoldable pub driver_get_info : Text → Result GoError Text
driver_get_info driver_name =
    if trim_space driver_name == []
    then err (grpc_status failed_precondition (codes "driver name is not configured"))
    else ok driver_name

-- The authentication types that `DriverGrantBucketAccess` turns away.
unfoldable pub check_authentication : Authentication → Result GoError (Unit {0})
check_authentication key = ok tt
check_authentication iam =
    err (grpc_status unimplemented (codes "IAM authentication is not supported"))
check_authentication other = err (refusal (codes "unsupported authentication type"))

-- The namespace and the name in an account: the text before the first dash and the text behind it.
unfoldable pub parse_account : Text → Result GoError BucketClaim
parse_account account = elim (cut b'-' account) [
  | none ↦ err (refusal (codes "invalid account_id"))
  | some (namespace, name) ↦
      if (namespace == [] || name == []) || not (dashed namespace name == account)
      then err (refusal (codes "invalid account_id"))
      else ok (record empty_claim { name = name; namespace = namespace })
]

-- Reading a `Bucket` object: the text at spec.deletionPolicy, or "" where there is none.
abbrev pub BucketReader : Type 0 → Type 0
BucketReader W = Text → Go W Text

abbrev pub deletes : Result GoError BucketClass → Result GoError Bool
deletes (ok class) = ok (class.deletion_policy == delete_policy)
deletes (err e) = err (grpc_err e)

-- The best-effort guess where the `Bucket` object cannot be read.
unfoldable pub guessed : Text → Text → Result GoError Bool
guessed driver_name name =
    let class_name = class_name_from_bucket_name name in
    if class_name == [] then ok false else deletes (synthetic_class driver_name class_name [])

-- What the reading of the `Bucket` object decides.
unfoldable pub allowed_by : Text → Text → Result GoError Text → Result GoError Bool
allowed_by driver_name name (ok policy) = ok (trim_space policy == delete_policy)
allowed_by driver_name name (err e) = guessed driver_name name

module _ {W : Type 0} (quote : Text → Text) (parsers : Parsers) (driver_name : Text)
    (mc : Provider W) where
  -- `DriverCreateBucket`
  unfoldable pub driver_create_bucket : Option CreateRequest → Go W CreateResponse
  driver_create_bucket none w = (err (refusal (codes "bucket name is required")), w)
  driver_create_bucket (some req) w =
      if trim_space req.name == []
      then (err (refusal (codes "bucket name is required")), w)
      else (do
        plain_claim ← lift (invalid (build_synthetic_claim (codes "cosi") req.name req.parameters))
        claim ←
            lift
              (invalid (apply_claim_parameter_extensions quote parsers plain_claim req.parameters))
        class ←
            lift (invalid (synthetic_class driver_name claim.spec.bucket_class_name req.parameters))
        bucket ← calling (provision_bucket mc claim class)
        pure (record {
          bucket_id = bucket;
          region =
              or_else (codes "us-east-1") (trim_space (at_key class.parameters (codes "region")));
        }))
          w

  -- Whether the policy of a bucket lets the driver delete it.
  unfoldable pub may_delete : Option (BucketReader W) → Text → Go W Bool
  may_delete none name w = (ok false, w)
  may_delete (some read) name w =
      let (found, w') = read name w in (allowed_by driver_name name found, w')

  unfoldable pub delete_if : Bool → Text → Go W (Unit {0})
  delete_if true bucket w = calling (mc.delete_bucket bucket) w
  delete_if false bucket w = (ok tt, w)

  -- `DriverDeleteBucket`
  unfoldable pub driver_delete_bucket : Option (BucketReader W) → Option Text → Go W (Unit {0})
  driver_delete_bucket kube none w = (err (refusal (codes "bucket_id is required")), w)
  driver_delete_bucket kube (some bucket_id) w =
      let name = trim_space bucket_id in
      if name == []
      then (err (refusal (codes "bucket_id is required")), w)
      else (do allowed ← may_delete kube name; delete_if allowed (to_lower name)) w

  -- `DriverGrantBucketAccess`
  unfoldable pub driver_grant_bucket_access : Option GrantRequest → Go W GrantResponse
  driver_grant_bucket_access none w = (err (refusal (codes "bucket_id and name are required")), w)
  driver_grant_bucket_access (some req) w =
      if trim_space req.bucket_id == [] || trim_space req.name == []
      then (err (refusal (codes "bucket_id and name are required")), w)
      else (do
        let name = trim_space req.bucket_id
        lift (check_authentication req.authentication)
        plain_claim ←
            lift (
              invalid
                (build_synthetic_claim_for_access (codes "cosi") name req.name req.parameters))
        claim ←
            lift
              (invalid (apply_claim_parameter_extensions quote parsers plain_claim req.parameters))
        creds ← calling (
            grant_bucket_access mc claim (to_lower name)
              (trim_space (at_key req.parameters (codes "existingAccessKey")))
              (trim_space (at_key req.parameters (codes "existingSecretKey"))))
        pure (record {
          account_id = account_id claim;
          access_key_id = creds.access_key_id;
          access_secret_key = creds.access_secret_key;
        }))
          w

  -- `DriverRevokeBucketAccess`
  unfoldable pub driver_revoke_bucket_access : Option RevokeRequest → Go W (Unit {0})
  driver_revoke_bucket_access none w =
      (err (refusal (codes "bucket_id and account_id are required")), w)
  driver_revoke_bucket_access (some req) w =
      if trim_space req.bucket_id == [] || trim_space req.account_id == []
      then (err (refusal (codes "bucket_id and account_id are required")), w)
      else (do
        claim ← lift (parse_account (trim_space req.account_id))
        calling (revoke_bucket_access mc claim (to_lower (trim_space req.bucket_id)) []))
          w
