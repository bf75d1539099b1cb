-- ===== src/Cosi/Server/Statuses.antt =====
-- The errors that the COSI driver returns.
use k8s_s3_bucket_operator.Prelude.{
  Bool, true, false, Option, none, some, [], Result, ok, err, ◌||◌, continue, ◌>>=◌, if◌then◌else◌,
  Bool-cases, inl, inr, ◌≡◌, refl, arith,
}
use k8s_s3_bucket_operator.Text.{Text, codes, ◌==◌, trim_space, to_lower}
use k8s_s3_bucket_operator.Errors.{GoError, Code, grpc_status, is_grpc_status, Go}
use k8s_s3_bucket_operator.Api.{at_key, BucketClass}
use k8s_s3_bucket_operator.Provider.{Provider}
use k8s_s3_bucket_operator.Provisioning.{
  provision_bucket, grant_bucket_access, revoke_bucket_access,
}
use k8s_s3_bucket_operator.Provisioning.Extensions.{Parsers}
use k8s_s3_bucket_operator.Cosi.Mapper.{class_name_from_bucket_name}
use k8s_s3_bucket_operator.Cosi.Server.{
  grpc_err, reported, deletes, invalid, calling, CreateRequest, GrantRequest, RevokeRequest,
  Authentication, key, check_authentication, parse_account, BucketReader, guessed, allowed_by,
  may_delete, delete_if, driver_create_bucket, driver_delete_bucket, driver_grant_bucket_access,
  driver_revoke_bucket_access,
}

-- The result is no error, or a gRPC status.
abbrev pub Status : {A : Type 0} → Result GoError A → Type 0
Status (ok a) = Unit
Status (err e) = is_grpc_status e ≡ true

pub record IsAnswer {A : Type 0} (r : Result GoError A) : Type 0 where
  pub status : Status r

ok-IsAnswer : {A : Type 0} (a : A) → IsAnswer {A = A} (ok a)
ok-IsAnswer a = record { status = tt }

status-IsAnswer :
    {A : Type 0} (code : Code) (text : Text) → IsAnswer {A = A} (err (grpc_status code text))
unfolding is_grpc_status
status-IsAnswer code text = record { status = refl }

grpc_err-is_status : (e : GoError) → is_grpc_status (grpc_err e) ≡ true
unfolding grpc_err is_grpc_status
grpc_err-is_status e = elim (Bool-cases (is_grpc_status e)) [
  | inl h ↦ rw h h
  | inr h ↦ ground arith
]

reported-IsAnswer : {A : Type 0} (r : Result GoError A) → IsAnswer (reported r)
reported-IsAnswer (ok a) = ok-IsAnswer a
reported-IsAnswer (err e) = record { status = grpc_err-is_status e }

invalid-IsAnswer : {A : Type 0} (r : Result GoError A) → IsAnswer (invalid r)
invalid-IsAnswer (ok a) = ok-IsAnswer a
invalid-IsAnswer (err e) = status-IsAnswer _ _

module _ {W A : Type 0} where
  calling-IsAnswer : (m : Go W A) (w : W) → IsAnswer (calling m w).0
  calling-IsAnswer m w = reported-IsAnswer (m w).0

  -- A guard that turns the request away with a status.
  guarded-IsAnswer :
      (b : Bool) (code : Code) (text : Text) (w : W) (m : Result GoError A × W)
      → IsAnswer m.0
      → IsAnswer (if b then (err (grpc_status code text), w) else m).0
  guarded-IsAnswer true code text w m h = status-IsAnswer code text
  guarded-IsAnswer false code text w m h = h

module _ {W A B : Type 0} where
  continue-IsAnswer :
      (f : A → Go W B) (w : W) (r : Result GoError A)
      → IsAnswer r
      → ((a : A) (w' : W) → IsAnswer (f a w').0)
      → IsAnswer (continue f w r).0
  continue-IsAnswer f w (ok a) h k = k a w
  continue-IsAnswer f w (err e) h k = record { status = h.status }

  bind-IsAnswer :
      (m : Go W A) (f : A → Go W B) (w : W)
      → IsAnswer (m w).0
      → ((a : A) (w' : W) → IsAnswer (f a w').0)
      → IsAnswer ((m >>= f) w).0
  unfolding ◌>>=◌
  bind-IsAnswer m f w h k = let (r, w') = m w in continue-IsAnswer f w' r h k

check_authentication-IsAnswer : (a : Authentication) → IsAnswer (check_authentication a)
unfolding check_authentication
check_authentication-IsAnswer key = ok-IsAnswer tt
check_authentication-IsAnswer _ = status-IsAnswer _ _

parse_account-IsAnswer : (account : Text) → IsAnswer (parse_account account)
unfolding parse_account is_grpc_status
parse_account-IsAnswer account = record { status = ground arith }

deletes-IsAnswer : (r : Result GoError BucketClass) → IsAnswer (deletes r)
deletes-IsAnswer (ok class) = ok-IsAnswer _
deletes-IsAnswer (err e) = record { status = grpc_err-is_status e }

allowed_by-IsAnswer :
    (driver_name name : Text) (found : Result GoError Text)
    → IsAnswer (allowed_by driver_name name found)
unfolding allowed_by
allowed_by-IsAnswer driver_name name (ok policy) = ok-IsAnswer _
allowed_by-IsAnswer driver_name name (err e) =
    unfold guessed in
    elim (Bool-cases (class_name_from_bucket_name name == [])) [
      | inl h ↦ rw h (ok-IsAnswer _)
      | inr h ↦ rw h (deletes-IsAnswer _)
    ]

module _ {W : Type 0} (quote : Text → Text) (parsers : Parsers) (driver_name : Text)
    (mc : Provider W) where
  may_delete-IsAnswer :
      (kube : Option (BucketReader W)) (name : Text) (w : W)
      → IsAnswer (may_delete quote parsers driver_name mc kube name w).0
  unfolding may_delete
  may_delete-IsAnswer none name w = ok-IsAnswer _
  may_delete-IsAnswer (some read) name w = allowed_by-IsAnswer driver_name name _

  delete_if-IsAnswer :
      (allowed : Bool) (bucket : Text) (w : W)
      → IsAnswer (delete_if quote parsers driver_name mc allowed bucket w).0
  unfolding delete_if
  delete_if-IsAnswer true bucket w = calling-IsAnswer (mc.delete_bucket bucket) w
  delete_if-IsAnswer false bucket w = ok-IsAnswer _

  create-IsAnswer :
      (req : Option CreateRequest) (w : W)
      → IsAnswer (driver_create_bucket quote parsers driver_name mc req w).0
  unfolding driver_create_bucket
  create-IsAnswer none w = status-IsAnswer _ _
  create-IsAnswer (some req) w = guarded-IsAnswer (trim_space req.name == []) _ _ w _ (
      bind-IsAnswer _ _ _ (invalid-IsAnswer _) λ plain_claim w1.
        bind-IsAnswer _ _ _ (invalid-IsAnswer _) λ claim w2.
          bind-IsAnswer _ _ _ (invalid-IsAnswer _) λ class w3.
            bind-IsAnswer _ _ _ (calling-IsAnswer (provision_bucket mc claim class) w3)
              λ bucket w4. ok-IsAnswer _)

  delete-IsAnswer :
      (kube : Option (BucketReader W)) (bucket_id : Option Text) (w : W)
      → IsAnswer (driver_delete_bucket quote parsers driver_name mc kube bucket_id w).0
  unfolding driver_delete_bucket
  delete-IsAnswer kube none w = status-IsAnswer _ _
  delete-IsAnswer kube (some bucket_id) w = guarded-IsAnswer (trim_space bucket_id == []) _ _ w _ (
      bind-IsAnswer _ _ _ (may_delete-IsAnswer kube _ w)
        λ allowed w1. delete_if-IsAnswer allowed _ w1)

  grant-IsAnswer :
      (req : Option GrantRequest) (w : W)
      → IsAnswer (driver_grant_bucket_access quote parsers driver_name mc req w).0
  unfolding driver_grant_bucket_access
  grant-IsAnswer none w = status-IsAnswer _ _
  grant-IsAnswer (some req) w =
      guarded-IsAnswer (trim_space req.bucket_id == [] || trim_space req.name == []) _ _ w _ (
        bind-IsAnswer _ _ _ (check_authentication-IsAnswer req.authentication) λ _ w1.
          bind-IsAnswer _ _ _ (invalid-IsAnswer _) λ plain_claim w2.
            bind-IsAnswer _ _ _ (invalid-IsAnswer _) λ claim w3.
              bind-IsAnswer _ _ _
                (calling-IsAnswer
                  (grant_bucket_access mc claim (to_lower (trim_space req.bucket_id))
                    (trim_space (at_key req.parameters (codes "existingAccessKey")))
                    (trim_space (at_key req.parameters (codes "existingSecretKey"))))
                  w3)
                λ creds w4. ok-IsAnswer _)

  revoke-IsAnswer :
      (req : Option RevokeRequest) (w : W)
      → IsAnswer (driver_revoke_bucket_access quote parsers driver_name mc req w).0
  unfolding driver_revoke_bucket_access
  revoke-IsAnswer none w = status-IsAnswer _ _
  revoke-IsAnswer (some req) w =
      guarded-IsAnswer (trim_space req.bucket_id == [] || trim_space req.account_id == []) _ _ w _ (
        bind-IsAnswer _ _ _ (parse_account-IsAnswer (trim_space req.account_id)) λ claim w1.
          calling-IsAnswer (revoke_bucket_access mc claim (to_lower (trim_space req.bucket_id)) [])
            w1)

  -- Whatever the request, the provider, the Kubernetes API and the parsers do, an error that one of
  -- the four handlers returns is a gRPC status.
  pub handlers-IsAnswer :
      (kube : Option (BucketReader W)) (w : W)
      → ((req : Option CreateRequest)
          → IsAnswer (driver_create_bucket quote parsers driver_name mc req w).0)
        × ((id : Option Text)
            → IsAnswer (driver_delete_bucket quote parsers driver_name mc kube id w).0)
        × ((req : Option GrantRequest)
            → IsAnswer (driver_grant_bucket_access quote parsers driver_name mc req w).0)
        × ((req : Option RevokeRequest)
            → IsAnswer (driver_revoke_bucket_access quote parsers driver_name mc req w).0)
  handlers-IsAnswer kube w = (
    λ req. create-IsAnswer req w,
    λ id. delete-IsAnswer kube id w,
    λ req. grant-IsAnswer req w,
    λ req. revoke-IsAnswer req w,
  )
