-- ===== src/Errors.antt =====
-- Go's `error` values, as far as the program looks into them, and internal/provisioning/errors.go.
-- The errors of other packages are constructors that hold what the program asks of them by
-- `errors.As`, `errors.Is` and the like, and their text.
use k8s_s3_bucket_operator.Prelude.{
  ◌++◌, ◌||◌, Bool, true, false, List, [], ◌∷◌, Option, none, some, if◌then◌else◌, Action,
}
use k8s_s3_bucket_operator.Text.{Text, codes, contains, to_lower, ◌==◌}

-- `ProvisioningOperation`
pub data Operation : Type 0 where
  create_bucket configure_bucket set_quota set_lifecycle grant_access revoke_access : Operation

unfoldable pub operation_text : Operation → Text
operation_text create_bucket = codes "create_bucket"
operation_text configure_bucket = codes "configure_bucket"
operation_text set_quota = codes "set_quota"
operation_text set_lifecycle = codes "set_lifecycle"
operation_text grant_access = codes "grant_access"
operation_text revoke_access = codes "revoke_access"

-- The errors of the AWS SDK that the program tells apart.
pub data AwsFault : Type 0 where
  bucket_already_owned_by_you bucket_already_exists no_such_bucket : AwsFault
  entity_already_exists limit_exceeded : AwsFault

-- The gRPC status codes that the program returns.
pub data Code : Type 0 where
  invalid_argument failed_precondition unimplemented unavailable internal : Code

pub data GoError : Type 0 where
  -- errors.New, or fmt.Errorf without %w
  plain : Text → GoError
  -- fmt.Errorf with one %w: the text before it, the error, the text behind it
  wrapped : Text → GoError → Text → GoError
  -- `backend.ErrNotImplemented`
  not_implemented : GoError
  -- `ProvisioningError`
  provisioning : Operation → Text → GoError → GoError
  -- a `net.Error`: Timeout(), Temporary(), Error()
  network : Bool → Bool → Text → GoError
  -- an `APIStatus` of the Kubernetes API: whether its reason is NotFound, Error()
  api_status : Bool → Text → GoError
  -- status.Errorf: the code and the description
  grpc_status : Code → Text → GoError
  aws_fault : AwsFault → Text → GoError

unfoldable pub code_text : Code → Text
code_text invalid_argument = codes "InvalidArgument"
code_text failed_precondition = codes "FailedPrecondition"
code_text unimplemented = codes "Unimplemented"
code_text unavailable = codes "Unavailable"
code_text internal = codes "Internal"

-- Every Go call has `GoError` for its error.
abbrev pub Go : Type 0 → Type 0 → Type 0
Go W A = Action GoError W A

-- err.Error()
unfoldable pub message : GoError → Text
message (plain t) = t
message (wrapped before e behind) = before ++ (message e ++ behind)
message not_implemented = codes "storage backend not implemented"
message (provisioning op bucket e) =
    if bucket == []
    then operation_text op ++ (codes " failed: " ++ message e)
    else operation_text op ++ (codes " failed for bucket " ++ (bucket ++ (codes ": " ++ message e)))
message (network timeout temporary t) = t
message (api_status not_found t) = t
message (grpc_status code t) =
    codes "rpc error: code = " ++ (code_text code ++ (codes " desc = " ++ t))
message (aws_fault fault t) = t

-- The chain of errors that `Unwrap` leads to: `errors.As` and `errors.Is` look for the first match.

-- errors.As(err, &pErr)
unfoldable pub as_provisioning : GoError → Option (Operation × Text × GoError)
as_provisioning (wrapped before e behind) = as_provisioning e
as_provisioning (provisioning op bucket e) = some (op, bucket, e)
as_provisioning e = none

-- errors.As(err, &ne), with what the caller asks of the `net.Error`
unfoldable pub as_network : GoError → Option (Bool × Bool)
as_network (wrapped before e behind) = as_network e
as_network (provisioning op bucket e) = as_network e
as_network (network timeout temporary t) = some (timeout, temporary)
as_network e = none

-- errors.Is(err, backend.ErrNotImplemented)
unfoldable pub is_not_implemented : GoError → Bool
is_not_implemented (wrapped before e behind) = is_not_implemented e
is_not_implemented (provisioning op bucket e) = is_not_implemented e
is_not_implemented not_implemented = true
is_not_implemented e = false

-- apierrors.IsNotFound
unfoldable pub is_not_found : GoError → Bool
is_not_found (wrapped before e behind) = is_not_found e
is_not_found (provisioning op bucket e) = is_not_found e
is_not_found (api_status not_found t) = not_found
is_not_found e = false

-- status.FromError
unfoldable pub is_grpc_status : GoError → Bool
is_grpc_status (wrapped before e behind) = is_grpc_status e
is_grpc_status (provisioning op bucket e) = is_grpc_status e
is_grpc_status (grpc_status code t) = true
is_grpc_status e = false

-- errors.As(err, &fault)
unfoldable pub as_aws_fault : GoError → Option AwsFault
as_aws_fault (wrapped before e behind) = as_aws_fault e
as_aws_fault (provisioning op bucket e) = as_aws_fault e
as_aws_fault (aws_fault fault t) = some fault
as_aws_fault e = none

unfoldable pub transient_substrings : List Text
transient_substrings =
    codes "timeout"
    ∷ codes "temporar"
    ∷ codes "connection reset"
    ∷ codes "connection refused"
    ∷ codes "broken pipe"
    ∷ codes "i/o timeout"
    ∷ codes "unexpected eof"
    ∷ codes "context deadline"
    ∷ []

unfoldable pub contains_any : Text → List Text → Bool
contains_any msg [] = false
contains_any msg (s ∷ rest) = contains msg s || contains_any msg rest

-- `IsTransientMinioError`, at an error that is not nil
unfoldable pub is_transient : GoError → Bool
is_transient e = elim (as_network e) [
  | some (timeout, temporary) ↦ timeout || temporary
  | none ↦ contains_any (to_lower (message e)) transient_substrings
]
