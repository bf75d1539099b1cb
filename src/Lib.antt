-- ===== src/Lib.antt =====
-- A Kubernetes operator that provisions S3 buckets, in MinIO or AWS, for `BucketClaim` resources
-- and as a COSI driver.
--
-- The program's parts, and the files that model them:
--
--   Api                       api/v1alpha1/bucketclaim_types.go, bucketclass_types.go: the resources
--   Errors                    internal/provisioning/errors.go: error values, what is transient
--   Provider                  internal/backend/provider.go: the interface of a storage back end
--   Provisioning              internal/provisioning/provisioning.go: creating, configuring, granting,
--                             revoking and deleting, over any provider
--   Provisioning/Extensions   ApplyClaimParameterExtensions of the same file
--   Cosi/Mapper               internal/cosi/mapper.go: claims made up for COSI's requests
--   Cosi/Server               internal/cosi/server.go, grpc.go: the handlers of the COSI driver
--   Policy                    the access policies of internal/minio/client.go and
--                             internal/backend/aws/policy.go
--   Minio                     internal/minio/client.go: MinIO as a provider
--   Aws                       internal/backend/aws/provider.go: AWS as a provider; its child modules
--                             hold the clients (Clients), names (UserName), JSON documents and their
--                             merging (Json) and ConfigureBucketSecurity (Security)
--   Aws/Config                internal/backend/aws/config.go, and New of provider.go
--   Resolver                  internal/backend/kind.go and the MinIO half of
--                             internal/backend/resolve/resolver.go, with its cache of clients
--   Resolver/Aws, Dispatch    the AWS half with its cache, and ProviderForClass
--   Resolver/Refinement       runs of the resolver beside one without caches; what the keys of the
--                             caches stand for is in Resolver/Keys and Resolver/Aws/Sources
--   Controller/Claim          internal/controller/bucketclaim_controller.go: Reconcile of a
--                             `BucketClaim`; the notes in its status are in Controller/Notes
--   Controller/Access         internal/controller/bucketaccess_controller.go: Reconcile of a
--                             `BucketAccess`
--   Controller/Settled, Secrets  what one run of Controller/Claim leaves to the next
--   Controller/Access/Saved   what a run of Controller/Access leaves to the finalizer
--   Controller/Kube           what the two use of Kubernetes, as parameters
--   Controller/Trace, Lawful  a cluster and providers that keep a record of what was asked and
--                             answered, over an arbitrary environment; rules for such runs
--   Controller/Protocol       the order that the requests of Controller/Claim keep; that of
--                             Controller/Access is in Controller/Access/Rules
--   Controller/Reports        rules for runs that report that they are done
--   Controller/Outcome        which events may end a run of Controller/Claim that reports no retry
--   Controller/Success        runs of Controller/Claim where every request is accepted
--   Prelude, Text             results, effects, lists; Go strings and the package strings
--   Tests                     runs at concrete data
--
-- How they interact: a COSI handler makes a claim and a class of a request (Cosi/Mapper,
-- Provisioning/Extensions, `synthetic_class`) and calls Provisioning, which calls a `Provider`;
-- `minio_provider` and `aws_provider` are the two providers. The reconcilers get a provider from
-- the resolver, a parameter of theirs, and call Provisioning or the provider itself. Function
-- names are those of the Go code in small letters: createBucketAndConfigure is
-- `create_bucket_and_configure`, DriverGrantBucketAccess is `driver_grant_bucket_access`. A longer
-- Go function is cut into helpers, one for each block of it, which the function's model calls in
-- the order of the code.
--
-- State and errors: a call is a function from the state of the world outside to a result and the
-- state after it (`Go W A`, in Prelude/Effect and Errors), so what was done before an error stays
-- done. The world is a type `W` that theorems leave open, or the list of the calls made so far
-- (`recording` in Provider, `recorded` in Minio/Access and Aws/Clients), or the resolver's cache,
-- with a back end that may answer each call in any way that depends on the calls before it. A
-- value that Go returns beside an error, which no caller reads, is left out.
--
-- Parameters, since their code is not in the repository: the S3, IAM, MinIO and Kubernetes
-- clients; json.Marshal, json.Unmarshal, resource.ParseQuantity; the making of the SDKs' clients;
-- the verb %q; SHA-1. Of a MinIO server some theorems rely on `Settles` (Minio/Buckets), which a
-- server in Tests/Minio meets. A secret that is made with StringData is read as Data by the next
-- run: that the API server merges the one into the other is a hypothesis there (`IsMerged` in
-- Controller/Secrets). The methods of strings, strconv.ParseBool and the regular expressions are
-- functions of their own.
--
-- Bounds: strings are lists of bytes of any length; bytes of 128 and more are read as letters
-- without case, which is exact for ASCII text. Go's int64 numbers are unbounded integers, as no
-- arithmetic is done on them but the conversion to int32, whose wrap-around is written out. All
-- loops run over lists, so there is no fuel. A run of a reconciler is one call of Reconcile; what
-- happens between its requests is in the environment, whose answers depend on all of the run's
-- history.
--
-- Not modelled: contexts and their deadlines, logging, metrics, serving on a socket, start-up and
-- the registration of the reconcilers; providers without clients, which no constructor makes.
pub mod Prelude
pub mod Text
pub mod Errors
pub mod Api
pub mod Provider
pub mod Policy
pub mod Provisioning
pub mod Minio
pub mod Resolver
pub mod Aws
pub mod Cosi
pub mod Controller
mod Tests
