-- ===== src/Policy.antt =====
-- The IAM policies scoped to one bucket: internal/minio/client.go (bucketPolicy,
-- bucketPolicyReadOnly) and internal/backend/aws/policy.go (bucketPolicyDocument).
use k8s_s3_bucket_operator.Prelude.{◌++◌, Bool, List, [], ◌∷◌, if◌then◌else◌, not}
use k8s_s3_bucket_operator.Text.{Text, codes}

-- A document of version 2012-10-17 with the one statement: Effect "Allow", and what it is for.
pub record AccessPolicy : Type 0 where
  pub actions : List Text
  pub resources : List Text

-- The bucket and all that is in it.
abbrev pub resources_of : Text → List Text
resources_of bucket =
    (codes "arn:aws:s3:::" ++ bucket) ∷ (codes "arn:aws:s3:::" ++ (bucket ++ codes "/*")) ∷ []

-- `bucketPolicy`
unfoldable pub bucket_policy : Text → AccessPolicy
bucket_policy bucket = record {
  actions =
      codes "s3:GetObject"
      ∷ codes "s3:PutObject"
      ∷ codes "s3:DeleteObject"
      ∷ codes "s3:ListBucket"
      ∷ codes "s3:GetBucketLocation"
      ∷ [];
  resources = resources_of bucket;
}

-- `bucketPolicyReadOnly`
unfoldable pub bucket_policy_read_only : Text → AccessPolicy
bucket_policy_read_only bucket = record {
  actions = codes "s3:GetObject" ∷ codes "s3:ListBucket" ∷ codes "s3:GetBucketLocation" ∷ [];
  resources = resources_of bucket;
}

-- The document of `bucketPolicyDocument`.
unfoldable pub bucket_policy_document : Text → Bool → AccessPolicy
bucket_policy_document bucket read_only =
    let reading =
      codes "s3:GetObject" ∷ codes "s3:ListBucket" ∷ codes "s3:GetBucketLocation" ∷ [] in
    record {
      actions =
          if not read_only
          then reading ++ codes "s3:PutObject" ∷ codes "s3:DeleteObject" ∷ []
          else reading;
      resources = resources_of bucket;
    }
