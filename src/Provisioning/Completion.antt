-- ===== src/Provisioning/Completion.antt =====
-- Which answers of a provider provisioning takes for complete.
use k8s_s3_bucket_operator.Prelude.{[], ◌∷◌, ok, ◌≡◌, ◌≢◌, refl, arith}
use k8s_s3_bucket_operator.Text.{Text, codes, ◌==◌, eq_iff, trim_space}
use k8s_s3_bucket_operator.Api.{Params, at_key, lookup}
use k8s_s3_bucket_operator.Provisioning.{complete}

-- A grant's answer, as both providers give it.
abbrev pub answer : Text → Text → Text → Text → Params
answer bucket key secret endpoint =
    (codes "accessKeyID", key)
    ∷ (codes "accessSecretKey", secret)
    ∷ (codes "bucketName", bucket)
    ∷ (codes "endpoint", endpoint)
    ∷ []

read_back :
    (bucket key secret endpoint : Text)
    → (at_key (answer bucket key secret endpoint) (codes "accessKeyID") ≡ key)
      × (at_key (answer bucket key secret endpoint) (codes "accessSecretKey") ≡ secret)
      × (at_key (answer bucket key secret endpoint) (codes "endpoint") ≡ endpoint)
unfolding at_key lookup codes ◌==◌
read_back bucket key secret endpoint = (refl, refl, refl)

-- An answer in which nothing is blank is accepted, trimmed.
pub completed :
    (bucket key secret endpoint : Text)
    → trim_space key ≢ []
    → trim_space secret ≢ []
    → trim_space endpoint ≢ []
    → complete bucket (answer bucket key secret endpoint)
      ≡ ok (record {
        access_key_id = trim_space key;
        access_secret_key = trim_space secret;
        bucket_name = bucket;
        endpoint = trim_space endpoint;
      })
unfolding complete
completed bucket key secret endpoint h1 h2 h3 = ground (
  arith,
  read_back bucket key secret endpoint,
  eq_iff (trim_space key) [],
  eq_iff (trim_space secret) [],
  eq_iff (trim_space endpoint) [],
)
