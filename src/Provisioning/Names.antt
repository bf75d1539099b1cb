-- ===== src/Provisioning/Names.antt =====
-- The name that provisioning returns, over any provider.
use k8s_s3_bucket_operator.Prelude.{[], ok, bind-eq-ok, ◌≡◌, ◌≢◌, arith}
use k8s_s3_bucket_operator.Text.{Text, eq_iff, trim_space, to_lower}
use k8s_s3_bucket_operator.Text.Laws.{
  to_lower_idem, trim_space_idem, trim_space-to_lower, to_lower-eq-nil,
}
use k8s_s3_bucket_operator.Api.{BucketClaim, BucketClass}
use k8s_s3_bucket_operator.Provider.{Provider}
use k8s_s3_bucket_operator.Provisioning.{bucket_name_for, create_bucket_and_configure}

module _ {W : Type 0} (mc : Provider W) where
  -- Whatever the provider does, the name that is returned is the claim's.
  pub create_bucket_and_configure-name :
      (claim : BucketClaim) (class : BucketClass) (w : W) {name : Text} {w' : W}
      → create_bucket_and_configure mc claim class w ≡ (ok name, w')
      → name ≡ bucket_name_for claim class
  unfolding create_bucket_and_configure
  create_bucket_and_configure-name claim class w h =
      let made = bind-eq-ok _ _ w h in
      let configured = bind-eq-ok _ _ made.between made.second in
      let limited = bind-eq-ok _ _ configured.between configured.second in
      let expiring = bind-eq-ok _ _ limited.between limited.second in
      let replicated = bind-eq-ok _ _ expiring.between expiring.second in cc (replicated.second)

-- A name that is trimmed and in lower case is taken as it is, whatever the class asks for.
pub bucket_name_for_named :
    (claim : BucketClaim) (class : BucketClass) (t : Text)
    → trim_space t ≢ []
    → claim.spec.bucket_name ≡ to_lower (trim_space t)
    → bucket_name_for claim class ≡ to_lower (trim_space t)
unfolding bucket_name_for
bucket_name_for_named claim class t h e =
    let name = to_lower (trim_space t) in
    ground (
      arith,
      eq_iff name [],
      to_lower-eq-nil (trim_space t),
      trim_space-to_lower (trim_space t),
      trim_space_idem t,
      to_lower_idem (trim_space t),
    )
