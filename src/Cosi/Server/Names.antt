-- ===== src/Cosi/Server/Names.antt =====
-- Which bucket the COSI driver creates.
use k8s_s3_bucket_operator.Prelude.{
  Bool, true, false, some, [], Result, ok, err, bind-eq-ok, pure-eq-ok, if◌then◌else◌, ◌≡◌, ◌≢◌,
  refl, arith, sym, ◌∙◌, ap,
}
use k8s_s3_bucket_operator.Text.{Text, codes, ◌==◌, eq_iff, trim_space, to_lower}
use k8s_s3_bucket_operator.Errors.{GoError, Go}
use k8s_s3_bucket_operator.Api.{Params, BucketClaim}
use k8s_s3_bucket_operator.Provider.{Provider}
use k8s_s3_bucket_operator.Provisioning.{provision_bucket}
use k8s_s3_bucket_operator.Provisioning.Names.{
  create_bucket_and_configure-name, bucket_name_for_named,
}
use k8s_s3_bucket_operator.Provisioning.Extensions.{Parsers}
use k8s_s3_bucket_operator.Provisioning.Extensions.Laws.{apply_claim_parameter_extensions-Extended}
use k8s_s3_bucket_operator.Cosi.Mapper.{build_synthetic_claim, synthetic_claim_name}
use k8s_s3_bucket_operator.Cosi.Server.{
  invalid, reported, calling, lift, CreateRequest, CreateResponse, driver_create_bucket,
}

-- A guard that did not turn the request away.
pub unguarded :
    {A : Type 0} (b : Bool) (x y z : A)
    → (x ≡ z → ⊥)
    → (if b then x else y) ≡ z
    → (b ≡ false) × (y ≡ z)
unguarded true x y z ne h = absurd (ne h)
unguarded false x y z ne h = (refl, h)

-- The value of a successful part of a request's content.
pub invalid-eq-ok :
    {W A : Type 0} (r : Result GoError A) (w : W) {a : A} {w' : W}
    → lift (invalid r) w ≡ (ok a, w')
    → (r ≡ ok a) × (w ≡ w')
invalid-eq-ok (ok a) w h = (cc, cc)
invalid-eq-ok (err e) w h = cc

reported-eq-ok :
    {W A : Type 0} (r : Result GoError A) (w : W) {a : A} {w' : W}
    → ◌≡◌ {A = Result GoError A × W} (reported r, w) (ok a, w')
    → ◌≡◌ {A = Result GoError A × W} (r, w) (ok a, w')
reported-eq-ok (ok x) w h = h
reported-eq-ok (err e) w h = cc

pub calling-eq-ok :
    {W A : Type 0} (m : Go W A) (w : W) {a : A} {w' : W}
    → calling m w ≡ (ok a, w')
    → m w ≡ (ok a, w')
calling-eq-ok m w h = let (r, w1) = m w in reported-eq-ok r w1 h

pub build_synthetic_claim-eq-ok :
    (namespace name : Text) (parameters : Params) (claim : BucketClaim)
    → build_synthetic_claim namespace name parameters ≡ ok claim
    → (trim_space name ≢ [])
      × (claim.namespace ≡ namespace)
      × (claim.name ≡ synthetic_claim_name (trim_space name))
      × (claim.spec.bucket_name ≡ to_lower (trim_space name))
unfolding build_synthetic_claim
build_synthetic_claim-eq-ok namespace name parameters claim h =
    ground (arith, eq_iff (trim_space name) [])

module _ {W : Type 0} (quote : Text → Text) (parsers : Parsers) (driver_name : Text)
    (mc : Provider W) where
  -- A bucket that the driver has created is named by the request's name, trimmed and in lower case,
  -- whatever the parameters say.
  pub driver_create_bucket-bucket_id :
      (req : CreateRequest) (w : W) (resp : CreateResponse) (w' : W)
      → driver_create_bucket quote parsers driver_name mc (some req) w ≡ (ok resp, w')
      → resp.bucket_id ≡ to_lower (trim_space req.name)
  unfolding driver_create_bucket provision_bucket
  driver_create_bucket-bucket_id req w resp w' h =
      let (_, body) = unguarded (trim_space req.name == []) _ _ _ (λ e. cc) h in
      let built = bind-eq-ok _ _ w body in
      let applied = bind-eq-ok _ _ built.between built.second in
      let classed = bind-eq-ok _ _ applied.between applied.second in
      let made = bind-eq-ok _ _ classed.between classed.second in
      let (named, _, _, bucket_name) =
        build_synthetic_claim-eq-ok (codes "cosi") req.name req.parameters built.value
          (invalid-eq-ok _ w built.first).0 in
      let extended =
        apply_claim_parameter_extensions-Extended quote parsers built.value req.parameters
          applied.value (invalid-eq-ok _ built.between applied.first).0 in
      let returned =
        create_bucket_and_configure-name mc applied.value classed.value classed.between (
          calling-eq-ok (provision_bucket mc applied.value classed.value) classed.between
            made.first) in
      sym (ap (λ (r : CreateResponse). r.bucket_id) (pure-eq-ok _ made.between made.second))
      ∙ returned
      ∙ bucket_name_for_named applied.value classed.value req.name named
          (extended.rest.bucket_name ∙ bucket_name)
