-- ===== src/Cosi/Server/Accounts.antt =====
-- Accounts in the requests that grant and revoke access.
use k8s_s3_bucket_operator.Prelude.{
  ℕ, suc, Bool, ◌||◌, some, [], ◌∷◌, ◌++◌, take, Result, ok, ◌>>=◌, bind-eq-ok, pure-eq-ok,
  Bool-cases, Option-cases, inl, inr, ◌≡◌, ◌≢◌, refl, arith, sym, ◌∙◌, ap, ap₂, subst,
}
use k8s_s3_bucket_operator.Text.{
  Text, codes, ◌==◌, eq_iff, eq_refl, trim_space, to_lower, cut, dashed, replace_byte,
}
use k8s_s3_bucket_operator.Text.Laws.{to_lower-eq-nil, cut_sound, cut-append, Lacks, dashed-ne-nil}
use k8s_s3_bucket_operator.Errors.{GoError, revoke_access}
use k8s_s3_bucket_operator.Api.{Params, BucketClaim, empty_claim, at_key}
use k8s_s3_bucket_operator.Provider.{Call, revoke, Calls, Backend, outcome, recording}
use k8s_s3_bucket_operator.Provisioning.{
  AccessCredentials, grant, account_id, labelled, grant_bucket_access, revoke_bucket_access,
}
use k8s_s3_bucket_operator.Provisioning.Access.{grant_call, Granted, grant-Granted}
use k8s_s3_bucket_operator.Provisioning.Extensions.{Parsers}
use k8s_s3_bucket_operator.Provisioning.Extensions.Laws.{apply_claim_parameter_extensions-Extended}
use k8s_s3_bucket_operator.Cosi.Mapper.{
  build_synthetic_claim_for_access, build_synthetic_claim, synthetic_claim_name,
}
use k8s_s3_bucket_operator.Cosi.Server.{
  reported, lift, parse_account, GrantRequest, GrantResponse, driver_grant_bucket_access,
  driver_revoke_bucket_access,
}
use k8s_s3_bucket_operator.Cosi.Server.Names.{unguarded, invalid-eq-ok, calling-eq-ok}

-- An account that is accepted is the account of the claim that it was taken apart to: the comparison
-- of the account with the joined parts never turns one away that has both.
pub parse_account_sound :
    (account : Text) (claim : BucketClaim)
    → parse_account account ≡ ok claim
    → (account_id claim ≡ account) × (claim.namespace ≢ []) × (claim.name ≢ [])
unfolding parse_account account_id dashed
parse_account_sound account claim h = elim (Option-cases (cut b'-' account)) [
  | inl e ↦ let impossible : ⊥ = ground arith in absurd impossible
  | inr ((a, b), e) ↦ ground (arith, eq_iff a [], eq_iff b [], cut_sound b'-' account e)
]

-- The account of a claim whose namespace has no dash, and whose namespace and name are not empty,
-- is taken apart to that namespace and that name.
pub parse_account-account_id :
    (claim : BucketClaim)
    → Lacks b'-' claim.namespace
    → claim.namespace ≢ []
    → claim.name ≢ []
    → parse_account (account_id claim)
      ≡ ok (record empty_claim { name = claim.name; namespace = claim.namespace })
unfolding parse_account account_id dashed
parse_account-account_id claim lacks h1 h2 = ground (
  arith,
  eq_iff claim.namespace [],
  eq_iff claim.name [],
  eq_refl (claim.namespace ++ b'-' ∷ claim.name),
  cut-append b'-' claim.namespace claim.name lacks,
)

take-ne-nil : (n : ℕ) (s : Text) → s ≢ [] → take (suc n) s ≢ []
take-ne-nil n [] h g = h refl
take-ne-nil n (c ∷ s) h g = cc

replace_byte-eq-nil : (a b : ℕ) (s : Text) → replace_byte a b s ≡ [] → s ≡ []
unfolding replace_byte
replace_byte-eq-nil a b [] h = refl
replace_byte-eq-nil a b (c ∷ s) h = cc

synthetic_claim_name-ne-nil : (name : Text) → synthetic_claim_name name ≢ []
unfolding synthetic_claim_name codes
synthetic_claim_name-ne-nil name = elim (Bool-cases (trim_space name == [])) [
  | inl h ↦ rw h (λ e. cc)
  | inr h ↦ rw h (
      take-ne-nil 62 _ λ e.
        let blank : trim_space name ≡ [] = to_lower-eq-nil _ (replace_byte-eq-nil _ _ _ e) in
        cc (h, (eq_iff (trim_space name) []).1 blank))
]

cosi-Lacks_dash : Lacks b'-' (codes "cosi")
unfolding codes
cosi-Lacks_dash = omega arith

cosi-ne-nil : codes "cosi" ≢ []
unfolding codes
cosi-ne-nil h = cc

-- An account of the driver's own is accepted.
parse_cosi_account :
    (name : Text)
    → name ≢ []
    → parse_account (dashed (codes "cosi") name)
      ≡ ok (record empty_claim { name = name; namespace = codes "cosi" })
unfolding account_id
parse_cosi_account name h =
    parse_account-account_id (record empty_claim { name = name; namespace = codes "cosi" })
      cosi-Lacks_dash cosi-ne-nil h

build_for_access-eq-ok :
    (namespace bucket access : Text) (parameters : Params) (claim : BucketClaim)
    → build_synthetic_claim_for_access namespace bucket access parameters ≡ ok claim
    → (claim.namespace ≡ namespace) × (claim.name ≡ synthetic_claim_name access)
unfolding build_synthetic_claim_for_access build_synthetic_claim
build_for_access-eq-ok namespace bucket access parameters claim h = ground arith

lift-eq-ok :
    {W A : Type 0} (r : Result GoError A) (w : W) {a : A} {w' : W} → lift r w ≡ (ok a, w') → w ≡ w'
lift-eq-ok r w h = cc

module _ (b : Backend) (hardens : Bool) where
  grant_calls :
      (claim : BucketClaim) (key secret bucket : Text) (before : Calls) {creds : AccessCredentials}
      {after : Calls}
      → grant (recording b hardens) claim bucket key secret before ≡ (ok creds, after)
      → after ≡ before ++ grant_call claim key secret bucket ∷ []
  grant_calls claim key secret bucket before h =
      (subst (Granted claim key secret bucket before) h
        (grant-Granted claim key secret b hardens bucket before)).1

module _ (quote : Text → Text) (parsers : Parsers) (driver_name : Text) (b : Backend)
    (hardens : Bool) where
  -- What a successful grant has done.
  record GrantedFor (req : GrantRequest) (before : Calls) (resp : GrantResponse) (after : Calls)
      : Type 0 where
    claim : BucketClaim
    key : Text
    secret : Text
    account : resp.account_id ≡ account_id claim
    namespace : claim.namespace ≡ codes "cosi"
    name : claim.name ≡ synthetic_claim_name req.name
    bucket : trim_space req.bucket_id ≢ []
    calls : after ≡ before ++ grant_call claim key secret (to_lower (trim_space req.bucket_id)) ∷ []

  grant_GrantedFor :
      (req : GrantRequest) (before : Calls) (resp : GrantResponse) (after : Calls)
      → driver_grant_bucket_access quote parsers driver_name (recording b hardens) (some req) before
        ≡ (ok resp, after)
      → GrantedFor req before resp after
  unfolding driver_grant_bucket_access grant_bucket_access
  grant_GrantedFor req before resp after h =
      let (open_gate, body) =
        unguarded (trim_space req.bucket_id == [] || trim_space req.name == []) _ _ _ (λ e. cc) h in
      let checked = bind-eq-ok _ _ before body in
      let built = bind-eq-ok _ _ checked.between checked.second in
      let applied = bind-eq-ok _ _ built.between built.second in
      let granted = bind-eq-ok _ _ applied.between applied.second in
      let key = trim_space (at_key req.parameters (codes "existingAccessKey")) in
      let secret = trim_space (at_key req.parameters (codes "existingSecretKey")) in
      let bucket = to_lower (trim_space req.bucket_id) in
      let (namespace, name) =
        build_for_access-eq-ok (codes "cosi") (trim_space req.bucket_id) req.name req.parameters
          built.value (invalid-eq-ok _ checked.between built.first).0 in
      let extended =
        apply_claim_parameter_extensions-Extended quote parsers built.value req.parameters
          applied.value (invalid-eq-ok _ built.between applied.first).0 in
      let reached : before ≡ applied.between =
        lift-eq-ok _ before checked.first
        ∙ (invalid-eq-ok _ checked.between built.first).1
        ∙ (invalid-eq-ok _ built.between applied.first).1 in
      let called = grant_calls b hardens applied.value key secret bucket applied.between (
        calling-eq-ok (grant_bucket_access (recording b hardens) applied.value bucket key secret)
          applied.between granted.first) in
      record {
        claim = applied.value;
        key = key;
        secret = secret;
        account = sym (
            ap (λ (r : GrantResponse). r.account_id) (pure-eq-ok _ granted.between granted.second));
        namespace = extended.rest.namespace ∙ namespace;
        name = extended.rest.name ∙ name;
        bucket = λ e. ground (arith, eq_iff (trim_space req.bucket_id) []);
        calls =
            sym (lift-eq-ok _ granted.between granted.second)
            ∙ called
            ∙ ap (λ (t : Calls). t ++ grant_call applied.value key secret bucket ∷ [])
                (sym reached);
      }

  revoke_own :
      (bucket_id name : Text) (later : Calls)
      → trim_space bucket_id ≢ []
      → name ≢ []
      → trim_space (dashed (codes "cosi") name) ≡ dashed (codes "cosi") name
      → let bucket = to_lower (trim_space bucket_id) in
        let account = dashed (codes "cosi") name in
        driver_revoke_bucket_access quote parsers driver_name
          (recording b hardens)
          (some (record { bucket_id = bucket_id; account_id = account }))
          later
        ≡ (
          reported (
              labelled revoke_access bucket (outcome (b.failure later (revoke bucket account [])))),
          later ++ revoke bucket account [] ∷ [],
        )
  unfolding driver_revoke_bucket_access revoke_bucket_access account_id ◌>>=◌
  revoke_own bucket_id name later named given trimmed =
      let account = dashed (codes "cosi") name in
      ground (
        arith,
        eq_iff (trim_space bucket_id) [],
        eq_iff (trim_space account) [],
        dashed-ne-nil (codes "cosi") name,
        parse_cosi_account name given,
      )

  -- After a successful grant: the account in the response is the one that the provider was asked to
  -- grant the bucket to, and a later request to revoke it, if trimming leaves it as it is, asks the
  -- provider to revoke that account's access to that bucket, and ends as that call does.
  pub revoke_undoes_grant :
      (req : GrantRequest) (before : Calls) (resp : GrantResponse) (after : Calls)
      → driver_grant_bucket_access quote parsers driver_name (recording b hardens) (some req) before
        ≡ (ok resp, after)
      → trim_space resp.account_id ≡ resp.account_id
      → let bucket = to_lower (trim_space req.bucket_id) in
        ((access key secret : Text) × (after
            ≡ before ++ Call.grant bucket resp.account_id access key secret ∷ []))
        × ((later : Calls)
            → driver_revoke_bucket_access quote parsers driver_name
                (recording b hardens)
                (some (record { bucket_id = req.bucket_id; account_id = resp.account_id }))
                later
              ≡ (
                reported (
                    labelled revoke_access bucket
                      (outcome (b.failure later (revoke bucket resp.account_id [])))),
                later ++ revoke bucket resp.account_id [] ∷ [],
              ))
  revoke_undoes_grant req before resp after h trimmed =
      let g = grant_GrantedFor req before resp after h in
      let own : resp.account_id ≡ dashed (codes "cosi") (synthetic_claim_name req.name) =
        g.account ∙ (unfold account_id in ap₂ dashed g.namespace g.name) in
      (
        (g.claim.spec.access_type, g.key, g.secret, rw g.account g.calls),
        λ later.
            subst
              (λ (account : Text).
                driver_revoke_bucket_access quote parsers driver_name (recording b hardens)
                  (some (record { bucket_id = req.bucket_id; account_id = account })) later
                ≡ (
                  reported (
                      labelled revoke_access (to_lower (trim_space req.bucket_id)) (
                        outcome (
                          b.failure later
                            (revoke (to_lower (trim_space req.bucket_id)) account [])))),
                  later ++ revoke (to_lower (trim_space req.bucket_id)) account [] ∷ [],
                ))
              (sym own)
              (revoke_own req.bucket_id (synthetic_claim_name req.name) later g.bucket
                (synthetic_claim_name-ne-nil req.name)
                (subst (λ (t : Text). trim_space t ≡ t) own trimmed)),
      )
