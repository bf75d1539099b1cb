-- ===== src/Provisioning/Extensions/Laws.antt =====
-- What the parameters change in a claim, and what they leave alone.
use k8s_s3_bucket_operator.Prelude.{Option, none, some, List, Result, ok, err, ◌≡◌, refl, ap, ◌∙◌}
use k8s_s3_bucket_operator.Text.{Text, codes, trim_space}
use k8s_s3_bucket_operator.Errors.{GoError}
use k8s_s3_bucket_operator.Api.{Params, LifecycleRule, ReplicationTarget, Quantity, BucketClaim}
use k8s_s3_bucket_operator.Provisioning.Extensions.{
  Parsers, given, bind, assigned, overlay, with_quota, with_access_type, with_rules, with_target,
  apply_claim_parameter_extensions,
}

-- A setting that may be given: as it was, or what the given text is parsed to.
abbrev pub Setting :
    {A B : Type 0} → Option Text → (Text → Result GoError A) → (A → B) → B → B → Type 0
Setting none parse inject old new = new ≡ old
Setting {A} (some v) parse inject old new = (a : A) × (parse v ≡ ok a) × (new ≡ inject a)

-- Everything but the four settings.
pub record SameIdentity (old new : BucketClaim) : Type 0 where
  pub name : new.name ≡ old.name
  pub namespace : new.namespace ≡ old.namespace
  pub generation : new.generation ≡ old.generation
  pub being_deleted : new.being_deleted ≡ old.being_deleted
  pub finalizers : new.finalizers ≡ old.finalizers
  pub bucket_name : new.spec.bucket_name ≡ old.spec.bucket_name
  pub class_name : new.spec.bucket_class_name ≡ old.spec.bucket_class_name
  pub protocols : new.spec.protocols ≡ old.spec.protocols
  pub status : new.status ≡ old.status

bind-eq-ok :
    {A B : Type 0} (r : Result GoError A) (f : A → Result GoError B) {b : B}
    → bind r f ≡ ok b
    → (a : A) × (r ≡ ok a) × (f a ≡ ok b)
bind-eq-ok (ok a) f h = (a, refl, h)
bind-eq-ok (err e) f h = cc

-- What one setting has done to a claim.
abbrev Overlaid :
    {A : Type 0}
    → Option Text
    → (Text → Result GoError A)
    → (A → BucketClaim → BucketClaim)
    → BucketClaim
    → BucketClaim
    → Type 0
Overlaid none parse assign old new = new ≡ old
Overlaid {A} (some v) parse assign old new = (a : A) × (parse v ≡ ok a) × (new ≡ assign a old)

assigned-eq-ok :
    {A : Type 0} (prefix : Text) (assign : A → BucketClaim → BucketClaim) (old : BucketClaim)
    (r : Result GoError A) {new : BucketClaim}
    → assigned prefix assign old r ≡ ok new
    → (a : A) × (r ≡ ok a) × (new ≡ assign a old)
assigned-eq-ok prefix assign old (ok a) h = (a, refl, cc)
assigned-eq-ok prefix assign old (err e) h = cc

overlay-Overlaid :
    {A : Type 0} (v : Option Text) (parse : Text → Result GoError A) (prefix : Text → Text)
    (assign : A → BucketClaim → BucketClaim) (old : BucketClaim) {new : BucketClaim}
    → overlay v parse prefix assign old ≡ ok new
    → Overlaid v parse assign old new
overlay-Overlaid none parse prefix assign old h = cc
overlay-Overlaid (some v) parse prefix assign old h =
    assigned-eq-ok (prefix v) assign old (parse v) h

module _ {A B : Type 0} (parse : Text → Result GoError A) (assign : A → BucketClaim → BucketClaim)
    (field : BucketClaim → B) where
  Overlaid-keeps :
      ((a : A) (c : BucketClaim) → field (assign a c) ≡ field c)
      → (v : Option Text) (old new : BucketClaim) → Overlaid v parse assign old new
      → field new ≡ field old
  Overlaid-keeps same none old new e = ap field e
  Overlaid-keeps same (some v) old new (a, _, e) = ap field e ∙ same a old

  Overlaid-Setting :
      (inject : A → B)
      → ((a : A) (c : BucketClaim) → field (assign a c) ≡ inject a)
      → (v : Option Text) (old new : BucketClaim) → Overlaid v parse assign old new
      → Setting v parse inject (field old) (field new)
  Overlaid-Setting inject sets none old new e = ap field e
  Overlaid-Setting inject sets (some v) old new (a, p, e) = (a, p, ap field e ∙ sets a old)

module _ (quote : Text → Text) (parsers : Parsers) (old : BucketClaim) (parameters : Params) where
  -- The four settings of the claim after the parameters have been read.
  pub record Extended (new : BucketClaim) : Type 0 where
    pub quota :
        Setting
          (given (codes "quota") parameters)
          (λ q. parsers.quantity (trim_space q))
          some
          old.spec.quota
          new.spec.quota
    pub access_type :
        Setting
          (given (codes "accessType") parameters)
          (λ t. ok (trim_space t))
          (λ t. t)
          old.spec.access_type
          new.spec.access_type
    pub rules :
        Setting
          (given (codes "lifecycleRules") parameters)
          parsers.rules
          (λ r. r)
          old.spec.lifecycle_rules
          new.spec.lifecycle_rules
    pub target :
        Setting
          (given (codes "replicationTarget") parameters)
          parsers.target
          some
          old.spec.replication_target
          new.spec.replication_target
    pub rest : SameIdentity old new

  abbrev parse_quota : Text → Result GoError Quantity
  parse_quota q = parsers.quantity (trim_space q)

  abbrev parse_access : Text → Result GoError Text
  parse_access t = ok (trim_space t)

  -- The claims between the four settings.
  record Steps (new : BucketClaim) : Type 0 where
    limited : BucketClaim
    shared : BucketClaim
    expiring : BucketClaim
    to_limited : Overlaid (given (codes "quota") parameters) parse_quota with_quota old limited
    to_shared :
        Overlaid
          (given (codes "accessType") parameters)
          parse_access
          with_access_type
          limited
          shared
    to_expiring :
        Overlaid
          (given (codes "lifecycleRules") parameters)
          parsers.rules
          with_rules
          shared
          expiring
    to_new :
        Overlaid
          (given (codes "replicationTarget") parameters)
          parsers.target
          with_target
          expiring
          new

  steps :
      (new : BucketClaim)
      → apply_claim_parameter_extensions quote parsers old parameters ≡ ok new
      → Steps new
  unfolding apply_claim_parameter_extensions
  steps new h =
      let (c1, h1, g1) = bind-eq-ok _ _ h in
      let (c2, h2, g2) = bind-eq-ok _ _ g1 in
      let (c3, h3, g3) = bind-eq-ok _ _ g2 in
      record {
        limited = c1;
        shared = c2;
        expiring = c3;
        to_limited = overlay-Overlaid _ _ _ _ old h1;
        to_shared = overlay-Overlaid _ _ _ _ c1 h2;
        to_expiring = overlay-Overlaid _ _ _ _ c2 h3;
        to_new = overlay-Overlaid _ _ _ _ c3 g3;
      }

  module _ (new : BucketClaim) (s : Steps new) where
    limited_kept :
        {B : Type 0} (field : BucketClaim → B)
        → ((q : Quantity) (c : BucketClaim) → field (with_quota q c) ≡ field c)
        → field s.limited ≡ field old
    limited_kept field same =
        Overlaid-keeps parse_quota with_quota field same (given (codes "quota") parameters) old
          s.limited s.to_limited

    shared_kept :
        {B : Type 0} (field : BucketClaim → B)
        → ((t : Text) (c : BucketClaim) → field (with_access_type t c) ≡ field c)
        → field s.shared ≡ field s.limited
    shared_kept field same =
        Overlaid-keeps parse_access with_access_type field same
          (given (codes "accessType") parameters) s.limited s.shared s.to_shared

    expiring_kept :
        {B : Type 0} (field : BucketClaim → B)
        → ((r : List LifecycleRule) (c : BucketClaim) → field (with_rules r c) ≡ field c)
        → field s.expiring ≡ field s.shared
    expiring_kept field same =
        Overlaid-keeps parsers.rules with_rules field same
          (given (codes "lifecycleRules") parameters) s.shared s.expiring s.to_expiring

    new_kept :
        {B : Type 0} (field : BucketClaim → B)
        → ((t : ReplicationTarget) (c : BucketClaim) → field (with_target t c) ≡ field c)
        → field new ≡ field s.expiring
    new_kept field same =
        Overlaid-keeps parsers.target with_target field same
          (given (codes "replicationTarget") parameters) s.expiring new s.to_new

    -- A field that no setting writes.
    kept :
        {B : Type 0} (field : BucketClaim → B)
        → ((q : Quantity) (c : BucketClaim) → field (with_quota q c) ≡ field c)
        → ((t : Text) (c : BucketClaim) → field (with_access_type t c) ≡ field c)
        → ((r : List LifecycleRule) (c : BucketClaim) → field (with_rules r c) ≡ field c)
        → ((t : ReplicationTarget) (c : BucketClaim) → field (with_target t c) ≡ field c)
        → field new ≡ field old
    kept field k1 k2 k3 k4 =
        new_kept field k4 ∙ expiring_kept field k3 ∙ shared_kept field k2 ∙ limited_kept field k1

    identity : SameIdentity old new
    identity = record {
      name = kept (λ c. c.name) (λ _ _. refl) (λ _ _. refl) (λ _ _. refl) (λ _ _. refl);
      namespace = kept (λ c. c.namespace) (λ _ _. refl) (λ _ _. refl) (λ _ _. refl) (λ _ _. refl);
      generation = kept (λ c. c.generation) (λ _ _. refl) (λ _ _. refl) (λ _ _. refl) (λ _ _. refl);
      being_deleted =
          kept (λ c. c.being_deleted) (λ _ _. refl) (λ _ _. refl) (λ _ _. refl) (λ _ _. refl);
      finalizers = kept (λ c. c.finalizers) (λ _ _. refl) (λ _ _. refl) (λ _ _. refl) (λ _ _. refl);
      bucket_name =
          kept (λ c. c.spec.bucket_name) (λ _ _. refl) (λ _ _. refl) (λ _ _. refl) (λ _ _. refl);
      class_name =
          kept (λ c. c.spec.bucket_class_name) (λ _ _. refl) (λ _ _. refl) (λ _ _. refl)
            (λ _ _. refl);
      protocols =
          kept (λ c. c.spec.protocols) (λ _ _. refl) (λ _ _. refl) (λ _ _. refl) (λ _ _. refl);
      status = kept (λ c. c.status) (λ _ _. refl) (λ _ _. refl) (λ _ _. refl) (λ _ _. refl);
    }

    extended : Extended new
    extended = record {
      quota =
          rw
            (
              new_kept (λ c. c.spec.quota) (λ _ _. refl),
              expiring_kept (λ c. c.spec.quota) (λ _ _. refl),
              shared_kept (λ c. c.spec.quota) (λ _ _. refl),
            )
            (Overlaid-Setting parse_quota with_quota (λ c. c.spec.quota) some (λ _ _. refl)
              (given (codes "quota") parameters) old s.limited s.to_limited);
      access_type =
          rw
            (
              new_kept (λ c. c.spec.access_type) (λ _ _. refl),
              expiring_kept (λ c. c.spec.access_type) (λ _ _. refl),
              ← limited_kept (λ c. c.spec.access_type) (λ _ _. refl),
            )
            (Overlaid-Setting parse_access with_access_type (λ c. c.spec.access_type) (λ t. t)
              (λ _ _. refl) (given (codes "accessType") parameters) s.limited s.shared s.to_shared);
      rules =
          rw
            (
              new_kept (λ c. c.spec.lifecycle_rules) (λ _ _. refl),
              ← limited_kept (λ c. c.spec.lifecycle_rules) (λ _ _. refl),
              ← shared_kept (λ c. c.spec.lifecycle_rules) (λ _ _. refl),
            )
            (Overlaid-Setting parsers.rules with_rules (λ c. c.spec.lifecycle_rules) (λ r. r)
              (λ _ _. refl) (given (codes "lifecycleRules") parameters) s.shared s.expiring
              s.to_expiring);
      target =
          rw
            (
              ← limited_kept (λ c. c.spec.replication_target) (λ _ _. refl),
              ← shared_kept (λ c. c.spec.replication_target) (λ _ _. refl),
              ← expiring_kept (λ c. c.spec.replication_target) (λ _ _. refl),
            )
            (Overlaid-Setting parsers.target with_target (λ c. c.spec.replication_target) some
              (λ _ _. refl) (given (codes "replicationTarget") parameters) s.expiring new s.to_new);
      rest = identity;
    }

  -- Reading the parameters, if it succeeds, sets each of the four settings that is given to what its
  -- text is parsed to, and leaves the settings that are not given and the rest of the claim alone.
  pub apply_claim_parameter_extensions-Extended :
      (new : BucketClaim)
      → apply_claim_parameter_extensions quote parsers old parameters ≡ ok new
      → Extended new
  apply_claim_parameter_extensions-Extended new h = extended new (steps new h)
