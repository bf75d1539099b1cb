-- ===== src/Provisioning/Outcome.antt =====
-- How provisioning ends, and which calls it has made by then.
use k8s_s3_bucket_operator.Prelude.{
  ◌++◌, Bool, none, some, List, [], ◌∷◌, append_assoc, append-nil, Result, ok, err, continue, ◌>>=◌,
  Option-cases, inl, inr, ◌≡◌, refl, arith, ◌∙◌, sym, ap,
}
use k8s_s3_bucket_operator.Text.{Text}
use k8s_s3_bucket_operator.Errors.{GoError, provisioning}
use k8s_s3_bucket_operator.Api.{BucketClaim, BucketClass}
use k8s_s3_bucket_operator.Provider.{Calls, Backend, recording}
use k8s_s3_bucket_operator.Provisioning.{bucket_name_for, create_bucket_and_configure}
use k8s_s3_bucket_operator.Provisioning.Plan.{
  Step, plan, replica_calls, carry_out, finish, create_bucket_and_configure-plan,
}

abbrev pub calls_of : List Step → Calls
calls_of [] = []
calls_of (s ∷ steps) = s.call ∷ calls_of steps

-- The plan stopped at its step `failed`, which the back end refused with `cause`.
pub record StoppedAt (b : Backend) (bucket : Text) (steps : List Step) (before : Calls)
    (e : GoError) (after : Calls) : Type 0 where
  pub done : List Step
  pub failed : Step
  pub left : List Step
  pub cause : GoError
  pub split : steps ≡ done ++ failed ∷ left
  pub refused : b.failure (before ++ calls_of done) failed.call ≡ some cause
  pub reported : e ≡ provisioning failed.operation bucket cause
  pub made : after ≡ before ++ calls_of (done ++ failed ∷ [])

-- Either the whole plan was carried out, or it stopped at a step.
abbrev pub Carried : Backend → Text → List Step → Calls → Result GoError (Unit {0}) × Calls → Type 0
Carried b bucket steps before (ok _, after) = after ≡ before ++ calls_of steps
Carried b bucket steps before (err e, after) = StoppedAt b bucket steps before e after

module _ (b : Backend) (bucket : Text) where
  Carried-cons :
      (s : Step) (steps : List Step) (calls : Calls) (p : Result GoError (Unit {0}) × Calls)
      → b.failure calls s.call ≡ none
      → Carried b bucket steps (calls ++ s.call ∷ []) p
      → Carried b bucket (s ∷ steps) calls p
  Carried-cons s steps calls (ok _, after) h c =
      c ∙ append_assoc calls (s.call ∷ []) (calls_of steps)
  Carried-cons s steps calls (err e, after) h c = record {
    done = s ∷ c.done;
    failed = c.failed;
    left = c.left;
    cause = c.cause;
    split = ap (λ (l : List Step). s ∷ l) c.split;
    refused = rw (← append_assoc calls (s.call ∷ []) (calls_of c.done)) c.refused;
    reported = c.reported;
    made = c.made ∙ append_assoc calls (s.call ∷ []) (calls_of (c.done ++ c.failed ∷ []));
  }

  carry_out_passed :
      (s : Step) (steps : List Step) (calls : Calls)
      → b.failure calls s.call ≡ none
      → carry_out b bucket (s ∷ steps) calls ≡ carry_out b bucket steps (calls ++ s.call ∷ [])
  unfolding carry_out
  carry_out_passed s steps calls h = ground arith

  carry_out_refused :
      (s : Step) (steps : List Step) (calls : Calls) (e : GoError)
      → b.failure calls s.call ≡ some e
      → carry_out b bucket (s ∷ steps) calls
        ≡ (err (provisioning s.operation bucket e), calls ++ s.call ∷ [])
  unfolding carry_out
  carry_out_refused s steps calls e h = ground arith

  -- Carrying out a plan ends at its first refused step, or makes every call of it.
  pub carry_out-Carried :
      (steps : List Step) (calls : Calls)
      → Carried b bucket steps calls (carry_out b bucket steps calls)
  carry_out-Carried [] calls = unfold carry_out in sym (append-nil calls)
  carry_out-Carried (s ∷ steps) calls = elim (Option-cases (b.failure calls s.call)) [
    | inl h ↦
        rw (carry_out_passed s steps calls h)
          (Carried-cons s steps calls _ h (carry_out-Carried steps (calls ++ s.call ∷ [])))
    | inr (e, h) ↦ rw (carry_out_refused s steps calls e h) (record {
      done = [];
      failed = s;
      left = steps;
      cause = e;
      split = refl;
      refused = rw append-nil h;
      reported = refl;
      made = refl;
    })
  ]

-- What a run of `create_bucket_and_configure` may have come to.
abbrev pub Provisioned :
    Backend → Bool → BucketClaim → BucketClass → Calls → Result GoError Text × Calls → Type 0
Provisioned b hardens claim class before (ok name, after) =
    (name ≡ bucket_name_for claim class)
    × (after
        ≡ (before ++ calls_of (plan hardens claim class))
          ++ replica_calls (bucket_name_for claim class) claim.spec.replication_target)
Provisioned b hardens claim class before (err e, after) =
    StoppedAt b (bucket_name_for claim class) (plan hardens claim class) before e after

module _ (b : Backend) (hardens : Bool) (claim : BucketClaim) (class : BucketClass)
    (before : Calls) where
  finish-Provisioned :
      (p : Result GoError (Unit {0}) × Calls)
      → Carried b (bucket_name_for claim class) (plan hardens claim class) before p
      → let (r, w) = p in
        Provisioned b hardens claim class before
          (continue (λ _. finish (bucket_name_for claim class) claim.spec.replication_target) w r)
  finish-Provisioned (ok _, after) c = (
    refl,
    ap
        (λ (t : Calls).
          t ++ replica_calls (bucket_name_for claim class) claim.spec.replication_target)
        c,
  )
  finish-Provisioned (err e, after) c = c

  -- A run that returns a name returns the bucket's, after every call of the plan and the call for
  -- the replication, if there is a target, whatever that call answers. A run that returns an error
  -- has made the calls of the plan up to the first that was refused, none behind it, and reports the
  -- cause under that step's operation and the bucket's name.
  pub create_bucket_and_configure-Provisioned :
      Provisioned b hardens claim class before
        (create_bucket_and_configure (recording b hardens) claim class before)
  unfolding ◌>>=◌
  create_bucket_and_configure-Provisioned =
      rw (create_bucket_and_configure-plan b hardens claim class) (
        finish-Provisioned _
          (carry_out-Carried b (bucket_name_for claim class) (plan hardens claim class) before))
