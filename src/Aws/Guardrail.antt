-- ===== src/Aws/Guardrail.antt =====
-- What merging a user's bucket policy keeps.
use k8s_s3_bucket_operator.Prelude.{
  true, Option, none, some, ok, Bool-cases, inl, inr, ◌≡◌, ◌≢◌, ◌⊎◌, ◌∙◌, refl, arith,
}
use k8s_s3_bucket_operator.Text.{Text, codes, ◌==◌, eq_iff, eq_refl}
use k8s_s3_bucket_operator.Aws.Json.{
  Json, array, Items, nil, cons, Fields, empty, with, field, set, join, versioned, statements,
  merge_policies,
}
use k8s_s3_bucket_operator.Aws.Security.{guardrails, tls_only_statement}

field-set : (k : Text) (v : Json) (doc : Fields) → field k (set k v doc) ≡ some v
unfolding field set
field-set k v empty = rw (eq_refl k) refl
field-set k v (with j w rest) = elim (Bool-cases (j == k)) [
  | inl e ↦ rw (e, eq_refl k) refl
  | inr e ↦ rw (e, e) (field-set k v rest)
]

field-set_other :
    (k j : Text) (v : Json) (doc : Fields) → j ≢ k → field k (set j v doc) ≡ field k doc
unfolding field set
field-set_other k j v empty h = ground (arith, eq_iff j k)
field-set_other k j v (with i w rest) h =
    ground (arith, eq_iff i j, eq_iff j k, eq_iff i k, field-set_other k j v rest h)

guardrail_statements :
    (bucket : Text)
    → statements (guardrails true bucket) ≡ ok (cons (tls_only_statement bucket) nil)
unfolding statements guardrails field codes ◌==◌
guardrail_statements bucket = refl

-- The merged document, written out.
abbrev outcome_of : Text → Fields → Items → Fields
outcome_of bucket user theirs =
    set (codes "Statement") (array (cons (tls_only_statement bucket) theirs))
      (versioned (guardrails true bucket) user (field (codes "Version") user))

merge_policies_lem :
    (bucket : Text) (user : Fields) (theirs : Items)
    → statements user ≡ ok theirs
    → merge_policies (guardrails true bucket) user ≡ ok (outcome_of bucket user theirs)
unfolding merge_policies join
merge_policies_lem bucket user theirs h = rw (guardrail_statements bucket, h) refl

field-versioned :
    (k : Text) (base user : Fields) (found : Option Json)
    → codes "Version" ≢ k
    → field k (versioned base user found) ≡ field k user
field-versioned k base user none h = field-set_other k (codes "Version") _ user h
field-versioned k base user (some v) h = refl

-- A user's bucket policy whose statements can be read is merged with the guardrails, and in the
-- outcome the TLS statement comes first, then the user's statements in their order, and every other
-- field but the version is as the user has it.
pub merge_policies_keeps_guardrail :
    (bucket : Text) (user : Fields) (theirs : Items)
    → statements user ≡ ok theirs
    → (merged : Fields) × (merge_policies (guardrails true bucket) user ≡ ok merged)
      × (statements merged ≡ ok (cons (tls_only_statement bucket) theirs))
      × ((k : Text)
          → (k ≡ codes "Statement") ⊎ (k ≡ codes "Version") ⊎ (field k merged ≡ field k user))
merge_policies_keeps_guardrail bucket user theirs h =
    let before = versioned (guardrails true bucket) user (field (codes "Version") user) in
    (
      outcome_of bucket user theirs,
      merge_policies_lem bucket user theirs h,
      (unfold statements in
          rw
            (field-set (codes "Statement") (array (cons (tls_only_statement bucket) theirs)) before)
            refl),
      λ k. elim (Bool-cases (k == codes "Statement")) [
        | inl e ↦ inl ((eq_iff k (codes "Statement")).0 e)
        | inr e ↦ elim (Bool-cases (k == codes "Version")) [
          | inl v ↦ inr (inl ((eq_iff k (codes "Version")).0 v))
          | inr v ↦ inr (
              inr (
                field-set_other k (codes "Statement") _ before
                  (λ g. ground (arith, eq_iff k (codes "Statement")))
                ∙ field-versioned k (guardrails true bucket) user (field (codes "Version") user)
                    (λ g. ground (arith, eq_iff k (codes "Version")))))
        ]
      ],
    )
