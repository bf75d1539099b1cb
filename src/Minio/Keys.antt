-- ===== src/Minio/Keys.antt =====
-- The user names (access keys) that MinIO's accounts are given.
use k8s_s3_bucket_operator.Prelude.{
  ◌≤◌, ◌++◌, [], ◌∷◌, length, take, Bool-cases, inl, inr, ◌≡◌, refl, arith,
}
use k8s_s3_bucket_operator.Text.{Text, codes, ◌==◌, eq_iff, to_lower, dashed}
use k8s_s3_bucket_operator.Text.Laws.{
  length-take, length-to_lower, to_lower-append, take-append, length-positive,
}
use k8s_s3_bucket_operator.Minio.{alnum, access_key_for_account}

alnum-append : (s t : Text) → alnum (s ++ t) ≡ alnum s ++ alnum t
unfolding alnum
alnum-append [] t = refl
alnum-append (c ∷ s) t = ground (arith, alnum-append s t)

-- The part of an account that its key is made of.
normal : Text → Text
normal account = take 12 (to_lower (alnum account))

normal-append : (s t : Text) → 12 ≤ length (alnum s) → normal (s ++ t) ≡ normal s
unfolding normal
normal-append s t h =
    rw (alnum-append s t, to_lower-append (alnum s) (alnum t))
      (take-append 12 (to_lower (alnum s)) (to_lower (alnum t)) (rw (length-to_lower (alnum s)) h))

-- Two claims of one namespace whose name has at least 12 letters and digits are given the same user.
pub access_key_for_account_collides :
    (namespace a b : Text)
    → 12 ≤ length (alnum namespace)
    → access_key_for_account (dashed namespace a) ≡ access_key_for_account (dashed namespace b)
unfolding access_key_for_account dashed normal
access_key_for_account_collides namespace a b h =
    rw (normal-append namespace (b'-' ∷ a) h, normal-append namespace (b'-' ∷ b) h) refl

-- A made-up key has 5 to 16 bytes.
pub length-access_key_for_account :
    (account : Text)
    → (5 ≤ length (access_key_for_account account)) × (length (access_key_for_account account) ≤ 16)
unfolding access_key_for_account codes
length-access_key_for_account account =
    let made = take 12 (to_lower (alnum account)) in
    elim (Bool-cases (made == [])) [
      | inl h ↦ rw h (omega arith, omega arith)
      | inr h ↦ rw h (
        omega (arith, length-positive made (λ e. ground (arith, eq_iff made []))),
        omega (arith, length-take 12 (to_lower (alnum account))),
      )
    ]
