-- ===== src/Aws/UserName.antt =====
-- The IAM names that are made up for accounts.
use k8s_s3_bucket_operator.Prelude.{
  ℕ, zero, suc, ◌≤◌, ◌++◌, Bool, true, ◌||◌, ◌&&◌, [], ◌∷◌, map, take, length, is_nil, leb, nat_eq,
  All, if◌then◌else◌, Bool-cases, inl, inr, ◌≡◌, refl, arith,
}
use k8s_s3_bucket_operator.Text.{Text, codes, ◌==◌, eq_iff, to_lower, dashed}
use k8s_s3_bucket_operator.Text.Laws.{length-take, length-positive}

-- The bytes that a user name keeps.
unfoldable pub is_user_byte : ℕ → Bool
is_user_byte c =
    (leb b'a' c && leb c b'z') || (leb b'0' c && leb c b'9') || nat_eq c b'-' || nat_eq c b'_'

-- strings.Trim(s, "-")

unfoldable pub trim_left_dashes : Text → Text
trim_left_dashes [] = []
trim_left_dashes (c ∷ s) = let rest = trim_left_dashes s in if nat_eq c b'-' then rest else c ∷ s

unfoldable pub trim_right_dashes : Text → Text
trim_right_dashes [] = []
trim_right_dashes (c ∷ s) =
    let rest = trim_right_dashes s in if nat_eq c b'-' && is_nil rest then [] else c ∷ rest

unfoldable pub normalized : Text → Text
normalized account =
    let kept = map (λ c. if is_user_byte c then c else b'-') (to_lower account) in
    trim_right_dashes (trim_left_dashes (take 64 kept))

-- `userNameForAccount`. The slice `s[:64]` of a shorter text is the text.
unfoldable pub user_name_for_account : Text → Text
user_name_for_account account =
    let name = normalized account in codes "cosi-" ++ (if name == [] then codes "user" else name)

-- `policyName`
unfoldable pub policy_name : Text → Text → Text
policy_name bucket account = codes "bucket-" ++ dashed bucket (user_name_for_account account)

abbrev IsUserText : Text → Type 0
IsUserText = All (λ c. is_user_byte c ≡ true)

length-trim_left : (s : Text) → length (trim_left_dashes s) ≤ length s
unfolding trim_left_dashes
length-trim_left [] = omega arith
length-trim_left (c ∷ s) = ground (arith, length-trim_left s)

length-trim_right : (s : Text) → length (trim_right_dashes s) ≤ length s
unfolding trim_right_dashes
length-trim_right [] = omega arith
length-trim_right (c ∷ s) = ground (arith, length-trim_right s)

trim_left-IsUserText : (s : Text) → IsUserText s → IsUserText (trim_left_dashes s)
unfolding trim_left_dashes
trim_left-IsUserText [] h = tt
trim_left-IsUserText (c ∷ s) (h, hs) = elim (Bool-cases (nat_eq c b'-')) [
  | inl e ↦ rw e (trim_left-IsUserText s hs)
  | inr e ↦ rw e (h, hs)
]

trim_right-IsUserText : (s : Text) → IsUserText s → IsUserText (trim_right_dashes s)
unfolding trim_right_dashes
trim_right-IsUserText [] h = tt
trim_right-IsUserText (c ∷ s) (h, hs) =
    elim (Bool-cases (nat_eq c b'-' && is_nil (trim_right_dashes s))) [
      | inl e ↦ rw e tt
      | inr e ↦ rw e (h, trim_right-IsUserText s hs)
    ]

take-IsUserText : (n : ℕ) (s : Text) → IsUserText s → IsUserText (take n s)
take-IsUserText zero s h = tt
take-IsUserText (suc n) [] h = tt
take-IsUserText (suc n) (c ∷ s) (h, hs) = (h, take-IsUserText n s hs)

dash_kept : is_user_byte b'-' ≡ true
unfolding is_user_byte
dash_kept = refl

kept_byte : (c : ℕ) → is_user_byte (if is_user_byte c then c else b'-') ≡ true
kept_byte c = elim (Bool-cases (is_user_byte c)) [ inl e ↦ rw e e | inr e ↦ rw e dash_kept ]

map-IsUserText : (s : Text) → IsUserText (map (λ c. if is_user_byte c then c else b'-') s)
map-IsUserText [] = tt
map-IsUserText (c ∷ s) = (kept_byte c, map-IsUserText s)

normalized-IsUserText : (account : Text) → IsUserText (normalized account)
unfolding normalized
normalized-IsUserText account =
    trim_right-IsUserText _
      (trim_left-IsUserText _ (take-IsUserText 64 _ (map-IsUserText (to_lower account))))

length-normalized : (account : Text) → length (normalized account) ≤ 64
unfolding normalized
length-normalized account =
    let kept = map (λ c. if is_user_byte c then c else b'-') (to_lower account) in
    omega (
      arith,
      length-trim_right (trim_left_dashes (take 64 kept)),
      length-trim_left (take 64 kept),
      length-take 64 kept,
    )

-- A user name has 6 to 69 bytes, of which each is a small letter, a digit, a dash or an underscore.
pub user_name_for_account_lem :
    (account : Text)
    → (6 ≤ length (user_name_for_account account))
      × (length (user_name_for_account account) ≤ 69)
      × All (λ c. is_user_byte c ≡ true) (user_name_for_account account)
unfolding user_name_for_account codes is_user_byte
user_name_for_account_lem account = elim (Bool-cases (normalized account == [])) [
  | inl e ↦ rw e (
    omega arith,
    omega arith,
    (refl, (refl, (refl, (refl, (refl, (refl, (refl, (refl, (refl, tt))))))))),
  )
  | inr e ↦ rw e (
    omega (
      arith,
      length-positive (normalized account) (λ h. ground (arith, eq_iff (normalized account) [])),
    ),
    omega (arith, length-normalized account),
    (refl, (refl, (refl, (refl, (refl, normalized-IsUserText account))))),
  )
]
