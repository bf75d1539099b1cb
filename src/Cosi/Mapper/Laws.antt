-- ===== src/Cosi/Mapper/Laws.antt =====
-- What the names that the COSI driver makes up and takes apart look like.
use k8s_s3_bucket_operator.Prelude.{
  ℕ, suc, ◌≤◌, Bool, true, false, some, List, [], ◌∷◌, ◌++◌, length, length-append, ◌≡◌, ◌≢◌, refl,
  arith, Bool-cases, Option-cases, inl, inr, ap,
}
use k8s_s3_bucket_operator.Text.{Text, codes, ◌==◌, trim_space}
use k8s_s3_bucket_operator.Text.Laws.{Lacks, length-take}
use k8s_s3_bucket_operator.Cosi.Mapper.{
  synthetic_claim_name, matches, uid_shape, is_uid, class_prefix, class_name_from_bucket_name,
}

-- A made-up claim name has at most 63 bytes.
pub length-synthetic_claim_name : (name : Text) → length (synthetic_claim_name name) ≤ 63
unfolding synthetic_claim_name codes
length-synthetic_claim_name name = elim (Bool-cases (trim_space name == [])) [
  | inl h ↦ rw h (omega arith)
  | inr h ↦ rw h (length-take 63 _)
]

length_of_matches : (ps : List (ℕ → Bool)) (s : Text) → matches ps s ≡ true → length s ≡ length ps
unfolding matches
length_of_matches [] [] h = refl
length_of_matches [] (c ∷ s) h = cc
length_of_matches (p ∷ ps) [] h = cc
length_of_matches (p ∷ ps) (c ∷ s) h = ap suc (length_of_matches ps s (ground arith))

length_of_is_uid : (s : Text) → is_uid s ≡ true → length s ≡ 36
unfolding is_uid uid_shape
length_of_is_uid s h = length_of_matches _ s h

-- A text that is longer than a UID is none.
not_uid_longer : (c : ℕ) (s uid : Text) → is_uid uid ≡ true → is_uid (c ∷ s ++ uid) ≡ false
not_uid_longer c s uid h = elim (Bool-cases (is_uid (c ∷ s ++ uid))) [
  | inl yes_uid ↦ absurd (
      omega (
        arith,
        length_of_is_uid uid h,
        length_of_is_uid (c ∷ s ++ uid) yes_uid,
        length-append s uid,
      ))
  | inr not_uid ↦ not_uid
]

not_uid_nil : is_uid [] ≡ false
unfolding is_uid uid_shape matches
not_uid_nil = refl

class_prefix-append :
    (c : ℕ) (s uid : Text)
    → is_uid uid ≡ true
    → Lacks 10 (c ∷ s)
    → class_prefix (c ∷ s ++ uid) ≡ some (c ∷ s)
unfolding class_prefix
class_prefix-append c [] uid h (ne, _) = ground arith
class_prefix-append c (d ∷ s) uid h (ne, lacks) =
    ground (arith, class_prefix-append d s uid h lacks, not_uid_longer d s uid h)

-- A bucket name that is a class, not empty and without a line feed, followed by a UID gives the class
-- back, if trimming leaves the name as it is.
pub class_name_from_bucket_name-append :
    (class uid : Text)
    → class ≢ []
    → Lacks 10 class
    → is_uid uid ≡ true
    → trim_space (class ++ uid) ≡ class ++ uid
    → class_name_from_bucket_name (class ++ uid) ≡ class
class_name_from_bucket_name-append [] uid ne lacks h t = absurd (ne refl)
class_name_from_bucket_name-append (c ∷ s) uid ne lacks h t =
    unfold class_name_from_bucket_name in rw (t, class_prefix-append c s uid h lacks) refl

class_prefix_sound :
    (s class : Text)
    → class_prefix s ≡ some class
    → (uid : Text) × (s ≡ class ++ uid) × (is_uid uid ≡ true) × (class ≢ [])
unfolding class_prefix
class_prefix_sound [] class h = cc
class_prefix_sound (c ∷ s) class h = elim (Bool-cases (is_uid s)) [
  | inl e ↦ (s, ground arith, e, ground arith)
  | inr e ↦ elim (Option-cases (class_prefix s)) [
    | inl blank ↦ let impossible : ⊥ = ground arith in absurd impossible
    | inr (rest, g) ↦
        let (uid, split, is, _) = class_prefix_sound s rest g in
        (uid, ground arith, is, ground arith)
  ]
]

-- A class that is read off a bucket name, and is not empty, is followed by a UID that ends the
-- trimmed name.
pub class_name_from_bucket_name_sound :
    (name : Text)
    → class_name_from_bucket_name name ≢ []
    → (uid : Text) × (trim_space name ≡ class_name_from_bucket_name name ++ uid)
      × (is_uid uid ≡ true)
unfolding class_name_from_bucket_name
class_name_from_bucket_name_sound name h = elim (Option-cases (class_prefix (trim_space name))) [
  | inl g ↦ let impossible : ⊥ = ground arith in absurd impossible
  | inr (class, g) ↦
      let (uid, split, is, _) = class_prefix_sound (trim_space name) class g in
      (uid, rw g split, is)
]
