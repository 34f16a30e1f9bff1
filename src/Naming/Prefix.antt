-- ===== src/Naming/Prefix.antt =====
-- The prefix of a generated name is found again.
use terraform_provider_awsut.Prelude.{
  ℕ, ◌+◌, ◌-◌, ◌≡◌, ◌≢◌, refl, ◌∙◌, ap, Bool, true, some, [], ◌∷◌, ◌++◌, Text, ◌==◌, length,
  length-append, take-append, append_assoc, arith,
}
use terraform_provider_awsut.Prelude.Go.{ok}
use terraform_provider_awsut.Naming.{
  Ids, generate_with_suffix, resource_unique_id_plus_additional_suffix_regexp_pattern,
  has_resource_unique_id_plus_additional_suffix, prefix_before, name_prefix_from_name_with_suffix,
}

-- The documented behaviour of the library: a name made from a prefix is the prefix and an
-- identifier of the given length; and the pattern finds an identifier of hexadecimal digits in
-- front of the suffix at the end of a name, when the suffix has no special character.
pub record IsLawful {W : Type 0} (ids : Ids W) (is_id : Text → Bool) (is_plain : Text → Bool)
    : Type 0 where
  pub made_of :
      (prefix : Text) (w : W)
      → (id : Text) × ((ids.prefixed_unique_id prefix w).0 ≡ prefix ++ id) × (is_id id ≡ true)
  pub id_length : (id : Text) → is_id id ≡ true → length id ≡ ids.suffix_length
  pub matches :
      (suffix prefix id : Text)
      → is_plain suffix ≡ true
      → is_id id ≡ true
      → ids.match_string
          (resource_unique_id_plus_additional_suffix_regexp_pattern ids suffix)
          (prefix ++ id ++ suffix)
        ≡ some true

difference : (a b c total : ℕ) → total ≡ a + b + c → total - b - c ≡ a
difference a b c total h = omega arith

module _ {W : Type 0} (ids : Ids W) (is_id : Text → Bool) (is_plain : Text → Bool)
    (lawful : IsLawful ids is_id is_plain) where
  index_of_prefix :
      (prefix id suffix : Text)
      → is_id id ≡ true
      → length (prefix ++ id ++ suffix) - ids.suffix_length - length suffix ≡ length prefix
  index_of_prefix prefix id suffix h =
      difference (length prefix) ids.suffix_length (length suffix) (length (prefix ++ id ++ suffix))
        (length-append (prefix ++ id) suffix
          ∙ ap (λ n. n + length suffix)
              (length-append prefix id ∙ ap (λ n. length prefix + n) (lawful.id_length id h)))

  prefix_before_id :
      (prefix rest : Text)
      → prefix ≢ []
      → prefix_before ids (prefix ++ rest) (length prefix) ≡ some prefix
  unfolding prefix_before
  prefix_before_id [] rest h = absurd (h refl)
  prefix_before_id (c ∷ prefix) rest h = ground (arith, take-append (c ∷ prefix) rest)

  has_suffix :
      (suffix prefix id : Text)
      → is_plain suffix ≡ true
      → is_id id ≡ true
      → has_resource_unique_id_plus_additional_suffix ids (prefix ++ id ++ suffix) suffix
        ≡ some true
  unfolding has_resource_unique_id_plus_additional_suffix
  has_suffix = lawful.matches

  prefix_of :
      (prefix id suffix : Text)
      → prefix ≢ []
      → is_plain suffix ≡ true
      → is_id id ≡ true
      → name_prefix_from_name_with_suffix ids (prefix ++ id ++ suffix) suffix ≡ ok (some prefix)
  unfolding name_prefix_from_name_with_suffix prefix_before
  prefix_of prefix id suffix given plain is =
      rw (has_suffix suffix prefix id plain is, index_of_prefix prefix id suffix is)
        (ap ok (
          ap (λ name. prefix_before ids name (length prefix)) (append_assoc prefix id suffix)
          ∙ prefix_before_id prefix (id ++ suffix) given))

  generated :
      (prefix suffix id : Text) (w : W)
      → prefix ≢ []
      → (ids.prefixed_unique_id prefix w).0 ≡ prefix ++ id
      → (generate_with_suffix ids [] prefix suffix w).0 ≡ prefix ++ id ++ suffix
  unfolding generate_with_suffix ◌==◌
  generated [] suffix id w given made = absurd (given refl)
  generated (c ∷ prefix) suffix id w given made = rw made

  -- A name that is generated from a prefix that is not empty, with a suffix without special
  -- characters, has that prefix.
  pub name_prefix_from_name_with_suffix-generate_with_suffix :
      (prefix suffix : Text) (w : W)
      → prefix ≢ []
      → is_plain suffix ≡ true
      → name_prefix_from_name_with_suffix ids (generate_with_suffix ids [] prefix suffix w).0 suffix
        ≡ ok (some prefix)
  name_prefix_from_name_with_suffix-generate_with_suffix prefix suffix w given plain =
      let (id, made, is) = lawful.made_of prefix w in
      rw (generated prefix suffix id w given made) (prefix_of prefix id suffix given plain is)
