-- ===== src/Examples/Names.antt =====
-- Generated names, and environment variables.
use terraform_provider_awsut.Prelude.{
  ◌≡◌, ◌≢◌, refl, ◌↔◌, ap, Bool, true, false, none, some, List, [], ◌∷◌, ◌++◌, Text, codes, ◌==◌,
  eq_iff, length, if◌then◌else◌,
}
use terraform_provider_awsut.Prelude.Go.{ok, err, output}
use terraform_provider_awsut.Naming.{Ids, generate_with_suffix, name_prefix_from_name_with_suffix}
use terraform_provider_awsut.Naming.Prefix.{
  IsLawful, name_prefix_from_name_with_suffix-generate_with_suffix,
}
use terraform_provider_awsut.EnvVar.{none_is_set, require_one_of}
use terraform_provider_awsut.EnvVar.FirstSet.{AllEmpty, require_one_of-eq-err_iff}
use terraform_provider_awsut.KeyValueTags.New.{string_map, other}
use terraform_provider_awsut.Prelude.Map.{made}
use terraform_provider_awsut.KeyValueTags.BucketTags.{s3_bucket_update_tags}
use terraform_provider_awsut.KeyValueTags.ControlBucketTags.{
  ControlConn, s3control_bucket_update_tags,
}
use terraform_provider_awsut.KeyValueTags.ControlBucketTags.Agrees.{
  account_buckets, s3control_bucket_update_tags-s3_bucket_update_tags,
}
use terraform_provider_awsut.KeyValueTags.Requests.{Struct, structs_in}

-- Identifiers of one digit, and suffixes that are empty.
abbrev digit : Text
digit = codes "7"

abbrev ids : Ids Bool
ids = record {
  prefixed_unique_id = λ prefix w. (prefix ++ digit, w);
  unique_id = λ w. (codes "terraform-7", w);
  suffix_length = 1;
  decimal = λ n. digit;
  match_string = λ pattern s. some true;
}

abbrev is_digit : Text → Bool
is_digit s = s == digit

abbrev is_plain : Text → Bool
is_plain s = s == []

digit_length : (id : Text) → is_digit id ≡ true → length id ≡ 1
digit_length id h = ap length ((eq_iff id digit).0 h)

ids-IsLawful : IsLawful ids is_digit is_plain
unfolding ◌==◌
ids-IsLawful = record {
  made_of = λ prefix w. (digit, refl, refl);
  id_length = digit_length;
  matches = λ suffix prefix id plain is. refl;
}

abbrev prefix : Text
prefix = codes "web-"

prefix_given : prefix ≢ []
prefix_given h = cc

name_prefix_from_name_with_suffix-generate_with_suffix_example :
    name_prefix_from_name_with_suffix ids (generate_with_suffix ids [] prefix [] true).0 []
    ≡ ok (some prefix)
name_prefix_from_name_with_suffix-generate_with_suffix_example =
    name_prefix_from_name_with_suffix-generate_with_suffix ids is_digit is_plain ids-IsLawful prefix
      [] true prefix_given (unfold ◌==◌ in refl)

-- One variable is set.
abbrev getenv : Text → Text
getenv name = if name == codes "B" then codes "1" else []

abbrev names : List Text
names = codes "A" ∷ codes "B" ∷ []

require_one_of-eq-err_iff_example :
    (require_one_of getenv (codes "A" ∷ []) [] ≡ err (none_is_set (codes "A" ∷ []) []))
    ↔ AllEmpty getenv (codes "A" ∷ [])
require_one_of-eq-err_iff_example = require_one_of-eq-err_iff getenv (codes "A" ∷ []) []

abbrev control : ControlConn (List Struct)
control = record {
  parse_account = λ identifier. output (codes "123");
  get_bucket_tagging = λ account_id identifier w. (output w, w);
  put_bucket_tagging = λ account_id identifier tags w. (none, structs_in tags);
  delete_bucket_tagging = λ account_id identifier w. (none, []);
  err_code_equals = λ e code. false;
}

s3control_bucket_update_tags-s3_bucket_update_tags_example :
    s3control_bucket_update_tags control
      (codes "arn")
      other
      (string_map (made ((codes "a", codes "1") ∷ [])))
      []
    ≡ s3_bucket_update_tags
        (account_buckets control (codes "123"))
        (codes "arn")
        other
        (string_map (made ((codes "a", codes "1") ∷ [])))
        []
s3control_bucket_update_tags-s3_bucket_update_tags_example =
    s3control_bucket_update_tags-s3_bucket_update_tags control (codes "arn") (codes "123") other
      (string_map (made ((codes "a", codes "1") ∷ []))) [] refl
