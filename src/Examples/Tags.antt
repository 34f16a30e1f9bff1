-- ===== src/Examples/Tags.antt =====
-- Tags: updates of a service, defaults and ignored tags.
use terraform_provider_awsut.Prelude.{
  some-injective, ◌≡◌, refl, sym, subst, inl, inr, ◌↔◌, if◌then◌else◌, Bool-cases, Bool, true,
  false, Option, none, some, [], ◌∷◌, Text, codes, ◌==◌, has_prefix, eq_iff,
}
use terraform_provider_awsut.Prelude.Go.{ok}
use terraform_provider_awsut.Prelude.Map.{made, Entries, entries, lookup, insert, NodupKeys}
use terraform_provider_awsut.KeyValueTags.Data.{TagData, KeyValueTags, equal}
use terraform_provider_awsut.KeyValueTags.Copy.{copy_if, copy_into}
use terraform_provider_awsut.KeyValueTags.Filter.{removed, updated, ignore}
use terraform_provider_awsut.KeyValueTags.Access.{map_value}
use terraform_provider_awsut.KeyValueTags.New.{Source, string_map, of_value, new}
use terraform_provider_awsut.KeyValueTags.Lookups.{tag_at, map_option}
use terraform_provider_awsut.KeyValueTags.Equality.{equal_iff, IsValidTag, SameTag}
use terraform_provider_awsut.KeyValueTags.Config.{
  DefaultConfig, IgnoreConfig, merge_tags, tags_equal, ignore_config, remove_default_config,
}
use terraform_provider_awsut.KeyValueTags.Config.Defaults.{
  AllValid, Within, tags_equal_iff, merge_tags-remove_default_config,
  remove_default_config-eq-none_iff,
}
use terraform_provider_awsut.KeyValueTags.Config.Ignored.{Ignores, ignore_config-eq}
use terraform_provider_awsut.KeyValueTags.UpdateTags.{
  untag_removed, tag_updated, accessanalyzer_update_tags, IamConn, iam_policy_update_tags,
}
use terraform_provider_awsut.KeyValueTags.UpdateTags.Result.{
  policy, update_of-InSync, accessanalyzer_update_tags-unmanaged,
}
use terraform_provider_awsut.KeyValueTags.BucketTags.{s3_bucket_update_tags, s3_key_value_tags}
use terraform_provider_awsut.KeyValueTags.BucketTags.Result.{s3_bucket_update_tags-lookup}
use terraform_provider_awsut.Examples.Services.{
  tag_service, tagged, tag_service-IsLawful, Tagged, bucket, in_bucket, bucket-IsLawful, answers,
}

abbrev tag : Text → Option TagData
tag v = some (of_value (some v))

abbrev pub old_source : Source
old_source = string_map (made ((codes "a", codes "1") ∷ (codes "b", codes "2") ∷ []))

abbrev pub new_source : Source
new_source = string_map (made ((codes "b", codes "3") ∷ (codes "c", codes "4") ∷ []))

abbrev pub old_tags : KeyValueTags
old_tags = made ((codes "b", tag (codes "2")) ∷ (codes "a", tag (codes "1")) ∷ [])

abbrev pub new_tags : KeyValueTags
new_tags = made ((codes "c", tag (codes "4")) ∷ (codes "b", tag (codes "3")) ∷ [])

pub old_read : new old_source ≡ some old_tags
unfolding new insert ◌==◌
old_read = refl

pub new_read : new new_source ≡ some new_tags
unfolding new insert ◌==◌
new_read = refl

abbrev pub arn : Text
arn = codes "arn"

-- A resource with the old tags.
abbrev pub tagged_old : Tagged
tagged_old i k = map_option map_value (tag_at old_tags k)

succeeds : (accessanalyzer_update_tags tag_service arn old_source new_source tagged_old).0 ≡ ok tt
unfolding accessanalyzer_update_tags new insert ◌==◌ untag_removed tag_updated removed updated equal
    copy_if lookup
succeeds = refl

-- Each kind of IAM resource has its own calls.
abbrev iam : IamConn Tagged
iam = record {
  role = tag_service;
  user = tag_service;
  instance_profile = tag_service;
  open_id_connect_provider = tag_service;
  policy = tag_service;
  saml_provider = tag_service;
  server_certificate = tag_service;
}

policy_succeeds : (iam_policy_update_tags iam arn old_source new_source tagged_old).0 ≡ ok tt
unfolding iam_policy_update_tags new insert ◌==◌ untag_removed tag_updated removed updated equal
    copy_if lookup
policy_succeeds = refl

update_of-InSync_example :
    tagged (iam_policy_update_tags iam arn old_source new_source tagged_old).1 arn (codes "a")
    ≡ none
unfolding lookup ◌==◌ map_value
update_of-InSync_example =
    update_of-InSync iam policy tagged tag_service-IsLawful arn old_source new_source old_tags
      new_tags tagged_old old_read new_read policy_succeeds (λ k _. refl) (codes "a")
      (unfold has_prefix in refl)

abbrev with_other : Tagged
with_other i k = some (codes "kept")

other_succeeds :
    (accessanalyzer_update_tags tag_service arn old_source new_source with_other).0 ≡ ok tt
unfolding accessanalyzer_update_tags new insert ◌==◌ untag_removed tag_updated removed updated equal
    copy_if lookup
other_succeeds = refl

accessanalyzer_update_tags-unmanaged_example :
    tagged
      (accessanalyzer_update_tags tag_service arn old_source new_source with_other).1
      arn
      (codes "z")
    ≡ some (codes "kept")
accessanalyzer_update_tags-unmanaged_example =
    accessanalyzer_update_tags-unmanaged tag_service tagged tag_service-IsLawful arn old_source
      new_source old_tags new_tags with_other old_read new_read other_succeeds (codes "z")
      (unfold lookup ◌==◌ in refl) (unfold lookup ◌==◌ in refl)

-- A bucket with an old tag and one that is neither old nor new.
abbrev full : Entries Text
full = (codes "a", codes "1") ∷ (codes "z", codes "kept") ∷ []

bucket_succeeds : (s3_bucket_update_tags bucket arn old_source new_source full).0 ≡ ok tt
unfolding s3_bucket_update_tags s3_key_value_tags new insert ◌==◌ ignore copy_if lookup answers
    copy_into
bucket_succeeds = refl

s3_bucket_update_tags-lookup_example :
    in_bucket (s3_bucket_update_tags bucket arn old_source new_source full).1 arn (codes "z")
    ≡ some (codes "kept")
unfolding lookup ◌==◌ map_value
s3_bucket_update_tags-lookup_example =
    s3_bucket_update_tags-lookup bucket in_bucket bucket-IsLawful arn old_source new_source old_tags
      new_tags full old_read new_read bucket_succeeds (codes "z")

equal_iff_example :
    (equal (tag (codes "1")) (tag (codes "1")) ≡ true) ↔ SameTag (tag (codes "1")) (tag (codes "1"))
equal_iff_example =
    equal_iff (tag (codes "1")) (tag (codes "1")) (record { bool_keys = tt; string_keys = tt })
      (record { bool_keys = tt; string_keys = tt })

abbrev defaults : DefaultConfig
defaults = record { tags = old_tags }

unique_new : NodupKeys (entries new_tags)
unfolding lookup ◌==◌
unique_new = (refl, (refl, tt))

unique_old : NodupKeys (entries old_tags)
unfolding lookup ◌==◌
unique_old = (refl, (refl, tt))

merge_tags-remove_default_config_example :
    map_option map_value (
      tag_at
        (merge_tags (some defaults) (remove_default_config new_tags (some defaults)))
        (codes "a"))
    ≡ some (codes "1")
unfolding lookup ◌==◌ map_value
merge_tags-remove_default_config_example =
    merge_tags-remove_default_config new_tags defaults (codes "a") unique_new refl

valid_tag : (t : Text) (v : Option TagData) → tag t ≡ v → IsValidTag v
valid_tag t v h = subst IsValidTag h (record { bool_keys = tt; string_keys = tt })

valid_tags :
    (a b : Bool) (v : Option TagData)
    → (if a then some (tag (codes "2")) else if b then some (tag (codes "1")) else none) ≡ some v
    → IsValidTag v
valid_tags true b v h = valid_tag (codes "2") v (some-injective h)
valid_tags false true v h = valid_tag (codes "1") v (some-injective h)
valid_tags false false v h = cc

old_tags-AllValid : AllValid old_tags
unfolding lookup
old_tags-AllValid k v there = valid_tags (codes "b" == k) (codes "a" == k) v there

valid_one :
    (b : Bool) (v : Option TagData)
    → (if b then some (tag (codes "1")) else none) ≡ some v
    → IsValidTag v
valid_one b v h = valid_tags false b v h

one_tag-AllValid : AllValid (made ((codes "a", tag (codes "1")) ∷ []))
unfolding lookup
one_tag-AllValid k v there = valid_one (codes "a" == k) v there

tags_equal_iff_example :
    (tags_equal (some defaults) (made ((codes "a", tag (codes "1")) ∷ [])) ≡ true)
    ↔ Within (made ((codes "a", tag (codes "1")) ∷ [])) old_tags
unfolding lookup
tags_equal_iff_example =
    tags_equal_iff defaults (codes "a") (tag (codes "1")) [] refl (refl, tt) old_tags-AllValid
      one_tag-AllValid

remove_default_config-eq-none_iff_example :
    ((k : Text) → tag_at (remove_default_config old_tags (some defaults)) k ≡ none)
    ↔ Within old_tags old_tags
remove_default_config-eq-none_iff_example =
    remove_default_config-eq-none_iff old_tags defaults unique_old refl old_tags-AllValid
      old_tags-AllValid

abbrev ignored_keys : IgnoreConfig
ignored_keys = record {
  keys = made ((codes "a", none) ∷ []);
  key_prefixes = made ((codes "kube", none) ∷ []);
}

abbrev kube_tags : KeyValueTags
kube_tags = made ((codes "kubernetes", tag (codes "1")) ∷ (codes "c", tag (codes "2")) ∷ [])

c_is_kept : ¬ Ignores ignored_keys (codes "c")
unfolding lookup ◌==◌ has_prefix
c_is_kept (inl h) = cc
c_is_kept (inr (p, inside, prefix)) = elim (Bool-cases (codes "kube" == p)) [
  | inl e ↦
      let wrong : false ≡ true =
        subst (λ q. has_prefix (codes "c") q ≡ true) (sym ((eq_iff (codes "kube") p).0 e)) prefix in
      cc
  | inr e ↦ let wrong : false ≡ true = rw e at inside in cc
]

ignore_config-eq_example :
    tag_at (ignore_config kube_tags (some ignored_keys)) (codes "c") ≡ some (tag (codes "2"))
unfolding lookup ◌==◌
ignore_config-eq_example = ignore_config-eq kube_tags ignored_keys (codes "c") c_is_kept
