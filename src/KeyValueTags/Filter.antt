-- ===== src/KeyValueTags/Filter.antt =====
-- internal/keyvaluetags/key_value_tags.go: the methods that return some of the tags, and those
-- that compare or join two sets of tags.
use terraform_provider_awsut.Prelude.{
  Bool, true, false, not, Option, none, some, [], ◌∷◌, Text, ◌==◌, has_prefix, if◌then◌else◌,
}
use terraform_provider_awsut.Prelude.Map.{Entries, made, entries, lookup, has}
use terraform_provider_awsut.KeyValueTags.Data.{
  TagData, KeyValueTags, aws_tag_key_prefix, elasticbeanstalk_tag_key_prefix, name_tag_key,
  rds_tag_key_prefix, serverless_application_repository_tag_key_prefix, equal,
}
use terraform_provider_awsut.KeyValueTags.Copy.{copy_if, copy_into}

unfoldable pub ignore_aws : KeyValueTags → KeyValueTags
ignore_aws tags = made (copy_if (λ k v. not (has_prefix k aws_tag_key_prefix)) (entries tags))

elasticbeanstalk_keeps : Text → Bool
elasticbeanstalk_keeps k =
    if has_prefix k aws_tag_key_prefix
    then false
    else if has_prefix k elasticbeanstalk_tag_key_prefix
    then false
    else if k == name_tag_key
    then false
    else true

unfoldable pub ignore_elasticbeanstalk : KeyValueTags → KeyValueTags
unfolding elasticbeanstalk_keeps
ignore_elasticbeanstalk tags = made (copy_if (λ k v. elasticbeanstalk_keeps k) (entries tags))

-- The inner loop, which breaks at the first prefix that the key has.
unfoldable pub matches_prefix : Text → Entries (Option TagData) → Bool
matches_prefix k [] = false
matches_prefix k ((ignore_tag_prefix, v) ∷ rest) =
    if has_prefix k ignore_tag_prefix then true else matches_prefix k rest

unfoldable pub ignore_prefixes : KeyValueTags → KeyValueTags → KeyValueTags
ignore_prefixes tags ignore_tag_prefixes =
    made (copy_if (λ k v. not (matches_prefix k (entries ignore_tag_prefixes))) (entries tags))

unfoldable pub ignore_rds : KeyValueTags → KeyValueTags
ignore_rds tags = made (
    copy_if
      (λ k v.
        if has_prefix k aws_tag_key_prefix
        then false
        else if has_prefix k rds_tag_key_prefix
        then false
        else true)
      (entries tags))

unfoldable pub ignore_serverless_application_repository : KeyValueTags → KeyValueTags
ignore_serverless_application_repository tags = made (
    copy_if
      (λ k v.
        if has_prefix k aws_tag_key_prefix
        then false
        else if has_prefix k serverless_application_repository_tag_key_prefix
        then false
        else true)
      (entries tags))

unfoldable pub ignore : KeyValueTags → KeyValueTags → KeyValueTags
ignore tags ignore_tags = made (copy_if (λ k v. not (has (entries ignore_tags) k)) (entries tags))

unfoldable pub merge : KeyValueTags → KeyValueTags → KeyValueTags
merge tags merge_tags = made (copy_into (entries merge_tags) (copy_into (entries tags) []))

unfoldable pub only : KeyValueTags → KeyValueTags → KeyValueTags
only tags only_tags = made (copy_if (λ k v. has (entries only_tags) k) (entries tags))

unfoldable pub removed : KeyValueTags → KeyValueTags → KeyValueTags
removed tags new_tags = made (copy_if (λ k v. not (has (entries new_tags) k)) (entries tags))

-- `oldV, ok := tags[k]; !ok || !oldV.Equal(newV)`
unfoldable pub differs : Option (Option TagData) → Option TagData → Bool
differs none new_v = true
differs (some old_v) new_v = not (equal old_v new_v)

unfoldable pub updated : KeyValueTags → KeyValueTags → KeyValueTags
unfolding differs
updated tags new_tags =
    made (copy_if (λ k new_v. differs (lookup k (entries tags)) new_v) (entries new_tags))

unfoldable pub contains_all_loop : Entries (Option TagData) → Entries (Option TagData) → Bool
unfolding differs
contains_all_loop tags [] = true
contains_all_loop tags ((key, value) ∷ target) =
    if differs (lookup key tags) value then false else contains_all_loop tags target

unfoldable pub contains_all : KeyValueTags → KeyValueTags → Bool
unfolding contains_all_loop
contains_all tags target = contains_all_loop (entries tags) (entries target)
