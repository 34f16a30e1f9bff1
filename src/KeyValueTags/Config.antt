-- ===== src/KeyValueTags/Config.antt =====
-- internal/keyvaluetags/key_value_tags.go: `DefaultConfig` and `IgnoreConfig`. A pointer to a
-- configuration may be nil.
pub mod Defaults
pub mod Ignored
use terraform_provider_awsut.Prelude.{
  Bool, true, false, not, ◌||◌, Option, none, some, eqb, if◌then◌else◌,
}
use terraform_provider_awsut.Prelude.Map.{nil_map, made, entries, is_nil, size, lookup}
use terraform_provider_awsut.KeyValueTags.Data.{TagData, KeyValueTags, equal}
use terraform_provider_awsut.KeyValueTags.Copy.{copy_if}
use terraform_provider_awsut.KeyValueTags.Filter.{ignore_prefixes, ignore, merge, contains_all}

pub record DefaultConfig : Type 0 where
  pub tags : KeyValueTags

pub record IgnoreConfig : Type 0 where
  pub keys : KeyValueTags
  pub key_prefixes : KeyValueTags

unfoldable pub get_tags : Option DefaultConfig → KeyValueTags
get_tags none = nil_map
get_tags (some dc) = dc.tags

unfoldable pub merge_tags : Option DefaultConfig → KeyValueTags → KeyValueTags
merge_tags none tags = tags
merge_tags (some dc) tags = if is_nil dc.tags then tags else merge dc.tags tags

unfoldable pub tags_equal : Option DefaultConfig → KeyValueTags → Bool
tags_equal none tags = is_nil tags
tags_equal (some dc) tags =
    if is_nil dc.tags
    then is_nil tags
    else if is_nil tags
    then false
    else if eqb (size tags) 0
    then eqb (size dc.tags) 0
    else contains_all dc.tags tags

unfoldable pub ignore_config : KeyValueTags → Option IgnoreConfig → KeyValueTags
ignore_config tags none = tags
ignore_config tags (some config) = ignore (ignore_prefixes tags config.key_prefixes) config.keys

-- `defaultVal, ok := dc.Tags[k]; !ok || !v.Equal(defaultVal)`
unfoldable pub overrides : Option (Option TagData) → Option TagData → Bool
overrides none v = true
overrides (some default_val) v = not (equal v default_val)

unfoldable pub remove_default_config : KeyValueTags → Option DefaultConfig → KeyValueTags
unfolding overrides
remove_default_config tags none = tags
remove_default_config tags (some dc) =
    if is_nil dc.tags
    then tags
    else made (copy_if (λ k v. overrides (lookup k (entries dc.tags)) v) (entries tags))
