-- ===== src/Provider/TagsDiff/Planned.antt =====
-- The value that `SetTagsDiff` plans for "tags_all".
use terraform_provider_awsut.Prelude.{
  ◌≡◌, inl, inr, Bool, true, false, ◌||◌, Option, none, some, Text, ltb, arith, if◌then◌else◌,
  Bool-cases,
}
use terraform_provider_awsut.Prelude.Go.{ok, err}
use terraform_provider_awsut.Prelude.Map.{GoMap, entries, size, is_nil, lookup, has}
use terraform_provider_awsut.KeyValueTags.Data.{KeyValueTags}
use terraform_provider_awsut.KeyValueTags.Copy.{or_else}
use terraform_provider_awsut.KeyValueTags.Filter.{matches_prefix}
use terraform_provider_awsut.KeyValueTags.Access.{map_value, to_map}
use terraform_provider_awsut.KeyValueTags.New.{interface_map, new}
use terraform_provider_awsut.KeyValueTags.Lookups.{tag_at, map_option, lookup-merge, lookup-to_map}
use terraform_provider_awsut.KeyValueTags.Config.{
  DefaultConfig, IgnoreConfig, merge_tags, tags_equal, ignore_config,
}
use terraform_provider_awsut.KeyValueTags.Config.Ignored.{lookup-ignore_config}
use terraform_provider_awsut.KeyValueTags.UpdateTags.Sync.{none_of_ok}
use terraform_provider_awsut.Provider.TagsDiff.{
  ResourceDiff, identical, error_setting_new, plan_tags_all, set_tags_diff,
}

-- The documented behaviour of `SetNew`: when it returns no error the diff plans the new value.
abbrev pub Plans : {W : Type 0} → ResourceDiff W → (W → GoMap Text) → Type 0
Plans {W} diff planned =
    (tags : GoMap Text) (w : W)
    → (diff.set_new_tags_all tags w).0 ≡ none
    → planned (diff.set_new_tags_all tags w).1 ≡ tags

-- A key is ignored by the configuration.
abbrev pub is_ignored : IgnoreConfig → Text → Bool
is_ignored config k = has (entries config.keys) k || matches_prefix k (entries config.key_prefixes)

-- The value of a key: that of the resource, or else the default one.
abbrev pub value_of : KeyValueTags → KeyValueTags → Text → Option Text
value_of defaults tags k = map_option map_value (or_else (tag_at tags k) (tag_at defaults k))

lookup-all_tags :
    (dc : DefaultConfig) (config : IgnoreConfig) (tags : KeyValueTags) (k : Text)
    → is_nil dc.tags ≡ false
    → map_option map_value (tag_at (ignore_config (merge_tags (some dc) tags) (some config)) k)
      ≡ (if is_ignored config k then none else value_of dc.tags tags k)
unfolding merge_tags
lookup-all_tags dc config tags k n = rw (lookup-ignore_config, n, lookup-merge) (ground arith)

module _ {W : Type 0} (diff : ResourceDiff W) (planned : W → GoMap Text)
    (plans : Plans diff planned) where
  -- If there are default tags, some tag is left, and `SetTagsDiff` returns no error, then the
  -- planned "tags_all" has under each key the value of the resource's tag, or else of the default
  -- one, and nothing under a key that the configuration ignores.
  pub lookup-set_tags_diff :
      (dc : DefaultConfig) (config : IgnoreConfig) (tags : KeyValueTags) (w : W)
      → new (interface_map (diff.tags w)) ≡ some tags
      → is_nil dc.tags ≡ false
      → ltb 0 (size (ignore_config (merge_tags (some dc) tags) (some config))) ≡ true
      → (set_tags_diff diff (some dc) (some config) w).0 ≡ ok tt
      → (k : Text)
      → lookup k (entries (planned (set_tags_diff diff (some dc) (some config) w).1))
        ≡ (if is_ignored config k then none else value_of dc.tags tags k)
  unfolding set_tags_diff plan_tags_all
  lookup-set_tags_diff dc config tags w read n some_tags h k =
      let all_tags = ignore_config (merge_tags (some dc) tags) (some config) in
      elim (Bool-cases (tags_equal (some dc) tags)) [
        | inl same ↦ let wrong : err identical ≡ ok tt = rw (read, same) at h in cc
        | inr other ↦
            rw
              (
                read,
                other,
                some_tags,
                plans (to_map all_tags) w
                    (none_of_ok error_setting_new _ (rw (read, other, some_tags) at h)),
                lookup-to_map,
              )
              (lookup-all_tags dc config tags k n)
      ]
