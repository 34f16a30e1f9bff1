-- ===== src/Provider/TagsDiff.antt =====
-- internal/provider/tags.go: `SetTagsDiff`, and the tag specifications of EC2. schema.ResourceDiff is
-- the record `ResourceDiff`, over the state of the diff.
pub mod Planned
use terraform_provider_awsut.Prelude.{
  Bool, true, false, Option, none, some, List, [], ◌∷◌, Text, codes, ltb, eqb, if◌then◌else◌,
}
use terraform_provider_awsut.Prelude.Error.{Error, message, wrapped}
use terraform_provider_awsut.Prelude.Go.{
  Outcome, Go, Call, continue, ◌>>=◌, pure, fail, or_panic, check,
}
use terraform_provider_awsut.Prelude.Map.{GoMap, Entries, entries, size}
use terraform_provider_awsut.Prelude.Value.{Value}
use terraform_provider_awsut.KeyValueTags.Data.{KeyValueTags}
use terraform_provider_awsut.KeyValueTags.Access.{to_map}
use terraform_provider_awsut.KeyValueTags.New.{interface_map, new}
use terraform_provider_awsut.KeyValueTags.Config.{
  DefaultConfig, IgnoreConfig, merge_tags, tags_equal, ignore_config,
}

-- `diff.Get("tags")` and `diff.Get("tags_all")` answer maps, `diff.HasChange("tags_all")` a flag;
-- SetNew and SetNewComputed of "tags_all" change the diff or fail.
pub record ResourceDiff (W : Type 0) : Type 0 where
  pub tags : W → GoMap Value
  pub tags_all : W → GoMap Value
  pub has_change : W → Bool
  pub set_new_tags_all : GoMap Text → Call W
  pub set_tags_all_computed : Call W

abbrev pub identical : Error
identical =
    message
      (codes
        "\"tags\" are identical to those in the \"default_tags\" configuration block of the provider: please de-duplicate and try again")
      []

abbrev pub error_setting_new : Error → Error
error_setting_new e = wrapped (codes "error setting new tags_all diff: %w") [] e

abbrev pub error_setting_computed : Error → Error
error_setting_computed e = wrapped (codes "error setting tags_all to computed: %w") [] e

module _ {W : Type 0} (diff : ResourceDiff W) where
  -- The three cases once all tags are known.
  unfoldable pub plan_tags_all : KeyValueTags → Go W (Unit {0})
  plan_tags_all all_tags w =
      if ltb 0 (size all_tags)
      then check error_setting_new (diff.set_new_tags_all (to_map all_tags)) w
      else if ltb 0 (size (diff.tags_all w))
      then check error_setting_computed diff.set_tags_all_computed w
      else if diff.has_change w
      then check error_setting_computed diff.set_tags_all_computed w
      else pure tt w

  unfoldable pub set_tags_diff : Option DefaultConfig → Option IgnoreConfig → Go W (Unit {0})
  unfolding plan_tags_all
  set_tags_diff default_tags_config ignore_tags_config w =
      (or_panic (new (interface_map (diff.tags w))) >>= λ resource_tags.
      if tags_equal default_tags_config resource_tags
      then fail identical
      else plan_tags_all
          (ignore_config (merge_tags default_tags_config resource_tags) ignore_tags_config))
        w
