-- ===== src/Examples/Diff.antt =====
-- A plan: the tags of a resource over default tags, with an ignored key.
use terraform_provider_awsut.Prelude.{
  ◌≡◌, refl, false, none, some, [], ◌∷◌, Text, codes, ◌==◌, has_prefix,
}
use terraform_provider_awsut.Prelude.Go.{ok}
use terraform_provider_awsut.Prelude.Map.{GoMap, nil_map, made, entries, lookup, insert}
use terraform_provider_awsut.Prelude.Value.{string_value}
use terraform_provider_awsut.KeyValueTags.Data.{KeyValueTags}
use terraform_provider_awsut.KeyValueTags.Copy.{copy_if, copy_into}
use terraform_provider_awsut.KeyValueTags.Filter.{
  merge, ignore, ignore_prefixes, contains_all, matches_prefix,
}
use terraform_provider_awsut.KeyValueTags.Access.{map_value}
use terraform_provider_awsut.KeyValueTags.New.{interface_map, of_value, new}
use terraform_provider_awsut.KeyValueTags.Config.{
  DefaultConfig, IgnoreConfig, merge_tags, tags_equal, ignore_config,
}
use terraform_provider_awsut.Provider.TagsDiff.{ResourceDiff, set_tags_diff}
use terraform_provider_awsut.Provider.TagsDiff.Planned.{Plans, lookup-set_tags_diff}

-- The state is the planned value.
abbrev tags_diff : ResourceDiff (GoMap Text)
tags_diff = record {
  tags = λ w. made ((codes "a", string_value (codes "1")) ∷ []);
  tags_all = λ w. nil_map;
  has_change = λ w. false;
  set_new_tags_all = λ tags w. (none, tags);
  set_tags_all_computed = λ w. (none, w);
}

abbrev planned : GoMap Text → GoMap Text
planned w = w

tags_diff-Plans : Plans tags_diff planned
tags_diff-Plans tags w h = refl

abbrev resource_tags : KeyValueTags
resource_tags = made ((codes "a", some (of_value (some (codes "1")))) ∷ [])

abbrev dc : DefaultConfig
dc = record { tags = made ((codes "b", some (of_value (some (codes "2")))) ∷ []) }

abbrev config : IgnoreConfig
config = record { keys = nil_map; key_prefixes = made ((codes "kube", none) ∷ []) }

tags_read : new (interface_map (tags_diff.tags nil_map)) ≡ some resource_tags
unfolding new insert ◌==◌
tags_read = refl

plans : (set_tags_diff tags_diff (some dc) (some config) nil_map).0 ≡ ok tt
unfolding set_tags_diff new insert ◌==◌ tags_equal contains_all lookup merge_tags merge copy_into
    ignore_config ignore ignore_prefixes copy_if has_prefix matches_prefix
plans = refl

lookup-set_tags_diff_example :
    lookup
      (codes "b")
      (entries (planned (set_tags_diff tags_diff (some dc) (some config) nil_map).1))
    ≡ some (codes "2")
unfolding lookup ◌==◌ map_value matches_prefix has_prefix
lookup-set_tags_diff_example =
    lookup-set_tags_diff tags_diff planned tags_diff-Plans dc config resource_tags nil_map tags_read
      refl
      (unfold ignore_config ignore ignore_prefixes merge_tags merge copy_into copy_if insert in
        refl)
      plans (codes "b")
