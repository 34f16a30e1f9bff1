-- ===== src/KeyValueTags/Config/Defaults.antt =====
-- The tags that the provider adds by default: `MergeTags`, `TagsEqual`, `RemoveDefaultConfig`.
use terraform_provider_awsut.Prelude.{
  some-injective, ◌≡◌, refl, sym, ◌↔◌, ap, inl, inr, true, false, Option, none, some, [], ◌∷◌, Text,
  eq_iff, eq_refl, arith, Bool-cases,
}
use terraform_provider_awsut.Prelude.Map.{made, Entries, entries, is_nil, lookup, NodupKeys}
use terraform_provider_awsut.KeyValueTags.Data.{TagData, KeyValueTags, equal}
use terraform_provider_awsut.KeyValueTags.Equality.{equal_iff, IsValidTag, SameTag, SameTag-sym}
use terraform_provider_awsut.KeyValueTags.Copy.{or_else, keep, lookup-copy_if}
use terraform_provider_awsut.KeyValueTags.Filter.{differs, contains_all_loop, contains_all}
use terraform_provider_awsut.KeyValueTags.Access.{map_value}
use terraform_provider_awsut.KeyValueTags.Config.{
  DefaultConfig, merge_tags, tags_equal, overrides, remove_default_config,
}
use terraform_provider_awsut.KeyValueTags.Lookups.{
  tag_at, map_option, lookup-merge, map_value-eq_of_equal,
}

contains_all_loop_sound :
    (tags target : Entries (Option TagData)) (k : Text) (v : Option TagData)
    → contains_all_loop tags target ≡ true
    → lookup k target ≡ some v
    → differs (lookup k tags) v ≡ false
unfolding contains_all_loop lookup
contains_all_loop_sound tags [] k v h e = cc
contains_all_loop_sound tags ((j, w) ∷ target) k v h e =
    unfold differs in ground (arith, contains_all_loop_sound tags target k v, eq_iff j k)

contains_all_loop_complete :
    (tags target : Entries (Option TagData))
    → NodupKeys target
    → ((k : Text) (v : Option TagData)
        → lookup k target ≡ some v
        → differs (lookup k tags) v ≡ false)
    → contains_all_loop tags target ≡ true
unfolding contains_all_loop lookup
contains_all_loop_complete tags [] u h = refl
contains_all_loop_complete tags ((j, w) ∷ target) (fresh, u) h =
    rw (h j w (rw eq_refl))
      (contains_all_loop_complete tags target u λ k v e. h k v (ground (arith, eq_iff j k)))

-- The tags are as the program builds them: no additional field is there twice.
abbrev pub AllValid : KeyValueTags → Type 0
AllValid tags = (k : Text) (v : Option TagData) → tag_at tags k ≡ some v → IsValidTag v

-- Under each key of the tags the others have a tag too, and it holds the same data.
abbrev pub Within : KeyValueTags → KeyValueTags → Type 0
Within tags others =
    (k : Text) (v : Option TagData)
    → tag_at tags k ≡ some v
    → (o : Option TagData) × (tag_at others k ≡ some o) × SameTag o v

SameTag-of_differs :
    (old : Option (Option TagData)) (v : Option TagData)
    → IsValidTag v
    → ((o : Option TagData) → old ≡ some o → IsValidTag o)
    → differs old v ≡ false
    → (o : Option TagData) × (old ≡ some o) × SameTag o v
unfolding differs
SameTag-of_differs none v valid all h = cc
SameTag-of_differs (some o) v valid all h =
    (o, refl, (equal_iff o v (all o refl) valid).0 (ground arith))

differs-of_SameTag :
    (old : Option (Option TagData)) (v o : Option TagData)
    → IsValidTag v
    → IsValidTag o
    → old ≡ some o
    → SameTag o v
    → differs old v ≡ false
unfolding differs
differs-of_SameTag old v o valid o_valid at same = rw (at, (equal_iff o v o_valid valid).1 same)

-- For a target that holds no key twice, `ContainsAll` answers true exactly when the tags have each key of
-- the target, with the same data under it. The additional fields of the tags hold no key twice.
pub contains_all_iff :
    (tags target : KeyValueTags)
    → NodupKeys (entries target)
    → AllValid tags
    → AllValid target
    → (contains_all tags target ≡ true) ↔ Within target tags
unfolding contains_all
contains_all_iff tags target u valid target_valid = (
  λ h k v at.
      SameTag-of_differs (tag_at tags k) v (target_valid k v at) (valid k)
        (contains_all_loop_sound (entries tags) (entries target) k v h at),
  λ h. contains_all_loop_complete (entries tags) (entries target) u λ k v at.
      let (o, there, same) = h k v at in
      differs-of_SameTag (tag_at tags k) v o (target_valid k v at) (valid k o there) there same,
)

tags_equal-contains_all :
    (dc : DefaultConfig) (k : Text) (v : Option TagData) (rest : Entries (Option TagData))
    → is_nil dc.tags ≡ false
    → tags_equal (some dc) (made ((k, v) ∷ rest)) ≡ contains_all dc.tags (made ((k, v) ∷ rest))
unfolding tags_equal
tags_equal-contains_all dc k v rest n = ground arith

-- For a configuration with tags and a set of tags that is not empty, `TagsEqual` answers true
-- exactly when the configured tags have each key of the set, with the same value and additional fields
-- under it. Nothing is asked of configured tags that the set lacks. The set holds no key twice, and the
-- additional fields of the tags hold no key twice.
pub tags_equal_iff :
    (dc : DefaultConfig) (k : Text) (v : Option TagData) (rest : Entries (Option TagData))
    → is_nil dc.tags ≡ false
    → NodupKeys ((k, v) ∷ rest)
    → AllValid dc.tags
    → AllValid (made ((k, v) ∷ rest))
    → (tags_equal (some dc) (made ((k, v) ∷ rest)) ≡ true) ↔ Within (made ((k, v) ∷ rest)) dc.tags
tags_equal_iff dc k v rest n u valid set_valid =
    rw (tags_equal-contains_all dc k v rest n)
      (contains_all_iff dc.tags (made ((k, v) ∷ rest)) u valid set_valid)

lookup-remove_default_config :
    (tags : KeyValueTags) (dc : DefaultConfig) (k : Text)
    → NodupKeys (entries tags)
    → is_nil dc.tags ≡ false
    → tag_at (remove_default_config tags (some dc)) k
      ≡ keep (overrides (tag_at dc.tags k)) (tag_at tags k)
unfolding remove_default_config
lookup-remove_default_config tags dc k u n =
    rw n (lookup-copy_if (λ j v. overrides (lookup j (entries dc.tags)) v) k (entries tags) u)

restore :
    (default value : Option (Option TagData))
    → map_option map_value (or_else (keep (overrides default) value) default)
      ≡ map_option map_value (or_else value default)
unfolding overrides
restore none none = refl
restore none (some v) = refl
restore (some d) none = refl
restore (some d) (some v) = elim (Bool-cases (equal v d)) [
  | inl same ↦ rw same (ap some (sym (map_value-eq_of_equal v d same)))
  | inr other ↦ rw other
]

-- For a configuration with tags, tags that hold no key twice and that were stripped of the defaults and merged with them again have, under each key, the
-- value that they had, or else the default one.
pub merge_tags-remove_default_config :
    (tags : KeyValueTags) (dc : DefaultConfig) (k : Text)
    → NodupKeys (entries tags)
    → is_nil dc.tags ≡ false
    → map_option map_value (tag_at (merge_tags (some dc) (remove_default_config tags (some dc))) k)
      ≡ map_option map_value (or_else (tag_at tags k) (tag_at dc.tags k))
unfolding merge_tags
merge_tags-remove_default_config tags dc k u n =
    rw (n, lookup-merge, lookup-remove_default_config tags dc k u n)
      (restore (tag_at dc.tags k) (tag_at tags k))

-- Nothing is left under a key exactly when a tag there has a default with the same data.
keep-overrides_iff :
    (default value : Option (Option TagData))
    → ((d : Option TagData) → default ≡ some d → IsValidTag d)
    → ((v : Option TagData) → value ≡ some v → IsValidTag v)
    → (keep (overrides default) value ≡ none) ↔ (
        (v : Option TagData)
        → value ≡ some v
        → (d : Option TagData) × (default ≡ some d) × SameTag d v)
unfolding overrides
keep-overrides_iff default none valid value_valid = (λ h v at. cc, λ h. refl)
keep-overrides_iff none (some v) valid value_valid =
    (λ h w at. cc, λ h. let (d, there, same) = h v refl in cc)
keep-overrides_iff (some d) (some v) valid value_valid =
    let same_iff = equal_iff v d (value_valid v refl) (valid d refl) in
    (
      λ h w at. (d, refl, rw (← some-injective at) (SameTag-sym v d (same_iff.0 (ground arith)))),
      λ h.
          let (e, there, same) = h v refl in
          rw (same_iff.1 (SameTag-sym d v (rw (some-injective there) same))),
    )

-- For a configuration with tags, `RemoveDefaultConfig` returns no tag exactly when the configured tags
-- have each key of the given tags, with the same value and additional fields under it. The given tags hold no
-- key twice, and the additional fields of the tags hold no key twice.
pub remove_default_config-eq-none_iff :
    (tags : KeyValueTags) (dc : DefaultConfig)
    → NodupKeys (entries tags)
    → is_nil dc.tags ≡ false
    → AllValid tags
    → AllValid dc.tags
    → ((k : Text) → tag_at (remove_default_config tags (some dc)) k ≡ none) ↔ Within tags dc.tags
remove_default_config-eq-none_iff tags dc u n valid dc_valid =
    let at_key =
      λ (k : Text). keep-overrides_iff (tag_at dc.tags k) (tag_at tags k) (dc_valid k) (valid k) in
    (
      λ h k. (at_key k).0 (rw (← lookup-remove_default_config tags dc k u n) (h k)),
      λ h k. rw (lookup-remove_default_config tags dc k u n) ((at_key k).1 (h k)),
    )
