-- ===== src/KeyValueTags/Lookups.antt =====
-- What each method of `KeyValueTags` leaves under a key.
use terraform_provider_awsut.Prelude.{
  ◌≡◌, refl, true, not, Option, none, some, [], ◌∷◌, Text, eq_iff, has_prefix, arith, if◌then◌else◌,
  mem, mem-append,
}
use terraform_provider_awsut.Prelude.Map.{
  Entries, entries, lookup, has, lookup-insert, NodupKeys, insert-NodupKeys,
}
use terraform_provider_awsut.KeyValueTags.Data.{TagData, KeyValueTags, aws_tag_key_prefix, equal}
use terraform_provider_awsut.KeyValueTags.Copy.{
  or_else, keep, copy_into, lookup-copy_if, lookup-copy_if_key, lookup-copy_into, copy_if-NodupKeys,
  copy_into-NodupKeys,
}
use terraform_provider_awsut.KeyValueTags.Equality.{value-eq_of_equal}
use terraform_provider_awsut.KeyValueTags.Filter.{
  ignore_aws, matches_prefix, ignore_prefixes, ignore, merge, only, removed, differs, updated,
}
use terraform_provider_awsut.KeyValueTags.Access.{keys, map_value, map_loop, to_map}

abbrev pub tag_at : KeyValueTags → Text → Option (Option TagData)
tag_at tags k = lookup k (entries tags)

pub lookup-ignore_aws :
    (tags : KeyValueTags) (j : Text)
    → tag_at (ignore_aws tags) j ≡ (if has_prefix j aws_tag_key_prefix then none else tag_at tags j)
unfolding ignore_aws
lookup-ignore_aws tags j =
    ground (arith, lookup-copy_if_key (λ k. not (has_prefix k aws_tag_key_prefix)) j (entries tags))

pub lookup-ignore :
    (tags ignore_tags : KeyValueTags) (j : Text)
    → tag_at (ignore tags ignore_tags) j
      ≡ (if has (entries ignore_tags) j then none else tag_at tags j)
unfolding ignore
lookup-ignore tags ignore_tags j =
    ground (arith, lookup-copy_if_key (λ k. not (has (entries ignore_tags) k)) j (entries tags))

pub lookup-ignore_prefixes :
    (tags prefixes : KeyValueTags) (j : Text)
    → tag_at (ignore_prefixes tags prefixes) j
      ≡ (if matches_prefix j (entries prefixes) then none else tag_at tags j)
unfolding ignore_prefixes
lookup-ignore_prefixes tags prefixes j =
    ground
      (arith, lookup-copy_if_key (λ k. not (matches_prefix k (entries prefixes))) j (entries tags))

pub lookup-removed :
    (tags new_tags : KeyValueTags) (j : Text)
    → tag_at (removed tags new_tags) j ≡ (if has (entries new_tags) j then none else tag_at tags j)
unfolding removed
lookup-removed tags new_tags j =
    ground (arith, lookup-copy_if_key (λ k. not (has (entries new_tags) k)) j (entries tags))

pub lookup-only :
    (tags only_tags : KeyValueTags) (j : Text)
    → tag_at (only tags only_tags) j ≡ (if has (entries only_tags) j then tag_at tags j else none)
unfolding only
lookup-only tags only_tags j = lookup-copy_if_key (λ k. has (entries only_tags) k) j (entries tags)

pub lookup-merge :
    (tags merge_tags : KeyValueTags) (j : Text)
    → tag_at (merge tags merge_tags) j ≡ or_else (tag_at merge_tags j) (tag_at tags j)
unfolding merge lookup
lookup-merge tags merge_tags j = ground (
  arith,
  lookup-copy_into j (entries merge_tags) (copy_into (entries tags) []),
  lookup-copy_into j (entries tags) [],
)

pub lookup-updated :
    (tags new_tags : KeyValueTags) (j : Text)
    → NodupKeys (entries new_tags)
    → tag_at (updated tags new_tags) j ≡ keep (differs (tag_at tags j)) (tag_at new_tags j)
unfolding updated
lookup-updated tags new_tags j u =
    lookup-copy_if (λ k new_v. differs (lookup k (entries tags)) new_v) j (entries new_tags) u

pub merge-NodupKeys : (a b : KeyValueTags) → NodupKeys (entries (merge a b))
unfolding merge
merge-NodupKeys a b =
    copy_into-NodupKeys (entries b) (copy_into (entries a) [])
      (copy_into-NodupKeys (entries a) [] tt)

pub ignore-NodupKeys : (a b : KeyValueTags) → NodupKeys (entries (ignore a b))
unfolding ignore
ignore-NodupKeys a b = copy_if-NodupKeys (λ k v. not (has (entries b) k)) (entries a)

pub ignore_aws-NodupKeys : (a : KeyValueTags) → NodupKeys (entries (ignore_aws a))
unfolding ignore_aws
ignore_aws-NodupKeys a =
    copy_if-NodupKeys (λ k v. not (has_prefix k aws_tag_key_prefix)) (entries a)

pub removed-NodupKeys : (a b : KeyValueTags) → NodupKeys (entries (removed a b))
unfolding removed
removed-NodupKeys a b = copy_if-NodupKeys (λ k v. not (has (entries b) k)) (entries a)

pub updated-NodupKeys : (a b : KeyValueTags) → NodupKeys (entries (updated a b))
unfolding updated
updated-NodupKeys a b =
    copy_if-NodupKeys (λ k new_v. differs (lookup k (entries a)) new_v) (entries b)

abbrev pub map_option {ℓ κ} : {A : Type ℓ} {B : Type κ} → (A → B) → Option A → Option B
map_option f none = none
map_option f (some a) = some (f a)

lookup-map_loop :
    (j : Text) (m : Entries (Option TagData))
    → lookup j (map_loop m) ≡ map_option map_value (lookup j m)
unfolding map_loop lookup
lookup-map_loop j [] = refl
lookup-map_loop j ((k, v) ∷ m) =
    ground (arith, lookup-map_loop j m, lookup-insert j k (map_value v) (map_loop m))

pub lookup-to_map :
    (tags : KeyValueTags) (j : Text)
    → lookup j (entries (to_map tags)) ≡ map_option map_value (tag_at tags j)
unfolding to_map
lookup-to_map tags j = lookup-map_loop j (entries tags)

map_loop-NodupKeys : (m : Entries (Option TagData)) → NodupKeys (map_loop m)
unfolding map_loop
map_loop-NodupKeys [] = tt
map_loop-NodupKeys ((k, v) ∷ m) =
    insert-NodupKeys k (map_value v) (map_loop m) (map_loop-NodupKeys m)

pub to_map-NodupKeys : (tags : KeyValueTags) → NodupKeys (entries (to_map tags))
unfolding to_map
to_map-NodupKeys tags = map_loop-NodupKeys (entries tags)

pub mem-keys {ℓ} : {V : Type ℓ} (j : Text) (m : Entries V) → mem j (keys m) ≡ has m j
unfolding keys lookup mem
mem-keys j [] = refl
mem-keys j ((k, v) ∷ m) =
    ground (arith, mem-keys j m, mem-append j (keys m) (k ∷ []), eq_iff j k, eq_iff k j)

-- Equal tags have equal values.
pub map_value-eq_of_equal : (a b : Option TagData) → equal a b ≡ true → map_value a ≡ map_value b
unfolding equal map_value
map_value-eq_of_equal none none h = refl
map_value-eq_of_equal none (some b) h = cc
map_value-eq_of_equal (some a) none h = cc
map_value-eq_of_equal (some a) (some b) h =
    unfold map_value in ground (arith, value-eq_of_equal a b h)
