-- ===== src/KeyValueTags/Requests/Named.antt =====
-- The keys and the tags that the value of a field names, which are those of the tags that it was made of.
use terraform_provider_awsut.Prelude.{
  ◌≡◌, refl, ◌∙◌, ap, ◌&&◌, not, Bool, false, Option, none, some, inl, inr, if◌then◌else◌, ◌⊎◌,
  List, [], ◌∷◌, ◌++◌, Text, ◌==◌, eq_refl, eq_iff, mem, mem-append, arith, has_prefix,
}
use terraform_provider_awsut.Prelude.Map.{Entries, entries, lookup, has, NodupKeys}
use terraform_provider_awsut.KeyValueTags.Data.{KeyValueTags, aws_tag_key_prefix}
use terraform_provider_awsut.KeyValueTags.Filter.{ignore_aws}
use terraform_provider_awsut.KeyValueTags.Access.{keys, to_map, map_value}
use terraform_provider_awsut.KeyValueTags.Lookups.{
  tag_at, map_option, mem-keys, lookup-ignore_aws, lookup-to_map, to_map-NodupKeys,
}
use terraform_provider_awsut.KeyValueTags.UpdateTags.{tag_list}
use terraform_provider_awsut.KeyValueTags.UpdateTags.Sync.{lookup-tag_list, tag_list-NodupKeys}
use terraform_provider_awsut.KeyValueTags.Requests.{
  Struct, Argument, string, string_slice, string_map, structs, struct, source_text, structs_of,
  slice_tags, map_tags, key_structs_of, slice_tag_keys, plain_keys, field_text, string_value,
  pairs_of,
}

unfoldable pub keys_named : Text → List Struct → List Text
keys_named key_field [] = []
keys_named key_field (tag ∷ tags) =
    string_value (field_text key_field tag) ∷ keys_named key_field tags

-- The keys that an argument names, whatever its form.
unfoldable pub named_keys : Text → Argument → List Text
unfolding keys_named
named_keys key_field (string s) = []
named_keys key_field (string_slice l) = l
named_keys key_field (string_map m) = keys m
named_keys key_field (structs l) = keys_named key_field l
named_keys key_field (struct type field a) = named_keys key_field a
named_keys key_field (source_text s) = []

unfoldable pub values_named : Entries (Option Text) → Entries Text
values_named [] = []
values_named ((k, v) ∷ m) = (k, string_value v) ∷ values_named m

-- The tags that it names.
unfoldable pub named_tags : Text → Text → Argument → Entries Text
unfolding values_named
named_tags key_field value_field (string s) = []
named_tags key_field value_field (string_slice l) = []
named_tags key_field value_field (string_map m) = m
named_tags key_field value_field (structs l) = values_named (pairs_of key_field value_field l)
named_tags key_field value_field (struct type field a) = named_tags key_field value_field a
named_tags key_field value_field (source_text s) = []

-- Every value as a pointer.
unfoldable pub pointers : Entries Text → Entries (Option Text)
pointers [] = []
pointers ((k, v) ∷ m) = (k, some v) ∷ pointers m

-- Every key without a value.
unfoldable pub keys_alone : List Text → Entries (Option Text)
keys_alone [] = []
keys_alone (k ∷ l) = (k, none) ∷ keys_alone l

-- What a request to untag names, whatever its form: keys, with values where it gives them.
unfoldable pub named_pairs : Text → Text → Argument → Entries (Option Text)
unfolding keys_alone pointers
named_pairs key_field value_field (string s) = []
named_pairs key_field value_field (string_slice l) = keys_alone l
named_pairs key_field value_field (string_map m) = pointers m
named_pairs key_field value_field (structs l) = pairs_of key_field value_field l
named_pairs key_field value_field (struct type field a) = named_pairs key_field value_field a
named_pairs key_field value_field (source_text s) = []

pub lookup-pointers :
    (k : Text) (m : Entries Text) → lookup k (pointers m) ≡ map_option some (lookup k m)
unfolding pointers lookup
lookup-pointers k [] = refl
lookup-pointers k ((j, v) ∷ m) = ground (arith, lookup-pointers k m)

pub pointers-NodupKeys : (m : Entries Text) → NodupKeys m → NodupKeys (pointers m)
unfolding pointers
pointers-NodupKeys [] u = tt
pointers-NodupKeys ((k, v) ∷ m) (fresh, u) = (rw (lookup-pointers, fresh), pointers-NodupKeys m u)

values_named-pointers : (m : Entries Text) → values_named (pointers m) ≡ m
unfolding values_named pointers
values_named-pointers [] = refl
values_named-pointers ((k, v) ∷ m) =
    ap (λ (rest : Entries Text). (k, v) ∷ rest) (values_named-pointers m)

pointers-append : (l m : Entries Text) → pointers (l ++ m) ≡ pointers l ++ pointers m
unfolding pointers
pointers-append [] m = refl
pointers-append ((k, v) ∷ l) m =
    ap (λ (rest : Entries (Option Text)). (k, some v) ∷ rest) (pointers-append l m)

pairs_of-append :
    (key_field value_field : Text) (l m : List Struct)
    → pairs_of key_field value_field (l ++ m)
      ≡ pairs_of key_field value_field l ++ pairs_of key_field value_field m
unfolding pairs_of
pairs_of-append key_field value_field [] m = refl
pairs_of-append key_field value_field (tag ∷ l) m =
    ap
      (λ (rest : Entries (Option Text)).
        (string_value (field_text key_field tag), field_text value_field tag) ∷ rest)
      (pairs_of-append key_field value_field l m)

-- The pairs that are read from the structs of some tags are those tags.
pub pairs_of-structs_of :
    (key_field value_field : Text)
    → (key_field == value_field) ≡ false
    → (m : Entries Text)
    → pairs_of key_field value_field (structs_of key_field value_field m) ≡ pointers (tag_list m)
unfolding pairs_of structs_of pointers tag_list field_text
pairs_of-structs_of key_field value_field apart [] = refl
pairs_of-structs_of key_field value_field apart ((k, v) ∷ m) = rw (
  pairs_of-append,
  pairs_of-structs_of key_field value_field apart m,
  pointers-append,
  eq_refl key_field,
  apart,
  eq_refl value_field,
)

keys_named-append :
    (key_field : Text) (l m : List Struct)
    → keys_named key_field (l ++ m) ≡ keys_named key_field l ++ keys_named key_field m
unfolding keys_named
keys_named-append key_field [] m = refl
keys_named-append key_field (tag ∷ l) m =
    ap (λ (rest : List Text). string_value (field_text key_field tag) ∷ rest)
      (keys_named-append key_field l m)

mem-keys_named-key_structs_of :
    (key_field k : Text) (m : Entries Text)
    → mem k (keys_named key_field (key_structs_of key_field m)) ≡ has m k
unfolding keys_named key_structs_of field_text lookup mem
mem-keys_named-key_structs_of key_field k [] = refl
mem-keys_named-key_structs_of key_field k ((j, v) ∷ m) =
    rw (keys_named-append, mem-append, eq_refl, mem-keys_named-key_structs_of key_field k m)
      (ground (arith, eq_iff j k, eq_iff k j))

-- The keys of the tags without those that begin with `aws:`.
abbrev pub names_key : KeyValueTags → Text → Bool
names_key tags k = not (has_prefix k aws_tag_key_prefix) && has (entries tags) k

has-to_map :
    (tags : KeyValueTags) (k : Text) → has (entries (to_map (ignore_aws tags))) k ≡ names_key tags k
has-to_map tags k = ground (arith, lookup-to_map (ignore_aws tags) k, lookup-ignore_aws tags k)

pub mem-plain_keys :
    (key_field : Text) (tags : KeyValueTags) (k : Text)
    → mem k (named_keys key_field (plain_keys tags)) ≡ names_key tags k
unfolding named_keys
mem-plain_keys key_field tags k =
    mem-keys k (entries (ignore_aws tags)) ∙ ground (arith, lookup-ignore_aws tags k)

keys_alone-append : (l m : List Text) → keys_alone (l ++ m) ≡ keys_alone l ++ keys_alone m
unfolding keys_alone
keys_alone-append [] m = refl
keys_alone-append (k ∷ l) m =
    ap (λ (rest : Entries (Option Text)). (k, none) ∷ rest) (keys_alone-append l m)

lookup-keys_alone :
    (k : Text) (l : List Text) → lookup k (keys_alone l) ≡ (if mem k l then some none else none)
unfolding keys_alone lookup mem
lookup-keys_alone k [] = refl
lookup-keys_alone k (j ∷ l) = ground (arith, lookup-keys_alone k l, eq_iff j k, eq_iff k j)

pairs_of-key_structs_of :
    (key_field value_field : Text)
    → (key_field == value_field) ≡ false
    → (m : Entries Text)
    → pairs_of key_field value_field (key_structs_of key_field m)
      ≡ keys_alone (keys_named key_field (key_structs_of key_field m))
unfolding pairs_of key_structs_of keys_alone keys_named field_text
pairs_of-key_structs_of key_field value_field apart [] = refl
pairs_of-key_structs_of key_field value_field apart ((k, v) ∷ m) = rw (
  pairs_of-append,
  keys_named-append,
  keys_alone-append,
  pairs_of-key_structs_of key_field value_field apart m,
  eq_refl key_field,
  apart,
)

-- What a request to untag some tags names under a key: the key alone, or the key with the value of its tag.
abbrev pub AsksFor : KeyValueTags → Text → Option (Option Text) → Type 0
AsksFor tags k asked =
    (asked ≡ (if names_key tags k then some none else none))
    ⊎ (asked ≡ map_option some (map_option map_value (tag_at (ignore_aws tags) k)))

module _ (key_field value_field : Text) (tags : KeyValueTags) (k : Text) where
  pub plain_keys-AsksFor :
      AsksFor tags k (lookup k (named_pairs key_field value_field (plain_keys tags)))
  unfolding named_pairs
  plain_keys-AsksFor = inl (
      lookup-keys_alone k (keys (entries (ignore_aws tags)))
      ∙ rw (mem-keys k (entries (ignore_aws tags)), lookup-ignore_aws)
          (ground (arith, lookup-ignore_aws tags k)))

  pub slice_tag_keys-AsksFor :
      (key_field == value_field) ≡ false
      → AsksFor tags k (
          lookup k (named_pairs key_field value_field (slice_tag_keys key_field (ignore_aws tags))))
  unfolding named_pairs
  slice_tag_keys-AsksFor apart = inl (
      rw (
        pairs_of-key_structs_of key_field value_field apart,
        lookup-keys_alone,
        mem-keys_named-key_structs_of,
        has-to_map,
      ))

  pub slice_tags-AsksFor :
      (key_field == value_field) ≡ false
      → AsksFor tags k (
          lookup k (
            named_pairs key_field value_field (slice_tags key_field value_field (ignore_aws tags))))
  unfolding named_pairs
  slice_tags-AsksFor apart = inr (
      rw (
        pairs_of-structs_of key_field value_field apart,
        lookup-pointers,
        lookup-tag_list k (entries (to_map (ignore_aws tags))) (to_map-NodupKeys (ignore_aws tags)),
        lookup-to_map,
      ))

  pub map_tags-AsksFor :
      AsksFor tags k (lookup k (named_pairs key_field value_field (map_tags (ignore_aws tags))))
  unfolding named_pairs
  map_tags-AsksFor = inr (rw (lookup-pointers, lookup-to_map))

named_tags-slice_tags :
    (key_field value_field : Text)
    → (key_field == value_field) ≡ false
    → (tags : KeyValueTags)
    → named_tags key_field value_field (slice_tags key_field value_field tags)
      ≡ tag_list (entries (to_map tags))
unfolding named_tags
named_tags-slice_tags key_field value_field apart tags =
    rw (pairs_of-structs_of key_field value_field apart)
      (values_named-pointers (tag_list (entries (to_map tags))))

-- The tags that an argument names are these tags with their values, each key once.
abbrev pub Names : Entries Text → KeyValueTags → Type 0
Names named tags =
    ((k : Text) → lookup k named ≡ map_option map_value (tag_at tags k)) × NodupKeys named

pub slice_tags-Names :
    (key_field value_field : Text)
    → (key_field == value_field) ≡ false
    → (tags : KeyValueTags)
    → Names (named_tags key_field value_field (slice_tags key_field value_field tags)) tags
slice_tags-Names key_field value_field apart tags = (
  λ k.
      rw (named_tags-slice_tags key_field value_field apart)
        (lookup-tag_list k (entries (to_map tags)) (to_map-NodupKeys tags) ∙ lookup-to_map tags k),
  rw (named_tags-slice_tags key_field value_field apart)
      (tag_list-NodupKeys (entries (to_map tags)) (to_map-NodupKeys tags)),
)

pub map_tags-Names :
    (key_field value_field : Text) (tags : KeyValueTags)
    → Names (named_tags key_field value_field (map_tags tags)) tags
unfolding named_tags
map_tags-Names key_field value_field tags = (lookup-to_map tags, to_map-NodupKeys tags)
