-- ===== src/KeyValueTags/Config/Ignored.antt =====
-- The tags that the provider is configured to ignore.
use terraform_provider_awsut.Prelude.{
  ◌≡◌, refl, ◌⊎◌, inl, inr, Bool, true, false, Option, none, some, [], ◌∷◌, Text, ◌==◌, eq_iff,
  eq_refl, has_prefix, arith, if◌then◌else◌, Bool-cases,
}
use terraform_provider_awsut.Prelude.Map.{Entries, entries, lookup, has}
use terraform_provider_awsut.KeyValueTags.Data.{TagData, KeyValueTags}
use terraform_provider_awsut.KeyValueTags.Filter.{matches_prefix}
use terraform_provider_awsut.KeyValueTags.Config.{IgnoreConfig, ignore_config}
use terraform_provider_awsut.KeyValueTags.Lookups.{tag_at, lookup-ignore, lookup-ignore_prefixes}

-- A configured prefix with which a key begins.
abbrev pub PrefixOf : Text → Entries (Option TagData) → Type 0
PrefixOf k prefixes = (p : Text) × (has prefixes p ≡ true) × (has_prefix k p ≡ true)

matches_prefix_sound :
    (k : Text) (prefixes : Entries (Option TagData))
    → matches_prefix k prefixes ≡ true
    → PrefixOf k prefixes
unfolding matches_prefix lookup
matches_prefix_sound k [] h = cc
matches_prefix_sound k ((p, v) ∷ rest) h = elim (Bool-cases (has_prefix k p)) [
  | inl yes_prefix ↦ (p, ground (arith, eq_refl p), yes_prefix)
  | inr other ↦
      let (q, inside, prefix) = matches_prefix_sound k rest (ground arith) in
      (q, ground arith, prefix)
]

matches_prefix_complete :
    (k p : Text) (prefixes : Entries (Option TagData))
    → has prefixes p ≡ true
    → has_prefix k p ≡ true
    → matches_prefix k prefixes ≡ true
unfolding matches_prefix lookup
matches_prefix_complete k p [] inside prefix = cc
matches_prefix_complete k p ((q, v) ∷ rest) inside prefix = elim (Bool-cases (q == p)) [
  | inl same ↦ rw ((eq_iff q p).0 same, prefix)
  | inr other ↦ ground (arith, matches_prefix_complete k p rest)
]

-- The configuration ignores a key: it is one of the keys, or begins with one of the prefixes.
abbrev pub Ignores : IgnoreConfig → Text → Type 0
Ignores config k = (has (entries config.keys) k ≡ true) ⊎ PrefixOf k (entries config.key_prefixes)

pub lookup-ignore_config :
    (tags : KeyValueTags) (config : IgnoreConfig) (k : Text)
    → tag_at (ignore_config tags (some config)) k ≡ (
        if has (entries config.keys) k
        then none
        else if matches_prefix k (entries config.key_prefixes)
        then none
        else tag_at tags k)
unfolding ignore_config
lookup-ignore_config tags config k = rw (lookup-ignore, lookup-ignore_prefixes)

not_true : (b : Bool) → (b ≡ true → ⊥) → b ≡ false
not_true true h = absurd (h refl)
not_true false h = refl

-- `IgnoreConfig` removes a tag whose key is one of the configured keys or begins with one of the
-- configured prefixes.
pub ignore_config-eq-none :
    (tags : KeyValueTags) (config : IgnoreConfig) (k : Text)
    → Ignores config k
    → tag_at (ignore_config tags (some config)) k ≡ none
ignore_config-eq-none tags config k (inl key) = rw (lookup-ignore_config, key)
ignore_config-eq-none tags config k (inr (p, inside, prefix)) =
    rw lookup-ignore_config
      (ground (arith, matches_prefix_complete k p (entries config.key_prefixes) inside prefix))

-- `IgnoreConfig` keeps a tag, or its absence, if its key is none of the configured keys and begins
-- with none of the configured prefixes.
pub ignore_config-eq :
    (tags : KeyValueTags) (config : IgnoreConfig) (k : Text)
    → ¬ Ignores config k
    → tag_at (ignore_config tags (some config)) k ≡ tag_at tags k
ignore_config-eq tags config k kept = rw (
  lookup-ignore_config,
  not_true (has (entries config.keys) k) (λ key. kept (inl key)),
  not_true (matches_prefix k (entries config.key_prefixes))
      (λ h. kept (inr (matches_prefix_sound k (entries config.key_prefixes) h))),
)
