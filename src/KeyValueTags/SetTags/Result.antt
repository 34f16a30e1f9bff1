-- ===== src/KeyValueTags/SetTags/Result.antt =====
-- What the two services hold after an update that returned no error.
use terraform_provider_awsut.Prelude.{
  ◌≡◌, refl, ◌∙◌, inl, inr, ◌&&◌, not, Option, none, some, List, [], Text, codes, ◌==◌, mem,
  is_empty, arith, if◌then◌else◌, Bool-cases,
}
use terraform_provider_awsut.Prelude.Go.{ok}
use terraform_provider_awsut.Prelude.Map.{Entries, entries, lookup, NodupKeys}
use terraform_provider_awsut.KeyValueTags.Data.{KeyValueTags}
use terraform_provider_awsut.KeyValueTags.Copy.{or_else}
use terraform_provider_awsut.KeyValueTags.Filter.{ignore_aws, removed, updated}
use terraform_provider_awsut.KeyValueTags.Access.{map_value}
use terraform_provider_awsut.KeyValueTags.New.{Source, new}
use terraform_provider_awsut.KeyValueTags.New.Keys.{new-NodupKeys}
use terraform_provider_awsut.KeyValueTags.Lookups.{
  tag_at, map_option, lookup-ignore_aws, lookup-removed, lookup-updated,
}
use terraform_provider_awsut.KeyValueTags.UpdateTags.Sync.{is_empty-eq, none_of_ok}
use terraform_provider_awsut.KeyValueTags.UpdateTags.Result.{settle}
use terraform_provider_awsut.KeyValueTags.Requests.{Argument, Client, plain_keys}
use terraform_provider_awsut.KeyValueTags.Requests.Named.{
  named_keys, named_tags, names_key, mem-plain_keys, slice_tags-Names,
}
use terraform_provider_awsut.KeyValueTags.Generated.Shapes.{read_tags}
use terraform_provider_awsut.KeyValueTags.Generated.SliceTags.FromOrganizations.{
  servicecatalog_tags,
}
use terraform_provider_awsut.KeyValueTags.Generators.SyncResult.{Holds}
use terraform_provider_awsut.KeyValueTags.SetTags.{
  set_if, set_tags_for_resource, update_catalog, inspector_between, inspector_update_tags,
  catalog_between, service_catalog_portfolio_update_tags, service_catalog_product_update_tags,
}

-- The tags and the keys that a field names; a field that was not set names none.
abbrev pub tags_in : Option Argument → Entries Text
tags_in none = []
tags_in (some value) = named_tags (codes "Key") (codes "Value") value

abbrev pub keys_in : Option Argument → List Text
keys_in none = []
keys_in (some value) = named_keys (codes "Key") value

-- The documented behaviour of Inspector: the tags of the request replace all tags of the resource.
pub record IsReplacing {W : Type 0} (client : Client W) (identifier : Text)
    (remote : W → Text → Option Text) : Type 0 where
  pub set_lookup :
      (tags : Option Argument) (w : W)
      → NodupKeys (tags_in tags)
      → (client (set_tags_for_resource identifier tags) w).0 ≡ none
      → (k : Text)
      → remote (client (set_tags_for_resource identifier tags) w).1 k ≡ lookup k (tags_in tags)

-- The documented behaviour of Service Catalog: a request removes the keys that it names and stores the tags
-- that it names.
pub record IsChanging {W : Type 0} (client : Client W) (operation identifier : Text)
    (remote : W → Text → Option Text) : Type 0 where
  pub change_lookup :
      (remove_tags add_tags : Option Argument) (w : W)
      → NodupKeys (tags_in add_tags)
      → (client (update_catalog operation identifier remove_tags add_tags) w).0 ≡ none
      → (k : Text)
      → remote (client (update_catalog operation identifier remove_tags add_tags) w).1 k
        ≡ or_else
            (lookup k (tags_in add_tags))
            (if mem k (keys_in remove_tags) then none else remote w k)

module _ {W : Type 0} (client : Client W) (identifier : Text)
    (remote : W → Text → Option Text) where
  -- If an update of the tags of an Inspector resource returns no error, the resource has the new tags without
  -- `aws:` keys, and no others; with neither old nor new tags nothing changes.
  pub inspector_update_tags-lookup :
      IsReplacing client identifier remote
      → (old_tags_map new_tags_map : Source) (old_tags new_tags : KeyValueTags) (w : W)
      → new old_tags_map ≡ some old_tags
      → new new_tags_map ≡ some new_tags
      → (inspector_update_tags client identifier old_tags_map new_tags_map w).0 ≡ ok tt
      → (k : Text)
      → remote (inspector_update_tags client identifier old_tags_map new_tags_map w).1 k ≡ (
          if is_empty (entries new_tags) && is_empty (entries old_tags)
          then remote w k
          else map_option map_value (tag_at (ignore_aws new_tags) k))
  unfolding inspector_update_tags inspector_between read_tags
  inspector_update_tags-lookup lawful old_tags_map new_tags_map old_tags new_tags w old_read
        new_read h k =
      let (values, unique) =
        slice_tags-Names (codes "Key") (codes "Value") (unfold ◌==◌ in refl)
          (ignore_aws new_tags) in
      rw (old_read, new_read)
        (elim (Bool-cases (is_empty (entries new_tags))) [
          | inr some_new ↦ rw some_new (
              lawful.set_lookup (some _) w unique
                (none_of_ok _ _ (rw (old_read, new_read, some_new) at h)) k
              ∙ values k)
          | inl no_new ↦ elim (Bool-cases (is_empty (entries old_tags))) [
            | inl no_old ↦ rw (no_new, no_old)
            | inr some_old ↦
                rw (no_new, some_old)
                  (lawful.set_lookup none w tt
                      (none_of_ok _ _ (rw (old_read, new_read, no_new, some_old) at h)) k
                    ∙ rw (lookup-ignore_aws, is_empty-eq _ no_new) (unfold lookup in ground arith))
          ]
        ])

  added :
      (tags : KeyValueTags) (k : Text)
      → lookup k
          (tags_in (set_if (not (is_empty (entries tags))) (servicecatalog_tags (ignore_aws tags))))
        ≡ map_option map_value (tag_at (ignore_aws tags) k)
  added tags k =
      let (values, unique) =
        slice_tags-Names (codes "Key") (codes "Value") (unfold ◌==◌ in refl) (ignore_aws tags) in
      elim (Bool-cases (is_empty (entries tags))) [
        | inl nothing ↦
            rw (nothing, lookup-ignore_aws, is_empty-eq _ nothing) (unfold lookup in ground arith)
        | inr some_tags ↦ rw some_tags (values k)
      ]

  added_once :
      (tags : KeyValueTags)
      → NodupKeys
          (tags_in (set_if (not (is_empty (entries tags))) (servicecatalog_tags (ignore_aws tags))))
  added_once tags =
      let (values, unique) =
        slice_tags-Names (codes "Key") (codes "Value") (unfold ◌==◌ in refl) (ignore_aws tags) in
      elim (Bool-cases (is_empty (entries tags))) [
        | inl nothing ↦ rw nothing tt
        | inr some_tags ↦ rw some_tags unique
      ]

  taken :
      (tags : KeyValueTags) (k : Text)
      → mem k (keys_in (set_if (not (is_empty (entries tags))) (plain_keys tags)))
        ≡ names_key tags k
  unfolding mem
  taken tags k = elim (Bool-cases (is_empty (entries tags))) [
    | inl nothing ↦ rw (nothing, is_empty-eq _ nothing) (unfold lookup in ground arith)
    | inr some_tags ↦ rw some_tags (mem-plain_keys (codes "Key") tags k)
  ]

  after-Holds :
      (operation : Text)
      → IsChanging client operation identifier remote
      → (old_tags new_tags : KeyValueTags) → NodupKeys (entries new_tags)
      → (w : W) → (catalog_between client identifier operation old_tags new_tags w).0 ≡ ok tt
      → Holds (remote w) old_tags
      → Holds (remote (catalog_between client identifier operation old_tags new_tags w).1) new_tags
  unfolding catalog_between
  after-Holds operation lawful old_tags new_tags unique w h before k plain =
      lawful.change_lookup _ _ w (added_once (updated old_tags new_tags)) (none_of_ok _ _ h) k
      ∙ rw
          (
            added (updated old_tags new_tags) k,
            taken (removed old_tags new_tags) k,
            lookup-ignore_aws,
            lookup-updated old_tags new_tags k unique,
            lookup-removed,
            plain,
            before k plain,
          )
          (settle (tag_at old_tags k) (tag_at new_tags k))

  -- If Service Catalog held the old tags, leaving `aws:` keys aside, and the updates of a portfolio and of a
  -- product return no error, then each leaves it with the new tags, leaving `aws:` keys aside.
  pub service_catalog_update_tags-Holds :
      IsChanging client (codes "UpdatePortfolio") identifier remote
      → IsChanging client (codes "UpdateProduct") identifier remote
      → (old_tags_map new_tags_map : Source) (old_tags new_tags : KeyValueTags) (w : W)
      → new old_tags_map ≡ some old_tags
      → new new_tags_map ≡ some new_tags
      → Holds (remote w) old_tags
      → (service_catalog_portfolio_update_tags client identifier old_tags_map new_tags_map w).0
        ≡ ok tt
      → (service_catalog_product_update_tags client identifier old_tags_map new_tags_map w).0
        ≡ ok tt
      → Holds
          (remote
            (service_catalog_portfolio_update_tags client identifier old_tags_map new_tags_map w).1)
          new_tags
        × Holds
            (remote
              (service_catalog_product_update_tags client identifier old_tags_map new_tags_map w).1)
            new_tags
  unfolding service_catalog_portfolio_update_tags service_catalog_product_update_tags read_tags
  service_catalog_update_tags-Holds portfolio product old_tags_map new_tags_map old_tags new_tags w
        old_read new_read before h g =
      let unique = new-NodupKeys new_tags_map new_read in
      (
        rw (old_read, new_read)
            (after-Holds _ portfolio old_tags new_tags unique w (rw (old_read, new_read) at h)
              before),
        rw (old_read, new_read)
            (after-Holds _ product old_tags new_tags unique w (rw (old_read, new_read) at g)
              before),
      )
