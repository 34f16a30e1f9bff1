-- ===== src/KeyValueTags/UpdateTags.antt =====
-- internal/keyvaluetags/update_tags_gen.go and iam_tags.go: the functions that bring the tags of a
-- resource from an old to a new set. The calls of the AWS SDK are the record `TagConn`.
pub mod Sync
pub mod Result
use terraform_provider_awsut.Prelude.{
  ℕ, Bool, true, false, not, Option, none, some, List, [], ◌∷◌, ◌++◌, Text, codes, is_empty,
}
use terraform_provider_awsut.Prelude.Error.{Error, wrapped}
use terraform_provider_awsut.Prelude.Go.{
  Outcome, ok, Go, Call, continue, ◌>>=◌, ◌>>◌, pure, or_panic, when, check,
}
use terraform_provider_awsut.Prelude.Map.{Entries, entries}
use terraform_provider_awsut.KeyValueTags.Data.{KeyValueTags}
use terraform_provider_awsut.KeyValueTags.Filter.{ignore_aws, removed, updated}
use terraform_provider_awsut.KeyValueTags.Access.{keys, to_map}
use terraform_provider_awsut.KeyValueTags.New.{Source, new}

-- The two operations of a service on the resource with an identifier: the first removes the tags
-- with the keys, the second adds the tags or overwrites them.
pub record TagConn (W : Type 0) : Type 0 where
  pub untag_resource : Text → List Text → Call W
  pub tag_resource : Text → Entries Text → Call W

abbrev pub error_untagging : Text → Error → Error
error_untagging identifier e =
    wrapped (codes "error untagging resource (%s): %w") (identifier ∷ []) e

abbrev pub error_tagging : Text → Error → Error
error_tagging identifier e = wrapped (codes "error tagging resource (%s): %w") (identifier ∷ []) e

-- The tags of a service as a list of keys with values.
unfoldable pub tag_list : Entries Text → Entries Text
tag_list [] = []
tag_list ((k, v) ∷ m) = tag_list m ++ (k, v) ∷ []

unfoldable pub iam_tags : KeyValueTags → Entries Text
unfolding tag_list
iam_tags tags = tag_list (entries (to_map tags))

module _ {W : Type 0} where
  -- `if removedTags := oldTags.Removed(newTags); len(removedTags) > 0 { … }`, over the keys of the
  -- removed tags that the request names
  unfoldable pub untag_removed :
      (KeyValueTags → List Text) → TagConn W → Text → KeyValueTags → KeyValueTags → Go W (Unit {0})
  untag_removed tag_keys conn identifier old_tags new_tags =
      let removed_tags = removed old_tags new_tags in
      when (not (is_empty (entries removed_tags))) (
        check (error_untagging identifier) (conn.untag_resource identifier (tag_keys removed_tags)))

  -- `if updatedTags := oldTags.Updated(newTags); len(updatedTags) > 0 { … }`
  unfoldable pub tag_updated :
      (KeyValueTags → Entries Text)
      → TagConn W
      → Text
      → KeyValueTags
      → KeyValueTags
      → Go W (Unit {0})
  tag_updated tags_of conn identifier old_tags new_tags =
      let updated_tags = updated old_tags new_tags in
      when (not (is_empty (entries updated_tags))) (
        check (error_tagging identifier)
          (conn.tag_resource identifier (tags_of (ignore_aws updated_tags))))

  unfoldable pub update_between :
      (KeyValueTags → List Text)
      → (KeyValueTags → Entries Text)
      → TagConn W
      → Text
      → KeyValueTags
      → KeyValueTags
      → Go W (Unit {0})
  update_between tag_keys tags_of conn identifier old_tags new_tags = do
    untag_removed tag_keys conn identifier old_tags new_tags
    tag_updated tags_of conn identifier old_tags new_tags

  update_from : (KeyValueTags → KeyValueTags → Go W (Unit {0})) → Source → Source → Go W (Unit {0})
  update_from update old_tags_map new_tags_map = do
    old_tags ← or_panic (new old_tags_map)
    new_tags ← or_panic (new new_tags_map)
    update old_tags new_tags

  -- The generated functions: keys that begin with `aws:` are left out of both requests.
  unfoldable pub accessanalyzer_update_tags : TagConn W → Text → Source → Source → Go W (Unit {0})
  unfolding update_from update_between
  accessanalyzer_update_tags conn identifier = update_from (
      update_between (λ removed_tags. keys (entries (ignore_aws removed_tags)))
        (λ tags. entries (to_map tags)) conn identifier)

  -- The functions of iam_tags.go leave keys that begin with `aws:` in the first request.
  unfoldable pub iam_update_tags : TagConn W → Text → Source → Source → Go W (Unit {0})
  unfolding update_from update_between iam_tags
  iam_update_tags conn identifier =
      update_from
        (update_between (λ removed_tags. keys (entries removed_tags)) iam_tags conn identifier)

-- The pairs of operations of the IAM client, one for each kind of resource.
pub record IamConn (W : Type 0) : Type 0 where
  pub role : TagConn W
  pub user : TagConn W
  pub instance_profile : TagConn W
  pub open_id_connect_provider : TagConn W
  pub policy : TagConn W
  pub saml_provider : TagConn W
  pub server_certificate : TagConn W

module _ {W : Type 0} (conn : IamConn W) where
  unfoldable pub iam_role_update_tags : Text → Source → Source → Go W (Unit {0})
  unfolding iam_update_tags
  iam_role_update_tags = iam_update_tags conn.role

  unfoldable pub iam_user_update_tags : Text → Source → Source → Go W (Unit {0})
  unfolding iam_update_tags
  iam_user_update_tags = iam_update_tags conn.user

  unfoldable pub iam_instance_profile_update_tags : Text → Source → Source → Go W (Unit {0})
  unfolding iam_update_tags
  iam_instance_profile_update_tags = iam_update_tags conn.instance_profile

  unfoldable pub iam_open_id_connect_provider_update_tags : Text → Source → Source → Go W (Unit {0})
  unfolding iam_update_tags
  iam_open_id_connect_provider_update_tags = iam_update_tags conn.open_id_connect_provider

  unfoldable pub iam_policy_update_tags : Text → Source → Source → Go W (Unit {0})
  unfolding iam_update_tags
  iam_policy_update_tags = iam_update_tags conn.policy

  unfoldable pub iam_saml_provider_update_tags : Text → Source → Source → Go W (Unit {0})
  unfolding iam_update_tags
  iam_saml_provider_update_tags = iam_update_tags conn.saml_provider

  unfoldable pub iam_server_certificate_update_tags : Text → Source → Source → Go W (Unit {0})
  unfolding iam_update_tags
  iam_server_certificate_update_tags = iam_update_tags conn.server_certificate
