-- ===== src/KeyValueTags/Generators/Agrees.antt =====
-- The models of AccessanalyzerUpdateTags over a record of two calls and over a client are one.
use terraform_provider_awsut.Prelude.{◌≡◌, refl, [], ◌∷◌, Text, codes}
use terraform_provider_awsut.KeyValueTags.UpdateTags
use terraform_provider_awsut.KeyValueTags.UpdateTags.{
  TagConn, untag_removed, tag_updated, update_between,
}
use terraform_provider_awsut.KeyValueTags.Requests.{string, string_slice, string_map, Client}
use terraform_provider_awsut.KeyValueTags.Generated.Shapes.{
  read_tags, update_tags, update_between_tags,
}
use terraform_provider_awsut.KeyValueTags.Generated.Update.FromAccessanalyzer

-- The two calls of a client of Access Analyzer.
abbrev pub tag_conn : {W : Type 0} → Client W → TagConn W
tag_conn client = record {
  untag_resource = λ identifier tag_keys. client (record {
    package_name = codes "accessanalyzer";
    operation = codes "UntagResource";
    fields =
        (codes "ResourceArn", string identifier) ∷ (codes "TagKeys", string_slice tag_keys) ∷ [];
  });
  tag_resource = λ identifier tags. client (record {
    package_name = codes "accessanalyzer";
    operation = codes "TagResource";
    fields = (codes "ResourceArn", string identifier) ∷ (codes "Tags", string_map tags) ∷ [];
  });
}

-- The function over a client is the function over the two calls of the client.
accessanalyzer_update_tags-tag_conn :
    {W : Type 0} (client : Client W) (identifier resource_type : Text)
    → FromAccessanalyzer.accessanalyzer_update_tags client identifier resource_type
      ≡ UpdateTags.accessanalyzer_update_tags (tag_conn client) identifier
unfolding update_tags update_between_tags read_tags UpdateTags.accessanalyzer_update_tags
    update_between untag_removed tag_updated
accessanalyzer_update_tags-tag_conn client identifier resource_type = refl
