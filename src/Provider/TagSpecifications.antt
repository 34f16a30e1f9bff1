-- ===== src/Provider/TagSpecifications.antt =====
-- internal/provider/tags.go: the tag specifications of the requests of EC2.
use terraform_provider_awsut.Prelude.{Option, none, some, List, [], ◌∷◌, Text, ltb, if◌then◌else◌}
use terraform_provider_awsut.Prelude.Map.{GoMap, size}
use terraform_provider_awsut.Prelude.Value.{Value}
use terraform_provider_awsut.KeyValueTags.Data.{KeyValueTags}
use terraform_provider_awsut.KeyValueTags.Filter.{ignore_aws}
use terraform_provider_awsut.KeyValueTags.New.{interface_map, new}
use terraform_provider_awsut.KeyValueTags.Requests.{Argument}
use terraform_provider_awsut.KeyValueTags.Generated.SliceTags.FromAcm.{ec2_tags}

-- The type of the resource, and its tags.
abbrev pub TagSpecification : Type 0
TagSpecification = Text × Argument

unfoldable pub ec2_tag_specifications_from_key_value_tags :
    KeyValueTags → Text → List TagSpecification
ec2_tag_specifications_from_key_value_tags tags t =
    if ltb 0 (size tags) then (t, ec2_tags (ignore_aws tags)) ∷ [] else []

specifications : Text → Option KeyValueTags → Option (List TagSpecification)
specifications t none = none
specifications t (some tags) = some ((t, ec2_tags (ignore_aws tags)) ∷ [])

-- `none` is a panic of `New`.
unfoldable pub ec2_tag_specifications_from_map : GoMap Value → Text → Option (List TagSpecification)
unfolding specifications
ec2_tag_specifications_from_map m t =
    if ltb 0 (size m) then specifications t (new (interface_map m)) else some []
