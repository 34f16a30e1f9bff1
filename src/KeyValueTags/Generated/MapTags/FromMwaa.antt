-- ===== src/KeyValueTags/Generated/MapTags/FromMwaa.antt =====
-- internal/keyvaluetags/service_tags_gen.go, services whose tags are maps: MwaaTags to WorklinkKeyValueTags.
use terraform_provider_awsut.Prelude.{Option, Text}
use terraform_provider_awsut.Prelude.Map.{GoMap}
use terraform_provider_awsut.KeyValueTags.Data.{KeyValueTags}
use terraform_provider_awsut.KeyValueTags.Requests.{Argument, map_tags, tags_of_map}

abbrev pub mwaa_tags : KeyValueTags → Argument
mwaa_tags = map_tags

abbrev pub mwaa_key_value_tags : GoMap (Option Text) → KeyValueTags
mwaa_key_value_tags = tags_of_map

abbrev pub opsworks_tags : KeyValueTags → Argument
opsworks_tags = map_tags

abbrev pub opsworks_key_value_tags : GoMap (Option Text) → KeyValueTags
opsworks_key_value_tags = tags_of_map

abbrev pub pinpoint_tags : KeyValueTags → Argument
pinpoint_tags = map_tags

abbrev pub pinpoint_key_value_tags : GoMap (Option Text) → KeyValueTags
pinpoint_key_value_tags = tags_of_map

abbrev pub qldb_tags : KeyValueTags → Argument
qldb_tags = map_tags

abbrev pub qldb_key_value_tags : GoMap (Option Text) → KeyValueTags
qldb_key_value_tags = tags_of_map

abbrev pub resourcegroups_tags : KeyValueTags → Argument
resourcegroups_tags = map_tags

abbrev pub resourcegroups_key_value_tags : GoMap (Option Text) → KeyValueTags
resourcegroups_key_value_tags = tags_of_map

abbrev pub schemas_tags : KeyValueTags → Argument
schemas_tags = map_tags

abbrev pub schemas_key_value_tags : GoMap (Option Text) → KeyValueTags
schemas_key_value_tags = tags_of_map

abbrev pub securityhub_tags : KeyValueTags → Argument
securityhub_tags = map_tags

abbrev pub securityhub_key_value_tags : GoMap (Option Text) → KeyValueTags
securityhub_key_value_tags = tags_of_map

abbrev pub signer_tags : KeyValueTags → Argument
signer_tags = map_tags

abbrev pub signer_key_value_tags : GoMap (Option Text) → KeyValueTags
signer_key_value_tags = tags_of_map

abbrev pub sqs_tags : KeyValueTags → Argument
sqs_tags = map_tags

abbrev pub sqs_key_value_tags : GoMap (Option Text) → KeyValueTags
sqs_key_value_tags = tags_of_map

abbrev pub synthetics_tags : KeyValueTags → Argument
synthetics_tags = map_tags

abbrev pub synthetics_key_value_tags : GoMap (Option Text) → KeyValueTags
synthetics_key_value_tags = tags_of_map

abbrev pub worklink_tags : KeyValueTags → Argument
worklink_tags = map_tags

abbrev pub worklink_key_value_tags : GoMap (Option Text) → KeyValueTags
worklink_key_value_tags = tags_of_map
