-- ===== src/KeyValueTags/Generated/SliceTags/FromEcs.antt =====
-- internal/keyvaluetags/service_tags_gen.go, services whose tags are slices: EcsTags to OrganizationsTags.
use terraform_provider_awsut.Prelude.{List, codes}
use terraform_provider_awsut.KeyValueTags.Data.{KeyValueTags}
use terraform_provider_awsut.KeyValueTags.Requests.{
  Argument, Struct, slice_tags, slice_tag_keys, tags_of_structs,
}

abbrev pub ecs_tags : KeyValueTags → Argument
ecs_tags = slice_tags (codes "Key") (codes "Value")

abbrev pub ecs_key_value_tags : List Struct → KeyValueTags
ecs_key_value_tags = tags_of_structs (codes "Key") (codes "Value")

abbrev pub efs_tags : KeyValueTags → Argument
efs_tags = slice_tags (codes "Key") (codes "Value")

abbrev pub efs_key_value_tags : List Struct → KeyValueTags
efs_key_value_tags = tags_of_structs (codes "Key") (codes "Value")

abbrev pub elasticache_tags : KeyValueTags → Argument
elasticache_tags = slice_tags (codes "Key") (codes "Value")

abbrev pub elasticache_key_value_tags : List Struct → KeyValueTags
elasticache_key_value_tags = tags_of_structs (codes "Key") (codes "Value")

abbrev pub elasticbeanstalk_tags : KeyValueTags → Argument
elasticbeanstalk_tags = slice_tags (codes "Key") (codes "Value")

abbrev pub elasticbeanstalk_key_value_tags : List Struct → KeyValueTags
elasticbeanstalk_key_value_tags = tags_of_structs (codes "Key") (codes "Value")

abbrev pub elasticsearchservice_tags : KeyValueTags → Argument
elasticsearchservice_tags = slice_tags (codes "Key") (codes "Value")

abbrev pub elasticsearchservice_key_value_tags : List Struct → KeyValueTags
elasticsearchservice_key_value_tags = tags_of_structs (codes "Key") (codes "Value")

abbrev pub elb_tag_keys : KeyValueTags → Argument
elb_tag_keys = slice_tag_keys (codes "Key")

abbrev pub elb_tags : KeyValueTags → Argument
elb_tags = slice_tags (codes "Key") (codes "Value")

abbrev pub elb_key_value_tags : List Struct → KeyValueTags
elb_key_value_tags = tags_of_structs (codes "Key") (codes "Value")

abbrev pub elbv2_tags : KeyValueTags → Argument
elbv2_tags = slice_tags (codes "Key") (codes "Value")

abbrev pub elbv2_key_value_tags : List Struct → KeyValueTags
elbv2_key_value_tags = tags_of_structs (codes "Key") (codes "Value")

abbrev pub emr_tags : KeyValueTags → Argument
emr_tags = slice_tags (codes "Key") (codes "Value")

abbrev pub emr_key_value_tags : List Struct → KeyValueTags
emr_key_value_tags = tags_of_structs (codes "Key") (codes "Value")

abbrev pub firehose_tags : KeyValueTags → Argument
firehose_tags = slice_tags (codes "Key") (codes "Value")

abbrev pub firehose_key_value_tags : List Struct → KeyValueTags
firehose_key_value_tags = tags_of_structs (codes "Key") (codes "Value")

abbrev pub fms_tags : KeyValueTags → Argument
fms_tags = slice_tags (codes "Key") (codes "Value")

abbrev pub fms_key_value_tags : List Struct → KeyValueTags
fms_key_value_tags = tags_of_structs (codes "Key") (codes "Value")

abbrev pub fsx_tags : KeyValueTags → Argument
fsx_tags = slice_tags (codes "Key") (codes "Value")

abbrev pub fsx_key_value_tags : List Struct → KeyValueTags
fsx_key_value_tags = tags_of_structs (codes "Key") (codes "Value")

abbrev pub gamelift_tags : KeyValueTags → Argument
gamelift_tags = slice_tags (codes "Key") (codes "Value")

abbrev pub gamelift_key_value_tags : List Struct → KeyValueTags
gamelift_key_value_tags = tags_of_structs (codes "Key") (codes "Value")

abbrev pub globalaccelerator_tags : KeyValueTags → Argument
globalaccelerator_tags = slice_tags (codes "Key") (codes "Value")

abbrev pub globalaccelerator_key_value_tags : List Struct → KeyValueTags
globalaccelerator_key_value_tags = tags_of_structs (codes "Key") (codes "Value")

abbrev pub iam_tags : KeyValueTags → Argument
iam_tags = slice_tags (codes "Key") (codes "Value")

abbrev pub iam_key_value_tags : List Struct → KeyValueTags
iam_key_value_tags = tags_of_structs (codes "Key") (codes "Value")

abbrev pub inspector_tags : KeyValueTags → Argument
inspector_tags = slice_tags (codes "Key") (codes "Value")

abbrev pub inspector_key_value_tags : List Struct → KeyValueTags
inspector_key_value_tags = tags_of_structs (codes "Key") (codes "Value")

abbrev pub iot_tags : KeyValueTags → Argument
iot_tags = slice_tags (codes "Key") (codes "Value")

abbrev pub iot_key_value_tags : List Struct → KeyValueTags
iot_key_value_tags = tags_of_structs (codes "Key") (codes "Value")

abbrev pub iotanalytics_tags : KeyValueTags → Argument
iotanalytics_tags = slice_tags (codes "Key") (codes "Value")

abbrev pub iotanalytics_key_value_tags : List Struct → KeyValueTags
iotanalytics_key_value_tags = tags_of_structs (codes "Key") (codes "Value")

abbrev pub iotevents_tags : KeyValueTags → Argument
iotevents_tags = slice_tags (codes "Key") (codes "Value")

abbrev pub iotevents_key_value_tags : List Struct → KeyValueTags
iotevents_key_value_tags = tags_of_structs (codes "Key") (codes "Value")

abbrev pub kinesis_tags : KeyValueTags → Argument
kinesis_tags = slice_tags (codes "Key") (codes "Value")

abbrev pub kinesis_key_value_tags : List Struct → KeyValueTags
kinesis_key_value_tags = tags_of_structs (codes "Key") (codes "Value")

abbrev pub kinesisanalytics_tags : KeyValueTags → Argument
kinesisanalytics_tags = slice_tags (codes "Key") (codes "Value")

abbrev pub kinesisanalytics_key_value_tags : List Struct → KeyValueTags
kinesisanalytics_key_value_tags = tags_of_structs (codes "Key") (codes "Value")

abbrev pub kinesisanalyticsv2_tags : KeyValueTags → Argument
kinesisanalyticsv2_tags = slice_tags (codes "Key") (codes "Value")

abbrev pub kinesisanalyticsv2_key_value_tags : List Struct → KeyValueTags
kinesisanalyticsv2_key_value_tags = tags_of_structs (codes "Key") (codes "Value")

abbrev pub kms_tags : KeyValueTags → Argument
kms_tags = slice_tags (codes "TagKey") (codes "TagValue")

abbrev pub kms_key_value_tags : List Struct → KeyValueTags
kms_key_value_tags = tags_of_structs (codes "TagKey") (codes "TagValue")

abbrev pub licensemanager_tags : KeyValueTags → Argument
licensemanager_tags = slice_tags (codes "Key") (codes "Value")

abbrev pub licensemanager_key_value_tags : List Struct → KeyValueTags
licensemanager_key_value_tags = tags_of_structs (codes "Key") (codes "Value")

abbrev pub lightsail_tags : KeyValueTags → Argument
lightsail_tags = slice_tags (codes "Key") (codes "Value")

abbrev pub lightsail_key_value_tags : List Struct → KeyValueTags
lightsail_key_value_tags = tags_of_structs (codes "Key") (codes "Value")

abbrev pub mediastore_tags : KeyValueTags → Argument
mediastore_tags = slice_tags (codes "Key") (codes "Value")

abbrev pub mediastore_key_value_tags : List Struct → KeyValueTags
mediastore_key_value_tags = tags_of_structs (codes "Key") (codes "Value")

abbrev pub neptune_tags : KeyValueTags → Argument
neptune_tags = slice_tags (codes "Key") (codes "Value")

abbrev pub neptune_key_value_tags : List Struct → KeyValueTags
neptune_key_value_tags = tags_of_structs (codes "Key") (codes "Value")

abbrev pub networkfirewall_tags : KeyValueTags → Argument
networkfirewall_tags = slice_tags (codes "Key") (codes "Value")

abbrev pub networkfirewall_key_value_tags : List Struct → KeyValueTags
networkfirewall_key_value_tags = tags_of_structs (codes "Key") (codes "Value")

abbrev pub networkmanager_tags : KeyValueTags → Argument
networkmanager_tags = slice_tags (codes "Key") (codes "Value")

abbrev pub networkmanager_key_value_tags : List Struct → KeyValueTags
networkmanager_key_value_tags = tags_of_structs (codes "Key") (codes "Value")

abbrev pub organizations_tags : KeyValueTags → Argument
organizations_tags = slice_tags (codes "Key") (codes "Value")
