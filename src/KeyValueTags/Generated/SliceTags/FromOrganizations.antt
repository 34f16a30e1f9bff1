-- ===== src/KeyValueTags/Generated/SliceTags/FromOrganizations.antt =====
-- internal/keyvaluetags/service_tags_gen.go, services whose tags are slices: OrganizationsKeyValueTags to XrayKeyValueTags.
use terraform_provider_awsut.Prelude.{List, codes}
use terraform_provider_awsut.KeyValueTags.Data.{KeyValueTags}
use terraform_provider_awsut.KeyValueTags.Requests.{Argument, Struct, slice_tags, tags_of_structs}

abbrev pub organizations_key_value_tags : List Struct → KeyValueTags
organizations_key_value_tags = tags_of_structs (codes "Key") (codes "Value")

abbrev pub quicksight_tags : KeyValueTags → Argument
quicksight_tags = slice_tags (codes "Key") (codes "Value")

abbrev pub quicksight_key_value_tags : List Struct → KeyValueTags
quicksight_key_value_tags = tags_of_structs (codes "Key") (codes "Value")

abbrev pub ram_tags : KeyValueTags → Argument
ram_tags = slice_tags (codes "Key") (codes "Value")

abbrev pub ram_key_value_tags : List Struct → KeyValueTags
ram_key_value_tags = tags_of_structs (codes "Key") (codes "Value")

abbrev pub rds_tags : KeyValueTags → Argument
rds_tags = slice_tags (codes "Key") (codes "Value")

abbrev pub rds_key_value_tags : List Struct → KeyValueTags
rds_key_value_tags = tags_of_structs (codes "Key") (codes "Value")

abbrev pub redshift_tags : KeyValueTags → Argument
redshift_tags = slice_tags (codes "Key") (codes "Value")

abbrev pub redshift_key_value_tags : List Struct → KeyValueTags
redshift_key_value_tags = tags_of_structs (codes "Key") (codes "Value")

abbrev pub resourcegroupstaggingapi_tags : KeyValueTags → Argument
resourcegroupstaggingapi_tags = slice_tags (codes "Key") (codes "Value")

abbrev pub resourcegroupstaggingapi_key_value_tags : List Struct → KeyValueTags
resourcegroupstaggingapi_key_value_tags = tags_of_structs (codes "Key") (codes "Value")

abbrev pub route53_tags : KeyValueTags → Argument
route53_tags = slice_tags (codes "Key") (codes "Value")

abbrev pub route53_key_value_tags : List Struct → KeyValueTags
route53_key_value_tags = tags_of_structs (codes "Key") (codes "Value")

abbrev pub route53resolver_tags : KeyValueTags → Argument
route53resolver_tags = slice_tags (codes "Key") (codes "Value")

abbrev pub route53resolver_key_value_tags : List Struct → KeyValueTags
route53resolver_key_value_tags = tags_of_structs (codes "Key") (codes "Value")

abbrev pub s3_tags : KeyValueTags → Argument
s3_tags = slice_tags (codes "Key") (codes "Value")

abbrev pub s3_key_value_tags : List Struct → KeyValueTags
s3_key_value_tags = tags_of_structs (codes "Key") (codes "Value")

abbrev pub s3control_tags : KeyValueTags → Argument
s3control_tags = slice_tags (codes "Key") (codes "Value")

abbrev pub s3control_key_value_tags : List Struct → KeyValueTags
s3control_key_value_tags = tags_of_structs (codes "Key") (codes "Value")

abbrev pub sagemaker_tags : KeyValueTags → Argument
sagemaker_tags = slice_tags (codes "Key") (codes "Value")

abbrev pub sagemaker_key_value_tags : List Struct → KeyValueTags
sagemaker_key_value_tags = tags_of_structs (codes "Key") (codes "Value")

abbrev pub secretsmanager_tags : KeyValueTags → Argument
secretsmanager_tags = slice_tags (codes "Key") (codes "Value")

abbrev pub secretsmanager_key_value_tags : List Struct → KeyValueTags
secretsmanager_key_value_tags = tags_of_structs (codes "Key") (codes "Value")

abbrev pub serverlessapplicationrepository_tags : KeyValueTags → Argument
serverlessapplicationrepository_tags = slice_tags (codes "Key") (codes "Value")

abbrev pub serverlessapplicationrepository_key_value_tags : List Struct → KeyValueTags
serverlessapplicationrepository_key_value_tags = tags_of_structs (codes "Key") (codes "Value")

abbrev pub servicecatalog_tags : KeyValueTags → Argument
servicecatalog_tags = slice_tags (codes "Key") (codes "Value")

abbrev pub servicecatalog_key_value_tags : List Struct → KeyValueTags
servicecatalog_key_value_tags = tags_of_structs (codes "Key") (codes "Value")

abbrev pub servicediscovery_tags : KeyValueTags → Argument
servicediscovery_tags = slice_tags (codes "Key") (codes "Value")

abbrev pub servicediscovery_key_value_tags : List Struct → KeyValueTags
servicediscovery_key_value_tags = tags_of_structs (codes "Key") (codes "Value")

abbrev pub sfn_tags : KeyValueTags → Argument
sfn_tags = slice_tags (codes "Key") (codes "Value")

abbrev pub sfn_key_value_tags : List Struct → KeyValueTags
sfn_key_value_tags = tags_of_structs (codes "Key") (codes "Value")

abbrev pub shield_tags : KeyValueTags → Argument
shield_tags = slice_tags (codes "Key") (codes "Value")

abbrev pub shield_key_value_tags : List Struct → KeyValueTags
shield_key_value_tags = tags_of_structs (codes "Key") (codes "Value")

abbrev pub sns_tags : KeyValueTags → Argument
sns_tags = slice_tags (codes "Key") (codes "Value")

abbrev pub sns_key_value_tags : List Struct → KeyValueTags
sns_key_value_tags = tags_of_structs (codes "Key") (codes "Value")

abbrev pub ssm_tags : KeyValueTags → Argument
ssm_tags = slice_tags (codes "Key") (codes "Value")

abbrev pub ssm_key_value_tags : List Struct → KeyValueTags
ssm_key_value_tags = tags_of_structs (codes "Key") (codes "Value")

abbrev pub ssoadmin_tags : KeyValueTags → Argument
ssoadmin_tags = slice_tags (codes "Key") (codes "Value")

abbrev pub ssoadmin_key_value_tags : List Struct → KeyValueTags
ssoadmin_key_value_tags = tags_of_structs (codes "Key") (codes "Value")

abbrev pub storagegateway_tags : KeyValueTags → Argument
storagegateway_tags = slice_tags (codes "Key") (codes "Value")

abbrev pub storagegateway_key_value_tags : List Struct → KeyValueTags
storagegateway_key_value_tags = tags_of_structs (codes "Key") (codes "Value")

abbrev pub swf_tags : KeyValueTags → Argument
swf_tags = slice_tags (codes "Key") (codes "Value")

abbrev pub swf_key_value_tags : List Struct → KeyValueTags
swf_key_value_tags = tags_of_structs (codes "Key") (codes "Value")

abbrev pub timestreamwrite_tags : KeyValueTags → Argument
timestreamwrite_tags = slice_tags (codes "Key") (codes "Value")

abbrev pub timestreamwrite_key_value_tags : List Struct → KeyValueTags
timestreamwrite_key_value_tags = tags_of_structs (codes "Key") (codes "Value")

abbrev pub transfer_tags : KeyValueTags → Argument
transfer_tags = slice_tags (codes "Key") (codes "Value")

abbrev pub transfer_key_value_tags : List Struct → KeyValueTags
transfer_key_value_tags = tags_of_structs (codes "Key") (codes "Value")

abbrev pub waf_tags : KeyValueTags → Argument
waf_tags = slice_tags (codes "Key") (codes "Value")

abbrev pub waf_key_value_tags : List Struct → KeyValueTags
waf_key_value_tags = tags_of_structs (codes "Key") (codes "Value")

abbrev pub wafregional_tags : KeyValueTags → Argument
wafregional_tags = slice_tags (codes "Key") (codes "Value")

abbrev pub wafregional_key_value_tags : List Struct → KeyValueTags
wafregional_key_value_tags = tags_of_structs (codes "Key") (codes "Value")

abbrev pub wafv2_tags : KeyValueTags → Argument
wafv2_tags = slice_tags (codes "Key") (codes "Value")

abbrev pub wafv2_key_value_tags : List Struct → KeyValueTags
wafv2_key_value_tags = tags_of_structs (codes "Key") (codes "Value")

abbrev pub workspaces_tags : KeyValueTags → Argument
workspaces_tags = slice_tags (codes "Key") (codes "Value")

abbrev pub workspaces_key_value_tags : List Struct → KeyValueTags
workspaces_key_value_tags = tags_of_structs (codes "Key") (codes "Value")

abbrev pub xray_tags : KeyValueTags → Argument
xray_tags = slice_tags (codes "Key") (codes "Value")

abbrev pub xray_key_value_tags : List Struct → KeyValueTags
xray_key_value_tags = tags_of_structs (codes "Key") (codes "Value")
