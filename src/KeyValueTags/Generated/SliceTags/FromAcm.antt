-- ===== src/KeyValueTags/Generated/SliceTags/FromAcm.antt =====
-- internal/keyvaluetags/service_tags_gen.go, services whose tags are slices: AcmTags to EcrKeyValueTags.
use terraform_provider_awsut.Prelude.{List, codes}
use terraform_provider_awsut.KeyValueTags.Data.{KeyValueTags}
use terraform_provider_awsut.KeyValueTags.Requests.{Argument, Struct, slice_tags, tags_of_structs}

abbrev pub acm_tags : KeyValueTags → Argument
acm_tags = slice_tags (codes "Key") (codes "Value")

abbrev pub acm_key_value_tags : List Struct → KeyValueTags
acm_key_value_tags = tags_of_structs (codes "Key") (codes "Value")

abbrev pub acmpca_tags : KeyValueTags → Argument
acmpca_tags = slice_tags (codes "Key") (codes "Value")

abbrev pub acmpca_key_value_tags : List Struct → KeyValueTags
acmpca_key_value_tags = tags_of_structs (codes "Key") (codes "Value")

abbrev pub appmesh_tags : KeyValueTags → Argument
appmesh_tags = slice_tags (codes "Key") (codes "Value")

abbrev pub appmesh_key_value_tags : List Struct → KeyValueTags
appmesh_key_value_tags = tags_of_structs (codes "Key") (codes "Value")

abbrev pub apprunner_tags : KeyValueTags → Argument
apprunner_tags = slice_tags (codes "Key") (codes "Value")

abbrev pub apprunner_key_value_tags : List Struct → KeyValueTags
apprunner_key_value_tags = tags_of_structs (codes "Key") (codes "Value")

abbrev pub athena_tags : KeyValueTags → Argument
athena_tags = slice_tags (codes "Key") (codes "Value")

abbrev pub athena_key_value_tags : List Struct → KeyValueTags
athena_key_value_tags = tags_of_structs (codes "Key") (codes "Value")

abbrev pub cloud9_tags : KeyValueTags → Argument
cloud9_tags = slice_tags (codes "Key") (codes "Value")

abbrev pub cloud9_key_value_tags : List Struct → KeyValueTags
cloud9_key_value_tags = tags_of_structs (codes "Key") (codes "Value")

abbrev pub cloudformation_tags : KeyValueTags → Argument
cloudformation_tags = slice_tags (codes "Key") (codes "Value")

abbrev pub cloudformation_key_value_tags : List Struct → KeyValueTags
cloudformation_key_value_tags = tags_of_structs (codes "Key") (codes "Value")

abbrev pub cloudfront_tags : KeyValueTags → Argument
cloudfront_tags = slice_tags (codes "Key") (codes "Value")

abbrev pub cloudfront_key_value_tags : List Struct → KeyValueTags
cloudfront_key_value_tags = tags_of_structs (codes "Key") (codes "Value")

abbrev pub cloudhsmv2_tags : KeyValueTags → Argument
cloudhsmv2_tags = slice_tags (codes "Key") (codes "Value")

abbrev pub cloudhsmv2_key_value_tags : List Struct → KeyValueTags
cloudhsmv2_key_value_tags = tags_of_structs (codes "Key") (codes "Value")

abbrev pub cloudtrail_tags : KeyValueTags → Argument
cloudtrail_tags = slice_tags (codes "Key") (codes "Value")

abbrev pub cloudtrail_key_value_tags : List Struct → KeyValueTags
cloudtrail_key_value_tags = tags_of_structs (codes "Key") (codes "Value")

abbrev pub cloudwatch_tags : KeyValueTags → Argument
cloudwatch_tags = slice_tags (codes "Key") (codes "Value")

abbrev pub cloudwatch_key_value_tags : List Struct → KeyValueTags
cloudwatch_key_value_tags = tags_of_structs (codes "Key") (codes "Value")

abbrev pub cloudwatchevents_tags : KeyValueTags → Argument
cloudwatchevents_tags = slice_tags (codes "Key") (codes "Value")

abbrev pub cloudwatchevents_key_value_tags : List Struct → KeyValueTags
cloudwatchevents_key_value_tags = tags_of_structs (codes "Key") (codes "Value")

abbrev pub codeartifact_tags : KeyValueTags → Argument
codeartifact_tags = slice_tags (codes "Key") (codes "Value")

abbrev pub codeartifact_key_value_tags : List Struct → KeyValueTags
codeartifact_key_value_tags = tags_of_structs (codes "Key") (codes "Value")

abbrev pub codebuild_tags : KeyValueTags → Argument
codebuild_tags = slice_tags (codes "Key") (codes "Value")

abbrev pub codebuild_key_value_tags : List Struct → KeyValueTags
codebuild_key_value_tags = tags_of_structs (codes "Key") (codes "Value")

abbrev pub codedeploy_tags : KeyValueTags → Argument
codedeploy_tags = slice_tags (codes "Key") (codes "Value")

abbrev pub codedeploy_key_value_tags : List Struct → KeyValueTags
codedeploy_key_value_tags = tags_of_structs (codes "Key") (codes "Value")

abbrev pub codepipeline_tags : KeyValueTags → Argument
codepipeline_tags = slice_tags (codes "Key") (codes "Value")

abbrev pub codepipeline_key_value_tags : List Struct → KeyValueTags
codepipeline_key_value_tags = tags_of_structs (codes "Key") (codes "Value")

abbrev pub codestarconnections_tags : KeyValueTags → Argument
codestarconnections_tags = slice_tags (codes "Key") (codes "Value")

abbrev pub codestarconnections_key_value_tags : List Struct → KeyValueTags
codestarconnections_key_value_tags = tags_of_structs (codes "Key") (codes "Value")

abbrev pub configservice_tags : KeyValueTags → Argument
configservice_tags = slice_tags (codes "Key") (codes "Value")

abbrev pub configservice_key_value_tags : List Struct → KeyValueTags
configservice_key_value_tags = tags_of_structs (codes "Key") (codes "Value")

abbrev pub databasemigrationservice_tags : KeyValueTags → Argument
databasemigrationservice_tags = slice_tags (codes "Key") (codes "Value")

abbrev pub databasemigrationservice_key_value_tags : List Struct → KeyValueTags
databasemigrationservice_key_value_tags = tags_of_structs (codes "Key") (codes "Value")

abbrev pub datapipeline_tags : KeyValueTags → Argument
datapipeline_tags = slice_tags (codes "Key") (codes "Value")

abbrev pub datapipeline_key_value_tags : List Struct → KeyValueTags
datapipeline_key_value_tags = tags_of_structs (codes "Key") (codes "Value")

abbrev pub datasync_tags : KeyValueTags → Argument
datasync_tags = slice_tags (codes "Key") (codes "Value")

abbrev pub datasync_key_value_tags : List Struct → KeyValueTags
datasync_key_value_tags = tags_of_structs (codes "Key") (codes "Value")

abbrev pub dax_tags : KeyValueTags → Argument
dax_tags = slice_tags (codes "Key") (codes "Value")

abbrev pub dax_key_value_tags : List Struct → KeyValueTags
dax_key_value_tags = tags_of_structs (codes "Key") (codes "Value")

abbrev pub devicefarm_tags : KeyValueTags → Argument
devicefarm_tags = slice_tags (codes "Key") (codes "Value")

abbrev pub devicefarm_key_value_tags : List Struct → KeyValueTags
devicefarm_key_value_tags = tags_of_structs (codes "Key") (codes "Value")

abbrev pub directconnect_tags : KeyValueTags → Argument
directconnect_tags = slice_tags (codes "Key") (codes "Value")

abbrev pub directconnect_key_value_tags : List Struct → KeyValueTags
directconnect_key_value_tags = tags_of_structs (codes "Key") (codes "Value")

abbrev pub directoryservice_tags : KeyValueTags → Argument
directoryservice_tags = slice_tags (codes "Key") (codes "Value")

abbrev pub directoryservice_key_value_tags : List Struct → KeyValueTags
directoryservice_key_value_tags = tags_of_structs (codes "Key") (codes "Value")

abbrev pub docdb_tags : KeyValueTags → Argument
docdb_tags = slice_tags (codes "Key") (codes "Value")

abbrev pub docdb_key_value_tags : List Struct → KeyValueTags
docdb_key_value_tags = tags_of_structs (codes "Key") (codes "Value")

abbrev pub dynamodb_tags : KeyValueTags → Argument
dynamodb_tags = slice_tags (codes "Key") (codes "Value")

abbrev pub dynamodb_key_value_tags : List Struct → KeyValueTags
dynamodb_key_value_tags = tags_of_structs (codes "Key") (codes "Value")

abbrev pub ec2_tags : KeyValueTags → Argument
ec2_tags = slice_tags (codes "Key") (codes "Value")

abbrev pub ec2_key_value_tags : List Struct → KeyValueTags
ec2_key_value_tags = tags_of_structs (codes "Key") (codes "Value")

abbrev pub ecr_tags : KeyValueTags → Argument
ecr_tags = slice_tags (codes "Key") (codes "Value")

abbrev pub ecr_key_value_tags : List Struct → KeyValueTags
ecr_key_value_tags = tags_of_structs (codes "Key") (codes "Value")
