-- ===== src/KeyValueTags/Customizations/Listing.antt =====
-- internal/keyvaluetags/service_generation_customizations.go: the functions about listing tags, and about resources that are not found.
use terraform_provider_awsut.Prelude.{[], ◌∷◌, Text, codes}
use terraform_provider_awsut.KeyValueTags.Customizations.{switch}
use terraform_provider_awsut.KeyValueTags.Customizations.Tagging.{
  service_tag_input_identifier_field,
}

unfoldable pub service_list_tags_function : Text → Text
service_list_tags_function service_name =
    switch service_name
      ((codes "acm", codes "ListTagsForCertificate")
        ∷ (codes "acmpca", codes "ListTags")
        ∷ (codes "apigatewayv2", codes "GetTags")
        ∷ (codes "autoscaling", codes "DescribeTags")
        ∷ (codes "backup", codes "ListTags")
        ∷ (codes "cloudhsmv2", codes "ListTags")
        ∷ (codes "cloudtrail", codes "ListTags")
        ∷ (codes "cloudwatchlogs", codes "ListTagsLogGroup")
        ∷ (codes "dax", codes "ListTags")
        ∷ (codes "directconnect", codes "DescribeTags")
        ∷ (codes "dynamodb", codes "ListTagsOfResource")
        ∷ (codes "ec2", codes "DescribeTags")
        ∷ (codes "efs", codes "DescribeTags")
        ∷ (codes "elasticsearchservice", codes "ListTags")
        ∷ (codes "elb", codes "DescribeTags")
        ∷ (codes "elbv2", codes "DescribeTags")
        ∷ (codes "firehose", codes "ListTagsForDeliveryStream")
        ∷ (codes "glacier", codes "ListTagsForVault")
        ∷ (codes "glue", codes "GetTags")
        ∷ (codes "kinesis", codes "ListTagsForStream")
        ∷ (codes "kinesisvideo", codes "ListTagsForStream")
        ∷ (codes "kms", codes "ListResourceTags")
        ∷ (codes "lambda", codes "ListTags")
        ∷ (codes "mq", codes "ListTags")
        ∷ (codes "mwaa", codes "ListTags")
        ∷ (codes "opsworks", codes "ListTags")
        ∷ (codes "redshift", codes "DescribeTags")
        ∷ (codes "resourcegroups", codes "GetTags")
        ∷ (codes "sagemaker", codes "ListTags")
        ∷ (codes "sqs", codes "ListQueueTags")
        ∷ (codes "workspaces", codes "DescribeTags")
        ∷ [])
      (codes "ListTagsForResource")

unfoldable pub service_list_tags_input_filter_identifier_name : Text → Text
service_list_tags_input_filter_identifier_name service_name =
    switch service_name
      ((codes "autoscaling", codes "auto-scaling-group") ∷ (codes "ec2", codes "resource-id") ∷ [])
      []

unfoldable pub service_list_tags_input_identifier_field : Text → Text
service_list_tags_input_identifier_field service_name =
    switch service_name
      ((codes "cloudtrail", codes "ResourceIdList")
        ∷ (codes "directconnect", codes "ResourceArns")
        ∷ (codes "efs", codes "FileSystemId")
        ∷ (codes "workspaces", codes "ResourceId")
        ∷ [])
      (service_tag_input_identifier_field service_name)

unfoldable pub service_list_tags_input_identifier_requires_slice : Text → Text
service_list_tags_input_identifier_requires_slice service_name =
    switch service_name
      ((codes "cloudtrail", codes "yes")
        ∷ (codes "directconnect", codes "yes")
        ∷ (codes "elb", codes "yes")
        ∷ (codes "elbv2", codes "yes")
        ∷ [])
      []

unfoldable pub service_list_tags_output_tags_field : Text → Text
service_list_tags_output_tags_field service_name =
    switch service_name
      ((codes "cloudfront", codes "Tags.Items")
        ∷ (codes "cloudhsmv2", codes "TagList")
        ∷ (codes "cloudtrail", codes "ResourceTagList[0].TagsList")
        ∷ (codes "databasemigrationservice", codes "TagList")
        ∷ (codes "directconnect", codes "ResourceTags[0].Tags")
        ∷ (codes "docdb", codes "TagList")
        ∷ (codes "elasticache", codes "TagList")
        ∷ (codes "elasticbeanstalk", codes "ResourceTags")
        ∷ (codes "elasticsearchservice", codes "TagList")
        ∷ (codes "elb", codes "TagDescriptions[0].Tags")
        ∷ (codes "elbv2", codes "TagDescriptions[0].Tags")
        ∷ (codes "mediaconvert", codes "ResourceTags.Tags")
        ∷ (codes "neptune", codes "TagList")
        ∷ (codes "networkmanager", codes "TagList")
        ∷ (codes "pinpoint", codes "TagsModel.Tags")
        ∷ (codes "rds", codes "TagList")
        ∷ (codes "route53", codes "ResourceTagSet.Tags")
        ∷ (codes "ssm", codes "TagList")
        ∷ (codes "waf", codes "TagInfoForResource.TagList")
        ∷ (codes "wafregional", codes "TagInfoForResource.TagList")
        ∷ (codes "wafv2", codes "TagInfoForResource.TagList")
        ∷ (codes "workspaces", codes "TagList")
        ∷ [])
      (codes "Tags")

unfoldable pub service_resource_not_found_error_code : Text → Text
service_resource_not_found_error_code service_name =
    switch service_name [] (codes "ResourceNotFoundException")

unfoldable pub service_resource_not_found_error_code_contains : Text → Text
service_resource_not_found_error_code_contains service_name =
    switch service_name ((codes "ec2", codes ".NotFound") ∷ []) []

unfoldable pub service_retry_creation_on_resource_not_found : Text → Text
service_retry_creation_on_resource_not_found service_name =
    switch service_name ((codes "ec2", codes "yes") ∷ []) []
