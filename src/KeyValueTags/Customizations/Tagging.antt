-- ===== src/KeyValueTags/Customizations/Tagging.antt =====
-- internal/keyvaluetags/service_generation_customizations.go: the functions about tagging.
use terraform_provider_awsut.Prelude.{[], ◌∷◌, Text, codes}
use terraform_provider_awsut.KeyValueTags.Customizations.{switch}

unfoldable pub service_tag_function : Text → Text
service_tag_function service_name =
    switch service_name
      ((codes "acm", codes "AddTagsToCertificate")
        ∷ (codes "acmpca", codes "TagCertificateAuthority")
        ∷ (codes "autoscaling", codes "CreateOrUpdateTags")
        ∷ (codes "cloudtrail", codes "AddTags")
        ∷ (codes "cloudwatchlogs", codes "TagLogGroup")
        ∷ (codes "databasemigrationservice", codes "AddTagsToResource")
        ∷ (codes "datapipeline", codes "AddTags")
        ∷ (codes "directoryservice", codes "AddTagsToResource")
        ∷ (codes "docdb", codes "AddTagsToResource")
        ∷ (codes "ec2", codes "CreateTags")
        ∷ (codes "elasticache", codes "AddTagsToResource")
        ∷ (codes "elasticbeanstalk", codes "UpdateTagsForResource")
        ∷ (codes "elasticsearchservice", codes "AddTags")
        ∷ (codes "elb", codes "AddTags")
        ∷ (codes "elbv2", codes "AddTags")
        ∷ (codes "emr", codes "AddTags")
        ∷ (codes "firehose", codes "TagDeliveryStream")
        ∷ (codes "glacier", codes "AddTagsToVault")
        ∷ (codes "kinesis", codes "AddTagsToStream")
        ∷ (codes "kinesisvideo", codes "TagStream")
        ∷ (codes "medialive", codes "CreateTags")
        ∷ (codes "mq", codes "CreateTags")
        ∷ (codes "neptune", codes "AddTagsToResource")
        ∷ (codes "rds", codes "AddTagsToResource")
        ∷ (codes "redshift", codes "CreateTags")
        ∷ (codes "resourcegroups", codes "Tag")
        ∷ (codes "route53", codes "ChangeTagsForResource")
        ∷ (codes "sagemaker", codes "AddTags")
        ∷ (codes "shield", codes "TagResource")
        ∷ (codes "sqs", codes "TagQueue")
        ∷ (codes "ssm", codes "AddTagsToResource")
        ∷ (codes "storagegateway", codes "AddTagsToResource")
        ∷ (codes "workspaces", codes "CreateTags")
        ∷ [])
      (codes "TagResource")

unfoldable pub service_tag_function_batch_size : Text → Text
service_tag_function_batch_size service_name =
    switch service_name ((codes "kinesis", codes "10") ∷ []) []

unfoldable pub service_tag_input_identifier_field : Text → Text
service_tag_input_identifier_field service_name =
    switch service_name
      ((codes "acm", codes "CertificateArn")
        ∷ (codes "acmpca", codes "CertificateAuthorityArn")
        ∷ (codes "athena", codes "ResourceARN")
        ∷ (codes "cloud9", codes "ResourceARN")
        ∷ (codes "cloudfront", codes "Resource")
        ∷ (codes "cloudhsmv2", codes "ResourceId")
        ∷ (codes "cloudtrail", codes "ResourceId")
        ∷ (codes "cloudwatch", codes "ResourceARN")
        ∷ (codes "cloudwatchevents", codes "ResourceARN")
        ∷ (codes "cloudwatchlogs", codes "LogGroupName")
        ∷ (codes "codestarnotifications", codes "Arn")
        ∷ (codes "datapipeline", codes "PipelineId")
        ∷ (codes "dax", codes "ResourceName")
        ∷ (codes "devicefarm", codes "ResourceARN")
        ∷ (codes "directoryservice", codes "ResourceId")
        ∷ (codes "docdb", codes "ResourceName")
        ∷ (codes "ec2", codes "Resources")
        ∷ (codes "efs", codes "ResourceId")
        ∷ (codes "elasticache", codes "ResourceName")
        ∷ (codes "elasticsearchservice", codes "ARN")
        ∷ (codes "elb", codes "LoadBalancerNames")
        ∷ (codes "elbv2", codes "ResourceArns")
        ∷ (codes "emr", codes "ResourceId")
        ∷ (codes "firehose", codes "DeliveryStreamName")
        ∷ (codes "fsx", codes "ResourceARN")
        ∷ (codes "gamelift", codes "ResourceARN")
        ∷ (codes "glacier", codes "VaultName")
        ∷ (codes "kinesis", codes "StreamName")
        ∷ (codes "kinesisanalytics", codes "ResourceARN")
        ∷ (codes "kinesisanalyticsv2", codes "ResourceARN")
        ∷ (codes "kinesisvideo", codes "StreamARN")
        ∷ (codes "kms", codes "KeyId")
        ∷ (codes "lambda", codes "Resource")
        ∷ (codes "lightsail", codes "ResourceName")
        ∷ (codes "mediaconvert", codes "Arn")
        ∷ (codes "mediastore", codes "Resource")
        ∷ (codes "neptune", codes "ResourceName")
        ∷ (codes "organizations", codes "ResourceId")
        ∷ (codes "ram", codes "ResourceShareArn")
        ∷ (codes "rds", codes "ResourceName")
        ∷ (codes "redshift", codes "ResourceName")
        ∷ (codes "resourcegroups", codes "Arn")
        ∷ (codes "route53", codes "ResourceId")
        ∷ (codes "secretsmanager", codes "SecretId")
        ∷ (codes "servicediscovery", codes "ResourceARN")
        ∷ (codes "shield", codes "ResourceARN")
        ∷ (codes "sqs", codes "QueueUrl")
        ∷ (codes "ssm", codes "ResourceId")
        ∷ (codes "storagegateway", codes "ResourceARN")
        ∷ (codes "timestreamwrite", codes "ResourceARN")
        ∷ (codes "transfer", codes "Arn")
        ∷ (codes "waf", codes "ResourceARN")
        ∷ (codes "wafregional", codes "ResourceARN")
        ∷ (codes "wafv2", codes "ResourceARN")
        ∷ (codes "workspaces", codes "ResourceId")
        ∷ (codes "xray", codes "ResourceARN")
        ∷ [])
      (codes "ResourceArn")

unfoldable pub service_tag_input_identifier_requires_slice : Text → Text
service_tag_input_identifier_requires_slice service_name =
    switch service_name
      ((codes "ec2", codes "yes") ∷ (codes "elb", codes "yes") ∷ (codes "elbv2", codes "yes") ∷ [])
      []

unfoldable pub service_tag_input_tags_field : Text → Text
service_tag_input_tags_field service_name =
    switch service_name
      ((codes "cloudhsmv2", codes "TagList")
        ∷ (codes "cloudtrail", codes "TagsList")
        ∷ (codes "elasticbeanstalk", codes "TagsToAdd")
        ∷ (codes "elasticsearchservice", codes "TagList")
        ∷ (codes "glue", codes "TagsToAdd")
        ∷ (codes "pinpoint", codes "TagsModel")
        ∷ (codes "route53", codes "AddTags")
        ∷ [])
      (codes "Tags")

unfoldable pub service_tag_input_custom_value : Text → Text
service_tag_input_custom_value service_name =
    switch service_name
      ((
        codes "cloudfront",
        codes "&cloudfront.Tags{Items: updatedTags.IgnoreAws().CloudfrontTags()}",
      )
        ∷ (codes "kinesis", codes "aws.StringMap(updatedTags.IgnoreAws().Map())")
        ∷ (
          codes "pinpoint",
          codes "&pinpoint.TagsModel{Tags: updatedTags.IgnoreAws().PinpointTags()}",
        )
        ∷ [])
      []
