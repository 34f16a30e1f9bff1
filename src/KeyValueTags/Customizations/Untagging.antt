-- ===== src/KeyValueTags/Customizations/Untagging.antt =====
-- internal/keyvaluetags/service_generation_customizations.go: the functions about untagging.
use terraform_provider_awsut.Prelude.{[], ◌∷◌, Text, codes}
use terraform_provider_awsut.KeyValueTags.Customizations.{switch}

unfoldable pub service_untag_function : Text → Text
service_untag_function service_name =
    switch service_name
      ((codes "acm", codes "RemoveTagsFromCertificate")
        ∷ (codes "acmpca", codes "UntagCertificateAuthority")
        ∷ (codes "autoscaling", codes "DeleteTags")
        ∷ (codes "cloudtrail", codes "RemoveTags")
        ∷ (codes "cloudwatchlogs", codes "UntagLogGroup")
        ∷ (codes "databasemigrationservice", codes "RemoveTagsFromResource")
        ∷ (codes "datapipeline", codes "RemoveTags")
        ∷ (codes "directoryservice", codes "RemoveTagsFromResource")
        ∷ (codes "docdb", codes "RemoveTagsFromResource")
        ∷ (codes "ec2", codes "DeleteTags")
        ∷ (codes "elasticache", codes "RemoveTagsFromResource")
        ∷ (codes "elasticbeanstalk", codes "UpdateTagsForResource")
        ∷ (codes "elasticsearchservice", codes "RemoveTags")
        ∷ (codes "elb", codes "RemoveTags")
        ∷ (codes "elbv2", codes "RemoveTags")
        ∷ (codes "emr", codes "RemoveTags")
        ∷ (codes "firehose", codes "UntagDeliveryStream")
        ∷ (codes "glacier", codes "RemoveTagsFromVault")
        ∷ (codes "kinesis", codes "RemoveTagsFromStream")
        ∷ (codes "kinesisvideo", codes "UntagStream")
        ∷ (codes "medialive", codes "DeleteTags")
        ∷ (codes "mq", codes "DeleteTags")
        ∷ (codes "neptune", codes "RemoveTagsFromResource")
        ∷ (codes "rds", codes "RemoveTagsFromResource")
        ∷ (codes "redshift", codes "DeleteTags")
        ∷ (codes "resourcegroups", codes "Untag")
        ∷ (codes "route53", codes "ChangeTagsForResource")
        ∷ (codes "sagemaker", codes "DeleteTags")
        ∷ (codes "sqs", codes "UntagQueue")
        ∷ (codes "ssm", codes "RemoveTagsFromResource")
        ∷ (codes "storagegateway", codes "RemoveTagsFromResource")
        ∷ (codes "workspaces", codes "DeleteTags")
        ∷ [])
      (codes "UntagResource")

unfoldable pub service_untag_input_requires_tag_type : Text → Text
service_untag_input_requires_tag_type service_name =
    switch service_name
      ((codes "acm", codes "yes")
        ∷ (codes "acmpca", codes "yes")
        ∷ (codes "autoscaling", codes "yes")
        ∷ (codes "cloudtrail", codes "yes")
        ∷ (codes "ec2", codes "yes")
        ∷ [])
      []

unfoldable pub service_untag_input_requires_tag_key_type : Text → Text
service_untag_input_requires_tag_key_type service_name =
    switch service_name ((codes "elb", codes "yes") ∷ []) []

unfoldable pub service_untag_input_tags_field : Text → Text
service_untag_input_tags_field service_name =
    switch service_name
      ((codes "acm", codes "Tags")
        ∷ (codes "acmpca", codes "Tags")
        ∷ (codes "autoscaling", codes "Tags")
        ∷ (codes "backup", codes "TagKeyList")
        ∷ (codes "cloudhsmv2", codes "TagKeyList")
        ∷ (codes "cloudtrail", codes "TagsList")
        ∷ (codes "cloudwatchlogs", codes "Tags")
        ∷ (codes "datasync", codes "Keys")
        ∷ (codes "ec2", codes "Tags")
        ∷ (codes "elasticbeanstalk", codes "TagsToRemove")
        ∷ (codes "elb", codes "Tags")
        ∷ (codes "glue", codes "TagsToRemove")
        ∷ (codes "kinesisvideo", codes "TagKeyList")
        ∷ (codes "resourcegroups", codes "Keys")
        ∷ (codes "route53", codes "RemoveTagKeys")
        ∷ [])
      (codes "TagKeys")

unfoldable pub service_untag_input_custom_value : Text → Text
service_untag_input_custom_value service_name =
    switch service_name
      ((
        codes "cloudfront",
        codes "&cloudfront.TagKeys{Items: aws.StringSlice(removedTags.IgnoreAws().Keys())}",
      )
        ∷ [])
      []
