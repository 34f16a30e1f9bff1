-- ===== src/KeyValueTags/Generated/List/FromDatabasemigrationservice.antt =====
-- internal/keyvaluetags/list_tags_gen.go: DatabasemigrationserviceListTags to GuarddutyListTags.
use terraform_provider_awsut.Prelude.{Option, List, [], ◌∷◌, Text, codes}
use terraform_provider_awsut.Prelude.Map.{GoMap}
use terraform_provider_awsut.KeyValueTags.Requests.{Struct, string, string_slice}
use terraform_provider_awsut.KeyValueTags.Generated.Shapes.{ListFunction, filter, list_tags}
use terraform_provider_awsut.KeyValueTags.Generated.MapTags.FromAccessanalyzer.{
  dataexchange_key_value_tags, dlm_key_value_tags, eks_key_value_tags, glacier_key_value_tags,
  glue_key_value_tags, greengrass_key_value_tags, guardduty_key_value_tags,
}
use terraform_provider_awsut.KeyValueTags.Generated.SliceTags.FromAcm.{
  databasemigrationservice_key_value_tags, datasync_key_value_tags, dax_key_value_tags,
  devicefarm_key_value_tags, directconnect_key_value_tags, directoryservice_key_value_tags,
  docdb_key_value_tags, dynamodb_key_value_tags, ec2_key_value_tags, ecr_key_value_tags,
}
use terraform_provider_awsut.KeyValueTags.Generated.SliceTags.FromEcs.{
  ecs_key_value_tags, efs_key_value_tags, elasticache_key_value_tags,
  elasticbeanstalk_key_value_tags, elasticsearchservice_key_value_tags, elb_key_value_tags,
  elbv2_key_value_tags, firehose_key_value_tags, fsx_key_value_tags, gamelift_key_value_tags,
  globalaccelerator_key_value_tags,
}

module _ {W : Type 0} where
  abbrev pub databasemigrationservice_list_tags : ListFunction W (List Struct)
  databasemigrationservice_list_tags client identifier _ =
      list_tags client (codes "databasemigrationservice") (codes "ListTagsForResource")
        ((codes "ResourceArn", string identifier) ∷ []) databasemigrationservice_key_value_tags
        (codes "TagList")

  abbrev pub dataexchange_list_tags : ListFunction W (GoMap (Option Text))
  dataexchange_list_tags client identifier _ =
      list_tags client (codes "dataexchange") (codes "ListTagsForResource")
        ((codes "ResourceArn", string identifier) ∷ []) dataexchange_key_value_tags (codes "Tags")

  abbrev pub datasync_list_tags : ListFunction W (List Struct)
  datasync_list_tags client identifier _ =
      list_tags client (codes "datasync") (codes "ListTagsForResource")
        ((codes "ResourceArn", string identifier) ∷ []) datasync_key_value_tags (codes "Tags")

  abbrev pub dax_list_tags : ListFunction W (List Struct)
  dax_list_tags client identifier _ =
      list_tags client (codes "dax") (codes "ListTags")
        ((codes "ResourceName", string identifier) ∷ []) dax_key_value_tags (codes "Tags")

  abbrev pub devicefarm_list_tags : ListFunction W (List Struct)
  devicefarm_list_tags client identifier _ =
      list_tags client (codes "devicefarm") (codes "ListTagsForResource")
        ((codes "ResourceARN", string identifier) ∷ []) devicefarm_key_value_tags (codes "Tags")

  abbrev pub directconnect_list_tags : ListFunction W (List Struct)
  directconnect_list_tags client identifier _ =
      list_tags client (codes "directconnect") (codes "DescribeTags")
        ((codes "ResourceArns", string_slice (identifier ∷ [])) ∷ []) directconnect_key_value_tags
        (codes "ResourceTags[0].Tags")

  abbrev pub directoryservice_list_tags : ListFunction W (List Struct)
  directoryservice_list_tags client identifier _ =
      list_tags client (codes "directoryservice") (codes "ListTagsForResource")
        ((codes "ResourceId", string identifier) ∷ []) directoryservice_key_value_tags
        (codes "Tags")

  abbrev pub dlm_list_tags : ListFunction W (GoMap (Option Text))
  dlm_list_tags client identifier _ =
      list_tags client (codes "dlm") (codes "ListTagsForResource")
        ((codes "ResourceArn", string identifier) ∷ []) dlm_key_value_tags (codes "Tags")

  abbrev pub docdb_list_tags : ListFunction W (List Struct)
  docdb_list_tags client identifier _ =
      list_tags client (codes "docdb") (codes "ListTagsForResource")
        ((codes "ResourceName", string identifier) ∷ []) docdb_key_value_tags (codes "TagList")

  abbrev pub dynamodb_list_tags : ListFunction W (List Struct)
  dynamodb_list_tags client identifier _ =
      list_tags client (codes "dynamodb") (codes "ListTagsOfResource")
        ((codes "ResourceArn", string identifier) ∷ []) dynamodb_key_value_tags (codes "Tags")

  abbrev pub ec2_list_tags : ListFunction W (List Struct)
  ec2_list_tags client identifier _ =
      list_tags client (codes "ec2") (codes "DescribeTags")
        ((codes "Filters", filter (codes "resource-id") identifier) ∷ []) ec2_key_value_tags
        (codes "Tags")

  abbrev pub ecr_list_tags : ListFunction W (List Struct)
  ecr_list_tags client identifier _ =
      list_tags client (codes "ecr") (codes "ListTagsForResource")
        ((codes "ResourceArn", string identifier) ∷ []) ecr_key_value_tags (codes "Tags")

  abbrev pub ecs_list_tags : ListFunction W (List Struct)
  ecs_list_tags client identifier _ =
      list_tags client (codes "ecs") (codes "ListTagsForResource")
        ((codes "ResourceArn", string identifier) ∷ []) ecs_key_value_tags (codes "Tags")

  abbrev pub efs_list_tags : ListFunction W (List Struct)
  efs_list_tags client identifier _ =
      list_tags client (codes "efs") (codes "DescribeTags")
        ((codes "FileSystemId", string identifier) ∷ []) efs_key_value_tags (codes "Tags")

  abbrev pub eks_list_tags : ListFunction W (GoMap (Option Text))
  eks_list_tags client identifier _ =
      list_tags client (codes "eks") (codes "ListTagsForResource")
        ((codes "ResourceArn", string identifier) ∷ []) eks_key_value_tags (codes "Tags")

  abbrev pub elasticache_list_tags : ListFunction W (List Struct)
  elasticache_list_tags client identifier _ =
      list_tags client (codes "elasticache") (codes "ListTagsForResource")
        ((codes "ResourceName", string identifier) ∷ []) elasticache_key_value_tags
        (codes "TagList")

  abbrev pub elasticbeanstalk_list_tags : ListFunction W (List Struct)
  elasticbeanstalk_list_tags client identifier _ =
      list_tags client (codes "elasticbeanstalk") (codes "ListTagsForResource")
        ((codes "ResourceArn", string identifier) ∷ []) elasticbeanstalk_key_value_tags
        (codes "ResourceTags")

  abbrev pub elasticsearchservice_list_tags : ListFunction W (List Struct)
  elasticsearchservice_list_tags client identifier _ =
      list_tags client (codes "elasticsearchservice") (codes "ListTags")
        ((codes "ARN", string identifier) ∷ []) elasticsearchservice_key_value_tags
        (codes "TagList")

  abbrev pub elb_list_tags : ListFunction W (List Struct)
  elb_list_tags client identifier _ =
      list_tags client (codes "elb") (codes "DescribeTags")
        ((codes "LoadBalancerNames", string_slice (identifier ∷ [])) ∷ []) elb_key_value_tags
        (codes "TagDescriptions[0].Tags")

  abbrev pub elbv2_list_tags : ListFunction W (List Struct)
  elbv2_list_tags client identifier _ =
      list_tags client (codes "elbv2") (codes "DescribeTags")
        ((codes "ResourceArns", string_slice (identifier ∷ [])) ∷ []) elbv2_key_value_tags
        (codes "TagDescriptions[0].Tags")

  abbrev pub firehose_list_tags : ListFunction W (List Struct)
  firehose_list_tags client identifier _ =
      list_tags client (codes "firehose") (codes "ListTagsForDeliveryStream")
        ((codes "DeliveryStreamName", string identifier) ∷ []) firehose_key_value_tags
        (codes "Tags")

  abbrev pub fsx_list_tags : ListFunction W (List Struct)
  fsx_list_tags client identifier _ =
      list_tags client (codes "fsx") (codes "ListTagsForResource")
        ((codes "ResourceARN", string identifier) ∷ []) fsx_key_value_tags (codes "Tags")

  abbrev pub gamelift_list_tags : ListFunction W (List Struct)
  gamelift_list_tags client identifier _ =
      list_tags client (codes "gamelift") (codes "ListTagsForResource")
        ((codes "ResourceARN", string identifier) ∷ []) gamelift_key_value_tags (codes "Tags")

  abbrev pub glacier_list_tags : ListFunction W (GoMap (Option Text))
  glacier_list_tags client identifier _ =
      list_tags client (codes "glacier") (codes "ListTagsForVault")
        ((codes "VaultName", string identifier) ∷ []) glacier_key_value_tags (codes "Tags")

  abbrev pub globalaccelerator_list_tags : ListFunction W (List Struct)
  globalaccelerator_list_tags client identifier _ =
      list_tags client (codes "globalaccelerator") (codes "ListTagsForResource")
        ((codes "ResourceArn", string identifier) ∷ []) globalaccelerator_key_value_tags
        (codes "Tags")

  abbrev pub glue_list_tags : ListFunction W (GoMap (Option Text))
  glue_list_tags client identifier _ =
      list_tags client (codes "glue") (codes "GetTags")
        ((codes "ResourceArn", string identifier) ∷ []) glue_key_value_tags (codes "Tags")

  abbrev pub greengrass_list_tags : ListFunction W (GoMap (Option Text))
  greengrass_list_tags client identifier _ =
      list_tags client (codes "greengrass") (codes "ListTagsForResource")
        ((codes "ResourceArn", string identifier) ∷ []) greengrass_key_value_tags (codes "Tags")

  abbrev pub guardduty_list_tags : ListFunction W (GoMap (Option Text))
  guardduty_list_tags client identifier _ =
      list_tags client (codes "guardduty") (codes "ListTagsForResource")
        ((codes "ResourceArn", string identifier) ∷ []) guardduty_key_value_tags (codes "Tags")
