-- ===== src/KeyValueTags/Generated/List/FromImagebuilder.antt =====
-- internal/keyvaluetags/list_tags_gen.go: ImagebuilderListTags to RdsListTags.
use terraform_provider_awsut.Prelude.{Option, List, [], ◌∷◌, Text, codes}
use terraform_provider_awsut.Prelude.Map.{GoMap}
use terraform_provider_awsut.KeyValueTags.Requests.{Struct, string}
use terraform_provider_awsut.KeyValueTags.Generated.Shapes.{ListFunction, list_tags}
use terraform_provider_awsut.KeyValueTags.Generated.MapTags.FromAccessanalyzer.{
  imagebuilder_key_value_tags, kafka_key_value_tags, kinesisvideo_key_value_tags,
  lambda_key_value_tags, mediaconnect_key_value_tags, mediaconvert_key_value_tags,
  medialive_key_value_tags, mediapackage_key_value_tags, mq_key_value_tags,
}
use terraform_provider_awsut.KeyValueTags.Generated.MapTags.FromMwaa.{
  opsworks_key_value_tags, pinpoint_key_value_tags, qldb_key_value_tags,
}
use terraform_provider_awsut.KeyValueTags.Generated.SliceTags.FromEcs.{
  inspector_key_value_tags, iot_key_value_tags, iotanalytics_key_value_tags,
  iotevents_key_value_tags, kinesis_key_value_tags, kinesisanalytics_key_value_tags,
  kinesisanalyticsv2_key_value_tags, kms_key_value_tags, licensemanager_key_value_tags,
  mediastore_key_value_tags, neptune_key_value_tags, networkfirewall_key_value_tags,
  networkmanager_key_value_tags,
}
use terraform_provider_awsut.KeyValueTags.Generated.SliceTags.FromOrganizations.{
  organizations_key_value_tags, quicksight_key_value_tags, rds_key_value_tags,
}

module _ {W : Type 0} where
  abbrev pub imagebuilder_list_tags : ListFunction W (GoMap (Option Text))
  imagebuilder_list_tags client identifier _ =
      list_tags client (codes "imagebuilder") (codes "ListTagsForResource")
        ((codes "ResourceArn", string identifier) ∷ []) imagebuilder_key_value_tags (codes "Tags")

  abbrev pub inspector_list_tags : ListFunction W (List Struct)
  inspector_list_tags client identifier _ =
      list_tags client (codes "inspector") (codes "ListTagsForResource")
        ((codes "ResourceArn", string identifier) ∷ []) inspector_key_value_tags (codes "Tags")

  abbrev pub iot_list_tags : ListFunction W (List Struct)
  iot_list_tags client identifier _ =
      list_tags client (codes "iot") (codes "ListTagsForResource")
        ((codes "ResourceArn", string identifier) ∷ []) iot_key_value_tags (codes "Tags")

  abbrev pub iotanalytics_list_tags : ListFunction W (List Struct)
  iotanalytics_list_tags client identifier _ =
      list_tags client (codes "iotanalytics") (codes "ListTagsForResource")
        ((codes "ResourceArn", string identifier) ∷ []) iotanalytics_key_value_tags (codes "Tags")

  abbrev pub iotevents_list_tags : ListFunction W (List Struct)
  iotevents_list_tags client identifier _ =
      list_tags client (codes "iotevents") (codes "ListTagsForResource")
        ((codes "ResourceArn", string identifier) ∷ []) iotevents_key_value_tags (codes "Tags")

  abbrev pub kafka_list_tags : ListFunction W (GoMap (Option Text))
  kafka_list_tags client identifier _ =
      list_tags client (codes "kafka") (codes "ListTagsForResource")
        ((codes "ResourceArn", string identifier) ∷ []) kafka_key_value_tags (codes "Tags")

  abbrev pub kinesis_list_tags : ListFunction W (List Struct)
  kinesis_list_tags client identifier _ =
      list_tags client (codes "kinesis") (codes "ListTagsForStream")
        ((codes "StreamName", string identifier) ∷ []) kinesis_key_value_tags (codes "Tags")

  abbrev pub kinesisanalytics_list_tags : ListFunction W (List Struct)
  kinesisanalytics_list_tags client identifier _ =
      list_tags client (codes "kinesisanalytics") (codes "ListTagsForResource")
        ((codes "ResourceARN", string identifier) ∷ []) kinesisanalytics_key_value_tags
        (codes "Tags")

  abbrev pub kinesisanalyticsv2_list_tags : ListFunction W (List Struct)
  kinesisanalyticsv2_list_tags client identifier _ =
      list_tags client (codes "kinesisanalyticsv2") (codes "ListTagsForResource")
        ((codes "ResourceARN", string identifier) ∷ []) kinesisanalyticsv2_key_value_tags
        (codes "Tags")

  abbrev pub kinesisvideo_list_tags : ListFunction W (GoMap (Option Text))
  kinesisvideo_list_tags client identifier _ =
      list_tags client (codes "kinesisvideo") (codes "ListTagsForStream")
        ((codes "StreamARN", string identifier) ∷ []) kinesisvideo_key_value_tags (codes "Tags")

  abbrev pub kms_list_tags : ListFunction W (List Struct)
  kms_list_tags client identifier _ =
      list_tags client (codes "kms") (codes "ListResourceTags")
        ((codes "KeyId", string identifier) ∷ []) kms_key_value_tags (codes "Tags")

  abbrev pub lambda_list_tags : ListFunction W (GoMap (Option Text))
  lambda_list_tags client identifier _ =
      list_tags client (codes "lambda") (codes "ListTags")
        ((codes "Resource", string identifier) ∷ []) lambda_key_value_tags (codes "Tags")

  abbrev pub licensemanager_list_tags : ListFunction W (List Struct)
  licensemanager_list_tags client identifier _ =
      list_tags client (codes "licensemanager") (codes "ListTagsForResource")
        ((codes "ResourceArn", string identifier) ∷ []) licensemanager_key_value_tags (codes "Tags")

  abbrev pub mediaconnect_list_tags : ListFunction W (GoMap (Option Text))
  mediaconnect_list_tags client identifier _ =
      list_tags client (codes "mediaconnect") (codes "ListTagsForResource")
        ((codes "ResourceArn", string identifier) ∷ []) mediaconnect_key_value_tags (codes "Tags")

  abbrev pub mediaconvert_list_tags : ListFunction W (GoMap (Option Text))
  mediaconvert_list_tags client identifier _ =
      list_tags client (codes "mediaconvert") (codes "ListTagsForResource")
        ((codes "Arn", string identifier) ∷ []) mediaconvert_key_value_tags
        (codes "ResourceTags.Tags")

  abbrev pub medialive_list_tags : ListFunction W (GoMap (Option Text))
  medialive_list_tags client identifier _ =
      list_tags client (codes "medialive") (codes "ListTagsForResource")
        ((codes "ResourceArn", string identifier) ∷ []) medialive_key_value_tags (codes "Tags")

  abbrev pub mediapackage_list_tags : ListFunction W (GoMap (Option Text))
  mediapackage_list_tags client identifier _ =
      list_tags client (codes "mediapackage") (codes "ListTagsForResource")
        ((codes "ResourceArn", string identifier) ∷ []) mediapackage_key_value_tags (codes "Tags")

  abbrev pub mediastore_list_tags : ListFunction W (List Struct)
  mediastore_list_tags client identifier _ =
      list_tags client (codes "mediastore") (codes "ListTagsForResource")
        ((codes "Resource", string identifier) ∷ []) mediastore_key_value_tags (codes "Tags")

  abbrev pub mq_list_tags : ListFunction W (GoMap (Option Text))
  mq_list_tags client identifier _ =
      list_tags client (codes "mq") (codes "ListTags")
        ((codes "ResourceArn", string identifier) ∷ []) mq_key_value_tags (codes "Tags")

  abbrev pub neptune_list_tags : ListFunction W (List Struct)
  neptune_list_tags client identifier _ =
      list_tags client (codes "neptune") (codes "ListTagsForResource")
        ((codes "ResourceName", string identifier) ∷ []) neptune_key_value_tags (codes "TagList")

  abbrev pub networkfirewall_list_tags : ListFunction W (List Struct)
  networkfirewall_list_tags client identifier _ =
      list_tags client (codes "networkfirewall") (codes "ListTagsForResource")
        ((codes "ResourceArn", string identifier) ∷ []) networkfirewall_key_value_tags
        (codes "Tags")

  abbrev pub networkmanager_list_tags : ListFunction W (List Struct)
  networkmanager_list_tags client identifier _ =
      list_tags client (codes "networkmanager") (codes "ListTagsForResource")
        ((codes "ResourceArn", string identifier) ∷ []) networkmanager_key_value_tags
        (codes "TagList")

  abbrev pub opsworks_list_tags : ListFunction W (GoMap (Option Text))
  opsworks_list_tags client identifier _ =
      list_tags client (codes "opsworks") (codes "ListTags")
        ((codes "ResourceArn", string identifier) ∷ []) opsworks_key_value_tags (codes "Tags")

  abbrev pub organizations_list_tags : ListFunction W (List Struct)
  organizations_list_tags client identifier _ =
      list_tags client (codes "organizations") (codes "ListTagsForResource")
        ((codes "ResourceId", string identifier) ∷ []) organizations_key_value_tags (codes "Tags")

  abbrev pub pinpoint_list_tags : ListFunction W (GoMap (Option Text))
  pinpoint_list_tags client identifier _ =
      list_tags client (codes "pinpoint") (codes "ListTagsForResource")
        ((codes "ResourceArn", string identifier) ∷ []) pinpoint_key_value_tags
        (codes "TagsModel.Tags")

  abbrev pub qldb_list_tags : ListFunction W (GoMap (Option Text))
  qldb_list_tags client identifier _ =
      list_tags client (codes "qldb") (codes "ListTagsForResource")
        ((codes "ResourceArn", string identifier) ∷ []) qldb_key_value_tags (codes "Tags")

  abbrev pub quicksight_list_tags : ListFunction W (List Struct)
  quicksight_list_tags client identifier _ =
      list_tags client (codes "quicksight") (codes "ListTagsForResource")
        ((codes "ResourceArn", string identifier) ∷ []) quicksight_key_value_tags (codes "Tags")

  abbrev pub rds_list_tags : ListFunction W (List Struct)
  rds_list_tags client identifier _ =
      list_tags client (codes "rds") (codes "ListTagsForResource")
        ((codes "ResourceName", string identifier) ∷ []) rds_key_value_tags (codes "TagList")
