-- ===== src/KeyValueTags/Generated/List/FromResourcegroups.antt =====
-- internal/keyvaluetags/list_tags_gen.go: ResourcegroupsListTags to XrayListTags.
use terraform_provider_awsut.Prelude.{Option, List, [], ◌∷◌, Text, codes}
use terraform_provider_awsut.Prelude.Map.{GoMap}
use terraform_provider_awsut.KeyValueTags.Requests.{Struct, string}
use terraform_provider_awsut.KeyValueTags.Generated.Shapes.{ListFunction, list_tags}
use terraform_provider_awsut.KeyValueTags.Generated.MapTags.FromMwaa.{
  resourcegroups_key_value_tags, schemas_key_value_tags, securityhub_key_value_tags,
  signer_key_value_tags, sqs_key_value_tags, worklink_key_value_tags,
}
use terraform_provider_awsut.KeyValueTags.Generated.SliceTags.FromOrganizations.{
  route53_key_value_tags, route53resolver_key_value_tags, sagemaker_key_value_tags,
  servicediscovery_key_value_tags, sfn_key_value_tags, shield_key_value_tags, sns_key_value_tags,
  ssm_key_value_tags, ssoadmin_key_value_tags, storagegateway_key_value_tags, swf_key_value_tags,
  timestreamwrite_key_value_tags, transfer_key_value_tags, waf_key_value_tags,
  wafregional_key_value_tags, wafv2_key_value_tags, workspaces_key_value_tags, xray_key_value_tags,
}

module _ {W : Type 0} where
  abbrev pub resourcegroups_list_tags : ListFunction W (GoMap (Option Text))
  resourcegroups_list_tags client identifier _ =
      list_tags client (codes "resourcegroups") (codes "GetTags")
        ((codes "Arn", string identifier) ∷ []) resourcegroups_key_value_tags (codes "Tags")

  abbrev pub route53_list_tags : ListFunction W (List Struct)
  route53_list_tags client identifier resource_type =
      list_tags client (codes "route53") (codes "ListTagsForResource")
        ((codes "ResourceId", string identifier)
          ∷ (codes "ResourceType", string resource_type)
          ∷ [])
        route53_key_value_tags (codes "ResourceTagSet.Tags")

  abbrev pub route53resolver_list_tags : ListFunction W (List Struct)
  route53resolver_list_tags client identifier _ =
      list_tags client (codes "route53resolver") (codes "ListTagsForResource")
        ((codes "ResourceArn", string identifier) ∷ []) route53resolver_key_value_tags
        (codes "Tags")

  abbrev pub sagemaker_list_tags : ListFunction W (List Struct)
  sagemaker_list_tags client identifier _ =
      list_tags client (codes "sagemaker") (codes "ListTags")
        ((codes "ResourceArn", string identifier) ∷ []) sagemaker_key_value_tags (codes "Tags")

  abbrev pub schemas_list_tags : ListFunction W (GoMap (Option Text))
  schemas_list_tags client identifier _ =
      list_tags client (codes "schemas") (codes "ListTagsForResource")
        ((codes "ResourceArn", string identifier) ∷ []) schemas_key_value_tags (codes "Tags")

  abbrev pub securityhub_list_tags : ListFunction W (GoMap (Option Text))
  securityhub_list_tags client identifier _ =
      list_tags client (codes "securityhub") (codes "ListTagsForResource")
        ((codes "ResourceArn", string identifier) ∷ []) securityhub_key_value_tags (codes "Tags")

  abbrev pub servicediscovery_list_tags : ListFunction W (List Struct)
  servicediscovery_list_tags client identifier _ =
      list_tags client (codes "servicediscovery") (codes "ListTagsForResource")
        ((codes "ResourceARN", string identifier) ∷ []) servicediscovery_key_value_tags
        (codes "Tags")

  abbrev pub sfn_list_tags : ListFunction W (List Struct)
  sfn_list_tags client identifier _ =
      list_tags client (codes "sfn") (codes "ListTagsForResource")
        ((codes "ResourceArn", string identifier) ∷ []) sfn_key_value_tags (codes "Tags")

  abbrev pub shield_list_tags : ListFunction W (List Struct)
  shield_list_tags client identifier _ =
      list_tags client (codes "shield") (codes "ListTagsForResource")
        ((codes "ResourceARN", string identifier) ∷ []) shield_key_value_tags (codes "Tags")

  abbrev pub signer_list_tags : ListFunction W (GoMap (Option Text))
  signer_list_tags client identifier _ =
      list_tags client (codes "signer") (codes "ListTagsForResource")
        ((codes "ResourceArn", string identifier) ∷ []) signer_key_value_tags (codes "Tags")

  abbrev pub sns_list_tags : ListFunction W (List Struct)
  sns_list_tags client identifier _ =
      list_tags client (codes "sns") (codes "ListTagsForResource")
        ((codes "ResourceArn", string identifier) ∷ []) sns_key_value_tags (codes "Tags")

  abbrev pub sqs_list_tags : ListFunction W (GoMap (Option Text))
  sqs_list_tags client identifier _ =
      list_tags client (codes "sqs") (codes "ListQueueTags")
        ((codes "QueueUrl", string identifier) ∷ []) sqs_key_value_tags (codes "Tags")

  abbrev pub ssm_list_tags : ListFunction W (List Struct)
  ssm_list_tags client identifier resource_type =
      list_tags client (codes "ssm") (codes "ListTagsForResource")
        ((codes "ResourceId", string identifier)
          ∷ (codes "ResourceType", string resource_type)
          ∷ [])
        ssm_key_value_tags (codes "TagList")

  abbrev pub ssoadmin_list_tags : ListFunction W (List Struct)
  ssoadmin_list_tags client identifier resource_type =
      list_tags client (codes "ssoadmin") (codes "ListTagsForResource")
        ((codes "ResourceArn", string identifier)
          ∷ (codes "InstanceArn", string resource_type)
          ∷ [])
        ssoadmin_key_value_tags (codes "Tags")

  abbrev pub storagegateway_list_tags : ListFunction W (List Struct)
  storagegateway_list_tags client identifier _ =
      list_tags client (codes "storagegateway") (codes "ListTagsForResource")
        ((codes "ResourceARN", string identifier) ∷ []) storagegateway_key_value_tags (codes "Tags")

  abbrev pub swf_list_tags : ListFunction W (List Struct)
  swf_list_tags client identifier _ =
      list_tags client (codes "swf") (codes "ListTagsForResource")
        ((codes "ResourceArn", string identifier) ∷ []) swf_key_value_tags (codes "Tags")

  abbrev pub timestreamwrite_list_tags : ListFunction W (List Struct)
  timestreamwrite_list_tags client identifier _ =
      list_tags client (codes "timestreamwrite") (codes "ListTagsForResource")
        ((codes "ResourceARN", string identifier) ∷ []) timestreamwrite_key_value_tags
        (codes "Tags")

  abbrev pub transfer_list_tags : ListFunction W (List Struct)
  transfer_list_tags client identifier _ =
      list_tags client (codes "transfer") (codes "ListTagsForResource")
        ((codes "Arn", string identifier) ∷ []) transfer_key_value_tags (codes "Tags")

  abbrev pub waf_list_tags : ListFunction W (List Struct)
  waf_list_tags client identifier _ =
      list_tags client (codes "waf") (codes "ListTagsForResource")
        ((codes "ResourceARN", string identifier) ∷ []) waf_key_value_tags
        (codes "TagInfoForResource.TagList")

  abbrev pub wafregional_list_tags : ListFunction W (List Struct)
  wafregional_list_tags client identifier _ =
      list_tags client (codes "waf") (codes "ListTagsForResource")
        ((codes "ResourceARN", string identifier) ∷ []) wafregional_key_value_tags
        (codes "TagInfoForResource.TagList")

  abbrev pub wafv2_list_tags : ListFunction W (List Struct)
  wafv2_list_tags client identifier _ =
      list_tags client (codes "wafv2") (codes "ListTagsForResource")
        ((codes "ResourceARN", string identifier) ∷ []) wafv2_key_value_tags
        (codes "TagInfoForResource.TagList")

  abbrev pub worklink_list_tags : ListFunction W (GoMap (Option Text))
  worklink_list_tags client identifier _ =
      list_tags client (codes "worklink") (codes "ListTagsForResource")
        ((codes "ResourceArn", string identifier) ∷ []) worklink_key_value_tags (codes "Tags")

  abbrev pub workspaces_list_tags : ListFunction W (List Struct)
  workspaces_list_tags client identifier _ =
      list_tags client (codes "workspaces") (codes "DescribeTags")
        ((codes "ResourceId", string identifier) ∷ []) workspaces_key_value_tags (codes "TagList")

  abbrev pub xray_list_tags : ListFunction W (List Struct)
  xray_list_tags client identifier _ =
      list_tags client (codes "xray") (codes "ListTagsForResource")
        ((codes "ResourceARN", string identifier) ∷ []) xray_key_value_tags (codes "Tags")
