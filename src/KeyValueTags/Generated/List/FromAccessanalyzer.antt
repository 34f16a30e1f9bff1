-- ===== src/KeyValueTags/Generated/List/FromAccessanalyzer.antt =====
-- internal/keyvaluetags/list_tags_gen.go: AccessanalyzerListTags to ConfigserviceListTags.
use terraform_provider_awsut.Prelude.{Option, List, [], ◌∷◌, Text, codes}
use terraform_provider_awsut.Prelude.Map.{GoMap}
use terraform_provider_awsut.KeyValueTags.Requests.{Struct, string, string_slice}
use terraform_provider_awsut.KeyValueTags.Generated.Shapes.{ListFunction, list_tags}
use terraform_provider_awsut.KeyValueTags.Generated.MapTags.FromAccessanalyzer.{
  accessanalyzer_key_value_tags, amplify_key_value_tags, apigatewayv2_key_value_tags,
  appstream_key_value_tags, appsync_key_value_tags, backup_key_value_tags, batch_key_value_tags,
  cloudwatchlogs_key_value_tags, codecommit_key_value_tags, codestarnotifications_key_value_tags,
  cognitoidentity_key_value_tags, cognitoidentityprovider_key_value_tags,
}
use terraform_provider_awsut.KeyValueTags.Generated.SliceTags.FromAcm.{
  acm_key_value_tags, acmpca_key_value_tags, appmesh_key_value_tags, apprunner_key_value_tags,
  athena_key_value_tags, cloud9_key_value_tags, cloudfront_key_value_tags,
  cloudhsmv2_key_value_tags, cloudtrail_key_value_tags, cloudwatch_key_value_tags,
  cloudwatchevents_key_value_tags, codeartifact_key_value_tags, codedeploy_key_value_tags,
  codepipeline_key_value_tags, codestarconnections_key_value_tags, configservice_key_value_tags,
}

module _ {W : Type 0} where
  abbrev pub accessanalyzer_list_tags : ListFunction W (GoMap (Option Text))
  accessanalyzer_list_tags client identifier _ =
      list_tags client (codes "accessanalyzer") (codes "ListTagsForResource")
        ((codes "ResourceArn", string identifier) ∷ []) accessanalyzer_key_value_tags (codes "Tags")

  abbrev pub acm_list_tags : ListFunction W (List Struct)
  acm_list_tags client identifier _ =
      list_tags client (codes "acm") (codes "ListTagsForCertificate")
        ((codes "CertificateArn", string identifier) ∷ []) acm_key_value_tags (codes "Tags")

  abbrev pub acmpca_list_tags : ListFunction W (List Struct)
  acmpca_list_tags client identifier _ =
      list_tags client (codes "acmpca") (codes "ListTags")
        ((codes "CertificateAuthorityArn", string identifier) ∷ []) acmpca_key_value_tags
        (codes "Tags")

  abbrev pub amplify_list_tags : ListFunction W (GoMap (Option Text))
  amplify_list_tags client identifier _ =
      list_tags client (codes "amplify") (codes "ListTagsForResource")
        ((codes "ResourceArn", string identifier) ∷ []) amplify_key_value_tags (codes "Tags")

  abbrev pub apigatewayv2_list_tags : ListFunction W (GoMap (Option Text))
  apigatewayv2_list_tags client identifier _ =
      list_tags client (codes "apigatewayv2") (codes "GetTags")
        ((codes "ResourceArn", string identifier) ∷ []) apigatewayv2_key_value_tags (codes "Tags")

  abbrev pub appmesh_list_tags : ListFunction W (List Struct)
  appmesh_list_tags client identifier _ =
      list_tags client (codes "appmesh") (codes "ListTagsForResource")
        ((codes "ResourceArn", string identifier) ∷ []) appmesh_key_value_tags (codes "Tags")

  abbrev pub apprunner_list_tags : ListFunction W (List Struct)
  apprunner_list_tags client identifier _ =
      list_tags client (codes "apprunner") (codes "ListTagsForResource")
        ((codes "ResourceArn", string identifier) ∷ []) apprunner_key_value_tags (codes "Tags")

  abbrev pub appstream_list_tags : ListFunction W (GoMap (Option Text))
  appstream_list_tags client identifier _ =
      list_tags client (codes "appstream") (codes "ListTagsForResource")
        ((codes "ResourceArn", string identifier) ∷ []) appstream_key_value_tags (codes "Tags")

  abbrev pub appsync_list_tags : ListFunction W (GoMap (Option Text))
  appsync_list_tags client identifier _ =
      list_tags client (codes "appsync") (codes "ListTagsForResource")
        ((codes "ResourceArn", string identifier) ∷ []) appsync_key_value_tags (codes "Tags")

  abbrev pub athena_list_tags : ListFunction W (List Struct)
  athena_list_tags client identifier _ =
      list_tags client (codes "athena") (codes "ListTagsForResource")
        ((codes "ResourceARN", string identifier) ∷ []) athena_key_value_tags (codes "Tags")

  abbrev pub backup_list_tags : ListFunction W (GoMap (Option Text))
  backup_list_tags client identifier _ =
      list_tags client (codes "backup") (codes "ListTags")
        ((codes "ResourceArn", string identifier) ∷ []) backup_key_value_tags (codes "Tags")

  abbrev pub batch_list_tags : ListFunction W (GoMap (Option Text))
  batch_list_tags client identifier _ =
      list_tags client (codes "batch") (codes "ListTagsForResource")
        ((codes "ResourceArn", string identifier) ∷ []) batch_key_value_tags (codes "Tags")

  abbrev pub cloud9_list_tags : ListFunction W (List Struct)
  cloud9_list_tags client identifier _ =
      list_tags client (codes "cloud9") (codes "ListTagsForResource")
        ((codes "ResourceARN", string identifier) ∷ []) cloud9_key_value_tags (codes "Tags")

  abbrev pub cloudfront_list_tags : ListFunction W (List Struct)
  cloudfront_list_tags client identifier _ =
      list_tags client (codes "cloudfront") (codes "ListTagsForResource")
        ((codes "Resource", string identifier) ∷ []) cloudfront_key_value_tags (codes "Tags.Items")

  abbrev pub cloudhsmv2_list_tags : ListFunction W (List Struct)
  cloudhsmv2_list_tags client identifier _ =
      list_tags client (codes "cloudhsmv2") (codes "ListTags")
        ((codes "ResourceId", string identifier) ∷ []) cloudhsmv2_key_value_tags (codes "TagList")

  abbrev pub cloudtrail_list_tags : ListFunction W (List Struct)
  cloudtrail_list_tags client identifier _ =
      list_tags client (codes "cloudtrail") (codes "ListTags")
        ((codes "ResourceIdList", string_slice (identifier ∷ [])) ∷ []) cloudtrail_key_value_tags
        (codes "ResourceTagList[0].TagsList")

  abbrev pub cloudwatch_list_tags : ListFunction W (List Struct)
  cloudwatch_list_tags client identifier _ =
      list_tags client (codes "cloudwatch") (codes "ListTagsForResource")
        ((codes "ResourceARN", string identifier) ∷ []) cloudwatch_key_value_tags (codes "Tags")

  abbrev pub cloudwatchevents_list_tags : ListFunction W (List Struct)
  cloudwatchevents_list_tags client identifier _ =
      list_tags client (codes "cloudwatchevents") (codes "ListTagsForResource")
        ((codes "ResourceARN", string identifier) ∷ []) cloudwatchevents_key_value_tags
        (codes "Tags")

  abbrev pub cloudwatchlogs_list_tags : ListFunction W (GoMap (Option Text))
  cloudwatchlogs_list_tags client identifier _ =
      list_tags client (codes "cloudwatchlogs") (codes "ListTagsLogGroup")
        ((codes "LogGroupName", string identifier) ∷ []) cloudwatchlogs_key_value_tags
        (codes "Tags")

  abbrev pub codeartifact_list_tags : ListFunction W (List Struct)
  codeartifact_list_tags client identifier _ =
      list_tags client (codes "codeartifact") (codes "ListTagsForResource")
        ((codes "ResourceArn", string identifier) ∷ []) codeartifact_key_value_tags (codes "Tags")

  abbrev pub codecommit_list_tags : ListFunction W (GoMap (Option Text))
  codecommit_list_tags client identifier _ =
      list_tags client (codes "codecommit") (codes "ListTagsForResource")
        ((codes "ResourceArn", string identifier) ∷ []) codecommit_key_value_tags (codes "Tags")

  abbrev pub codedeploy_list_tags : ListFunction W (List Struct)
  codedeploy_list_tags client identifier _ =
      list_tags client (codes "codedeploy") (codes "ListTagsForResource")
        ((codes "ResourceArn", string identifier) ∷ []) codedeploy_key_value_tags (codes "Tags")

  abbrev pub codepipeline_list_tags : ListFunction W (List Struct)
  codepipeline_list_tags client identifier _ =
      list_tags client (codes "codepipeline") (codes "ListTagsForResource")
        ((codes "ResourceArn", string identifier) ∷ []) codepipeline_key_value_tags (codes "Tags")

  abbrev pub codestarconnections_list_tags : ListFunction W (List Struct)
  codestarconnections_list_tags client identifier _ =
      list_tags client (codes "codestarconnections") (codes "ListTagsForResource")
        ((codes "ResourceArn", string identifier) ∷ []) codestarconnections_key_value_tags
        (codes "Tags")

  abbrev pub codestarnotifications_list_tags : ListFunction W (GoMap (Option Text))
  codestarnotifications_list_tags client identifier _ =
      list_tags client (codes "codestarnotifications") (codes "ListTagsForResource")
        ((codes "Arn", string identifier) ∷ []) codestarnotifications_key_value_tags (codes "Tags")

  abbrev pub cognitoidentity_list_tags : ListFunction W (GoMap (Option Text))
  cognitoidentity_list_tags client identifier _ =
      list_tags client (codes "cognitoidentity") (codes "ListTagsForResource")
        ((codes "ResourceArn", string identifier) ∷ []) cognitoidentity_key_value_tags
        (codes "Tags")

  abbrev pub cognitoidentityprovider_list_tags : ListFunction W (GoMap (Option Text))
  cognitoidentityprovider_list_tags client identifier _ =
      list_tags client (codes "cognitoidentityprovider") (codes "ListTagsForResource")
        ((codes "ResourceArn", string identifier) ∷ []) cognitoidentityprovider_key_value_tags
        (codes "Tags")

  abbrev pub configservice_list_tags : ListFunction W (List Struct)
  configservice_list_tags client identifier _ =
      list_tags client (codes "configservice") (codes "ListTagsForResource")
        ((codes "ResourceArn", string identifier) ∷ []) configservice_key_value_tags (codes "Tags")
