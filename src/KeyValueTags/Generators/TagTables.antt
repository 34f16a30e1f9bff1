-- ===== src/KeyValueTags/Generators/TagTables.antt =====
-- internal/keyvaluetags/service_tags_gen.go: its functions from tags, by their names in the order of the file.
use terraform_provider_awsut.Prelude.{List, [], ◌∷◌, Text, codes}
use terraform_provider_awsut.KeyValueTags.Data.{KeyValueTags}
use terraform_provider_awsut.KeyValueTags.Requests.{Argument}
use terraform_provider_awsut.KeyValueTags.Generated.MapTags.FromAccessanalyzer.{
  accessanalyzer_tags, amplify_tags, apigateway_tags, apigatewayv2_tags, appstream_tags,
  appsync_tags, backup_tags, batch_tags, cloudwatchlogs_tags, codecommit_tags,
  codestarnotifications_tags, cognitoidentity_tags, cognitoidentityprovider_tags, dataexchange_tags,
  dlm_tags, eks_tags, glacier_tags, glue_tags, greengrass_tags, guardduty_tags, imagebuilder_tags,
  kafka_tags, kinesisvideo_tags, lambda_tags, macie2_tags, mediaconnect_tags, mediaconvert_tags,
  medialive_tags, mediapackage_tags, mq_tags,
}
use terraform_provider_awsut.KeyValueTags.Generated.MapTags.FromMwaa.{
  mwaa_tags, opsworks_tags, pinpoint_tags, qldb_tags, resourcegroups_tags, schemas_tags,
  securityhub_tags, signer_tags, sqs_tags, synthetics_tags, worklink_tags,
}
use terraform_provider_awsut.KeyValueTags.Generated.SliceTags.FromAcm.{
  acm_tags, acmpca_tags, appmesh_tags, apprunner_tags, athena_tags, cloud9_tags,
  cloudformation_tags, cloudfront_tags, cloudhsmv2_tags, cloudtrail_tags, cloudwatch_tags,
  cloudwatchevents_tags, codeartifact_tags, codebuild_tags, codedeploy_tags, codepipeline_tags,
  codestarconnections_tags, configservice_tags, databasemigrationservice_tags, datapipeline_tags,
  datasync_tags, dax_tags, devicefarm_tags, directconnect_tags, directoryservice_tags, docdb_tags,
  dynamodb_tags, ec2_tags, ecr_tags,
}
use terraform_provider_awsut.KeyValueTags.Generated.SliceTags.FromEcs.{
  ecs_tags, efs_tags, elasticache_tags, elasticbeanstalk_tags, elasticsearchservice_tags, elb_tags,
  elbv2_tags, emr_tags, firehose_tags, fms_tags, fsx_tags, gamelift_tags, globalaccelerator_tags,
  iam_tags, inspector_tags, iot_tags, iotanalytics_tags, iotevents_tags, kinesis_tags,
  kinesisanalytics_tags, kinesisanalyticsv2_tags, kms_tags, licensemanager_tags, lightsail_tags,
  mediastore_tags, neptune_tags, networkfirewall_tags, networkmanager_tags, organizations_tags,
  elb_tag_keys,
}
use terraform_provider_awsut.KeyValueTags.Generated.SliceTags.FromOrganizations.{
  quicksight_tags, ram_tags, rds_tags, redshift_tags, resourcegroupstaggingapi_tags, route53_tags,
  route53resolver_tags, s3_tags, s3control_tags, sagemaker_tags, secretsmanager_tags,
  serverlessapplicationrepository_tags, servicecatalog_tags, servicediscovery_tags, sfn_tags,
  shield_tags, sns_tags, ssm_tags, ssoadmin_tags, storagegateway_tags, swf_tags,
  timestreamwrite_tags, transfer_tags, waf_tags, wafregional_tags, wafv2_tags, workspaces_tags,
  xray_tags,
}

abbrev pub tag_functions : List (Text × (KeyValueTags → Argument))
tag_functions =
    ((codes "AccessanalyzerTags", accessanalyzer_tags)
      ∷ (codes "AmplifyTags", amplify_tags)
      ∷ (codes "ApigatewayTags", apigateway_tags)
      ∷ (codes "Apigatewayv2Tags", apigatewayv2_tags)
      ∷ (codes "AppstreamTags", appstream_tags)
      ∷ (codes "AppsyncTags", appsync_tags)
      ∷ (codes "BackupTags", backup_tags)
      ∷ (codes "BatchTags", batch_tags)
      ∷ (codes "CloudwatchlogsTags", cloudwatchlogs_tags)
      ∷ (codes "CodecommitTags", codecommit_tags)
      ∷ (codes "CodestarnotificationsTags", codestarnotifications_tags)
      ∷ (codes "CognitoidentityTags", cognitoidentity_tags)
      ∷ (codes "CognitoidentityproviderTags", cognitoidentityprovider_tags)
      ∷ (codes "DataexchangeTags", dataexchange_tags)
      ∷ (codes "DlmTags", dlm_tags)
      ∷ (codes "EksTags", eks_tags)
      ∷ (codes "GlacierTags", glacier_tags)
      ∷ (codes "GlueTags", glue_tags)
      ∷ (codes "GreengrassTags", greengrass_tags)
      ∷ (codes "GuarddutyTags", guardduty_tags)
      ∷ (codes "ImagebuilderTags", imagebuilder_tags)
      ∷ (codes "KafkaTags", kafka_tags)
      ∷ (codes "KinesisvideoTags", kinesisvideo_tags)
      ∷ (codes "LambdaTags", lambda_tags)
      ∷ (codes "Macie2Tags", macie2_tags)
      ∷ (codes "MediaconnectTags", mediaconnect_tags)
      ∷ (codes "MediaconvertTags", mediaconvert_tags)
      ∷ (codes "MedialiveTags", medialive_tags)
      ∷ (codes "MediapackageTags", mediapackage_tags)
      ∷ (codes "MqTags", mq_tags)
      ∷ (codes "MwaaTags", mwaa_tags)
      ∷ (codes "OpsworksTags", opsworks_tags)
      ∷ (codes "PinpointTags", pinpoint_tags)
      ∷ (codes "QldbTags", qldb_tags)
      ∷ (codes "ResourcegroupsTags", resourcegroups_tags)
      ∷ (codes "SchemasTags", schemas_tags)
      ∷ (codes "SecurityhubTags", securityhub_tags)
      ∷ (codes "SignerTags", signer_tags)
      ∷ (codes "SqsTags", sqs_tags)
      ∷ (codes "SyntheticsTags", synthetics_tags)
      ∷ (codes "WorklinkTags", worklink_tags)
      ∷ (codes "AcmTags", acm_tags)
      ∷ (codes "AcmpcaTags", acmpca_tags)
      ∷ (codes "AppmeshTags", appmesh_tags)
      ∷ (codes "ApprunnerTags", apprunner_tags)
      ∷ (codes "AthenaTags", athena_tags)
      ∷ (codes "Cloud9Tags", cloud9_tags)
      ∷ (codes "CloudformationTags", cloudformation_tags)
      ∷ (codes "CloudfrontTags", cloudfront_tags)
      ∷ (codes "Cloudhsmv2Tags", cloudhsmv2_tags)
      ∷ (codes "CloudtrailTags", cloudtrail_tags)
      ∷ (codes "CloudwatchTags", cloudwatch_tags)
      ∷ (codes "CloudwatcheventsTags", cloudwatchevents_tags)
      ∷ (codes "CodeartifactTags", codeartifact_tags)
      ∷ (codes "CodebuildTags", codebuild_tags)
      ∷ (codes "CodedeployTags", codedeploy_tags)
      ∷ (codes "CodepipelineTags", codepipeline_tags)
      ∷ (codes "CodestarconnectionsTags", codestarconnections_tags)
      ∷ (codes "ConfigserviceTags", configservice_tags)
      ∷ (codes "DatabasemigrationserviceTags", databasemigrationservice_tags)
      ∷ (codes "DatapipelineTags", datapipeline_tags)
      ∷ (codes "DatasyncTags", datasync_tags)
      ∷ (codes "DaxTags", dax_tags)
      ∷ (codes "DevicefarmTags", devicefarm_tags)
      ∷ (codes "DirectconnectTags", directconnect_tags)
      ∷ (codes "DirectoryserviceTags", directoryservice_tags)
      ∷ (codes "DocdbTags", docdb_tags)
      ∷ (codes "DynamodbTags", dynamodb_tags)
      ∷ (codes "Ec2Tags", ec2_tags)
      ∷ (codes "EcrTags", ecr_tags)
      ∷ (codes "EcsTags", ecs_tags)
      ∷ (codes "EfsTags", efs_tags)
      ∷ (codes "ElasticacheTags", elasticache_tags)
      ∷ (codes "ElasticbeanstalkTags", elasticbeanstalk_tags)
      ∷ (codes "ElasticsearchserviceTags", elasticsearchservice_tags)
      ∷ (codes "ElbTags", elb_tags)
      ∷ (codes "Elbv2Tags", elbv2_tags)
      ∷ (codes "EmrTags", emr_tags)
      ∷ (codes "FirehoseTags", firehose_tags)
      ∷ (codes "FmsTags", fms_tags)
      ∷ (codes "FsxTags", fsx_tags)
      ∷ (codes "GameliftTags", gamelift_tags)
      ∷ (codes "GlobalacceleratorTags", globalaccelerator_tags)
      ∷ (codes "IamTags", iam_tags)
      ∷ (codes "InspectorTags", inspector_tags)
      ∷ (codes "IotTags", iot_tags)
      ∷ (codes "IotanalyticsTags", iotanalytics_tags)
      ∷ (codes "IoteventsTags", iotevents_tags)
      ∷ (codes "KinesisTags", kinesis_tags)
      ∷ (codes "KinesisanalyticsTags", kinesisanalytics_tags)
      ∷ (codes "Kinesisanalyticsv2Tags", kinesisanalyticsv2_tags)
      ∷ (codes "KmsTags", kms_tags)
      ∷ (codes "LicensemanagerTags", licensemanager_tags)
      ∷ (codes "LightsailTags", lightsail_tags)
      ∷ (codes "MediastoreTags", mediastore_tags)
      ∷ (codes "NeptuneTags", neptune_tags)
      ∷ (codes "NetworkfirewallTags", networkfirewall_tags)
      ∷ (codes "NetworkmanagerTags", networkmanager_tags)
      ∷ (codes "OrganizationsTags", organizations_tags)
      ∷ (codes "QuicksightTags", quicksight_tags)
      ∷ (codes "RamTags", ram_tags)
      ∷ (codes "RdsTags", rds_tags)
      ∷ (codes "RedshiftTags", redshift_tags)
      ∷ (codes "ResourcegroupstaggingapiTags", resourcegroupstaggingapi_tags)
      ∷ (codes "Route53Tags", route53_tags)
      ∷ (codes "Route53resolverTags", route53resolver_tags)
      ∷ (codes "S3Tags", s3_tags)
      ∷ (codes "S3controlTags", s3control_tags)
      ∷ (codes "SagemakerTags", sagemaker_tags)
      ∷ (codes "SecretsmanagerTags", secretsmanager_tags)
      ∷ (codes "ServerlessapplicationrepositoryTags", serverlessapplicationrepository_tags)
      ∷ (codes "ServicecatalogTags", servicecatalog_tags)
      ∷ (codes "ServicediscoveryTags", servicediscovery_tags)
      ∷ (codes "SfnTags", sfn_tags)
      ∷ (codes "ShieldTags", shield_tags)
      ∷ (codes "SnsTags", sns_tags)
      ∷ (codes "SsmTags", ssm_tags)
      ∷ (codes "SsoadminTags", ssoadmin_tags)
      ∷ (codes "StoragegatewayTags", storagegateway_tags)
      ∷ (codes "SwfTags", swf_tags)
      ∷ (codes "TimestreamwriteTags", timestreamwrite_tags)
      ∷ (codes "TransferTags", transfer_tags)
      ∷ (codes "WafTags", waf_tags)
      ∷ (codes "WafregionalTags", wafregional_tags)
      ∷ (codes "Wafv2Tags", wafv2_tags)
      ∷ (codes "WorkspacesTags", workspaces_tags)
      ∷ (codes "XrayTags", xray_tags)
      ∷ [])

abbrev pub tag_key_functions : List (Text × (KeyValueTags → Argument))
tag_key_functions = ((codes "ElbTagKeys", elb_tag_keys) ∷ [])
