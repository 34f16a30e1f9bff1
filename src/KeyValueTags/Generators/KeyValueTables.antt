-- ===== src/KeyValueTags/Generators/KeyValueTables.antt =====
-- internal/keyvaluetags/service_tags_gen.go: its functions to tags, by their names in the order of the file.
use terraform_provider_awsut.Prelude.{Option, List, [], ◌∷◌, Text, codes}
use terraform_provider_awsut.Prelude.Map.{GoMap}
use terraform_provider_awsut.KeyValueTags.Data.{KeyValueTags}
use terraform_provider_awsut.KeyValueTags.Requests.{Struct}
use terraform_provider_awsut.KeyValueTags.Generated.MapTags.FromAccessanalyzer.{
  accessanalyzer_key_value_tags, amplify_key_value_tags, apigateway_key_value_tags,
  apigatewayv2_key_value_tags, appstream_key_value_tags, appsync_key_value_tags,
  backup_key_value_tags, batch_key_value_tags, cloudwatchlogs_key_value_tags,
  codecommit_key_value_tags, codestarnotifications_key_value_tags, cognitoidentity_key_value_tags,
  cognitoidentityprovider_key_value_tags, dataexchange_key_value_tags, dlm_key_value_tags,
  eks_key_value_tags, glacier_key_value_tags, glue_key_value_tags, greengrass_key_value_tags,
  guardduty_key_value_tags, imagebuilder_key_value_tags, kafka_key_value_tags,
  kinesisvideo_key_value_tags, lambda_key_value_tags, macie2_key_value_tags,
  mediaconnect_key_value_tags, mediaconvert_key_value_tags, medialive_key_value_tags,
  mediapackage_key_value_tags, mq_key_value_tags,
}
use terraform_provider_awsut.KeyValueTags.Generated.MapTags.FromMwaa.{
  mwaa_key_value_tags, opsworks_key_value_tags, pinpoint_key_value_tags, qldb_key_value_tags,
  resourcegroups_key_value_tags, schemas_key_value_tags, securityhub_key_value_tags,
  signer_key_value_tags, sqs_key_value_tags, synthetics_key_value_tags, worklink_key_value_tags,
}
use terraform_provider_awsut.KeyValueTags.Generated.SliceTags.FromAcm.{
  acm_key_value_tags, acmpca_key_value_tags, appmesh_key_value_tags, apprunner_key_value_tags,
  athena_key_value_tags, cloud9_key_value_tags, cloudformation_key_value_tags,
  cloudfront_key_value_tags, cloudhsmv2_key_value_tags, cloudtrail_key_value_tags,
  cloudwatch_key_value_tags, cloudwatchevents_key_value_tags, codeartifact_key_value_tags,
  codebuild_key_value_tags, codedeploy_key_value_tags, codepipeline_key_value_tags,
  codestarconnections_key_value_tags, configservice_key_value_tags,
  databasemigrationservice_key_value_tags, datapipeline_key_value_tags, datasync_key_value_tags,
  dax_key_value_tags, devicefarm_key_value_tags, directconnect_key_value_tags,
  directoryservice_key_value_tags, docdb_key_value_tags, dynamodb_key_value_tags,
  ec2_key_value_tags, ecr_key_value_tags,
}
use terraform_provider_awsut.KeyValueTags.Generated.SliceTags.FromEcs.{
  ecs_key_value_tags, efs_key_value_tags, elasticache_key_value_tags,
  elasticbeanstalk_key_value_tags, elasticsearchservice_key_value_tags, elb_key_value_tags,
  elbv2_key_value_tags, emr_key_value_tags, firehose_key_value_tags, fms_key_value_tags,
  fsx_key_value_tags, gamelift_key_value_tags, globalaccelerator_key_value_tags, iam_key_value_tags,
  inspector_key_value_tags, iot_key_value_tags, iotanalytics_key_value_tags,
  iotevents_key_value_tags, kinesis_key_value_tags, kinesisanalytics_key_value_tags,
  kinesisanalyticsv2_key_value_tags, kms_key_value_tags, licensemanager_key_value_tags,
  lightsail_key_value_tags, mediastore_key_value_tags, neptune_key_value_tags,
  networkfirewall_key_value_tags, networkmanager_key_value_tags,
}
use terraform_provider_awsut.KeyValueTags.Generated.SliceTags.FromOrganizations.{
  organizations_key_value_tags, quicksight_key_value_tags, ram_key_value_tags, rds_key_value_tags,
  redshift_key_value_tags, resourcegroupstaggingapi_key_value_tags, route53_key_value_tags,
  route53resolver_key_value_tags, s3_key_value_tags, s3control_key_value_tags,
  sagemaker_key_value_tags, secretsmanager_key_value_tags,
  serverlessapplicationrepository_key_value_tags, servicecatalog_key_value_tags,
  servicediscovery_key_value_tags, sfn_key_value_tags, shield_key_value_tags, sns_key_value_tags,
  ssm_key_value_tags, ssoadmin_key_value_tags, storagegateway_key_value_tags, swf_key_value_tags,
  timestreamwrite_key_value_tags, transfer_key_value_tags, waf_key_value_tags,
  wafregional_key_value_tags, wafv2_key_value_tags, workspaces_key_value_tags, xray_key_value_tags,
}

abbrev pub map_key_value_functions : List (Text × (GoMap (Option Text) → KeyValueTags))
map_key_value_functions =
    ((codes "AccessanalyzerKeyValueTags", accessanalyzer_key_value_tags)
      ∷ (codes "AmplifyKeyValueTags", amplify_key_value_tags)
      ∷ (codes "ApigatewayKeyValueTags", apigateway_key_value_tags)
      ∷ (codes "Apigatewayv2KeyValueTags", apigatewayv2_key_value_tags)
      ∷ (codes "AppstreamKeyValueTags", appstream_key_value_tags)
      ∷ (codes "AppsyncKeyValueTags", appsync_key_value_tags)
      ∷ (codes "BackupKeyValueTags", backup_key_value_tags)
      ∷ (codes "BatchKeyValueTags", batch_key_value_tags)
      ∷ (codes "CloudwatchlogsKeyValueTags", cloudwatchlogs_key_value_tags)
      ∷ (codes "CodecommitKeyValueTags", codecommit_key_value_tags)
      ∷ (codes "CodestarnotificationsKeyValueTags", codestarnotifications_key_value_tags)
      ∷ (codes "CognitoidentityKeyValueTags", cognitoidentity_key_value_tags)
      ∷ (codes "CognitoidentityproviderKeyValueTags", cognitoidentityprovider_key_value_tags)
      ∷ (codes "DataexchangeKeyValueTags", dataexchange_key_value_tags)
      ∷ (codes "DlmKeyValueTags", dlm_key_value_tags)
      ∷ (codes "EksKeyValueTags", eks_key_value_tags)
      ∷ (codes "GlacierKeyValueTags", glacier_key_value_tags)
      ∷ (codes "GlueKeyValueTags", glue_key_value_tags)
      ∷ (codes "GreengrassKeyValueTags", greengrass_key_value_tags)
      ∷ (codes "GuarddutyKeyValueTags", guardduty_key_value_tags)
      ∷ (codes "ImagebuilderKeyValueTags", imagebuilder_key_value_tags)
      ∷ (codes "KafkaKeyValueTags", kafka_key_value_tags)
      ∷ (codes "KinesisvideoKeyValueTags", kinesisvideo_key_value_tags)
      ∷ (codes "LambdaKeyValueTags", lambda_key_value_tags)
      ∷ (codes "Macie2KeyValueTags", macie2_key_value_tags)
      ∷ (codes "MediaconnectKeyValueTags", mediaconnect_key_value_tags)
      ∷ (codes "MediaconvertKeyValueTags", mediaconvert_key_value_tags)
      ∷ (codes "MedialiveKeyValueTags", medialive_key_value_tags)
      ∷ (codes "MediapackageKeyValueTags", mediapackage_key_value_tags)
      ∷ (codes "MqKeyValueTags", mq_key_value_tags)
      ∷ (codes "MwaaKeyValueTags", mwaa_key_value_tags)
      ∷ (codes "OpsworksKeyValueTags", opsworks_key_value_tags)
      ∷ (codes "PinpointKeyValueTags", pinpoint_key_value_tags)
      ∷ (codes "QldbKeyValueTags", qldb_key_value_tags)
      ∷ (codes "ResourcegroupsKeyValueTags", resourcegroups_key_value_tags)
      ∷ (codes "SchemasKeyValueTags", schemas_key_value_tags)
      ∷ (codes "SecurityhubKeyValueTags", securityhub_key_value_tags)
      ∷ (codes "SignerKeyValueTags", signer_key_value_tags)
      ∷ (codes "SqsKeyValueTags", sqs_key_value_tags)
      ∷ (codes "SyntheticsKeyValueTags", synthetics_key_value_tags)
      ∷ (codes "WorklinkKeyValueTags", worklink_key_value_tags)
      ∷ [])

abbrev pub struct_key_value_functions : List (Text × (List Struct → KeyValueTags))
struct_key_value_functions =
    ((codes "AcmKeyValueTags", acm_key_value_tags)
      ∷ (codes "AcmpcaKeyValueTags", acmpca_key_value_tags)
      ∷ (codes "AppmeshKeyValueTags", appmesh_key_value_tags)
      ∷ (codes "ApprunnerKeyValueTags", apprunner_key_value_tags)
      ∷ (codes "AthenaKeyValueTags", athena_key_value_tags)
      ∷ (codes "Cloud9KeyValueTags", cloud9_key_value_tags)
      ∷ (codes "CloudformationKeyValueTags", cloudformation_key_value_tags)
      ∷ (codes "CloudfrontKeyValueTags", cloudfront_key_value_tags)
      ∷ (codes "Cloudhsmv2KeyValueTags", cloudhsmv2_key_value_tags)
      ∷ (codes "CloudtrailKeyValueTags", cloudtrail_key_value_tags)
      ∷ (codes "CloudwatchKeyValueTags", cloudwatch_key_value_tags)
      ∷ (codes "CloudwatcheventsKeyValueTags", cloudwatchevents_key_value_tags)
      ∷ (codes "CodeartifactKeyValueTags", codeartifact_key_value_tags)
      ∷ (codes "CodebuildKeyValueTags", codebuild_key_value_tags)
      ∷ (codes "CodedeployKeyValueTags", codedeploy_key_value_tags)
      ∷ (codes "CodepipelineKeyValueTags", codepipeline_key_value_tags)
      ∷ (codes "CodestarconnectionsKeyValueTags", codestarconnections_key_value_tags)
      ∷ (codes "ConfigserviceKeyValueTags", configservice_key_value_tags)
      ∷ (codes "DatabasemigrationserviceKeyValueTags", databasemigrationservice_key_value_tags)
      ∷ (codes "DatapipelineKeyValueTags", datapipeline_key_value_tags)
      ∷ (codes "DatasyncKeyValueTags", datasync_key_value_tags)
      ∷ (codes "DaxKeyValueTags", dax_key_value_tags)
      ∷ (codes "DevicefarmKeyValueTags", devicefarm_key_value_tags)
      ∷ (codes "DirectconnectKeyValueTags", directconnect_key_value_tags)
      ∷ (codes "DirectoryserviceKeyValueTags", directoryservice_key_value_tags)
      ∷ (codes "DocdbKeyValueTags", docdb_key_value_tags)
      ∷ (codes "DynamodbKeyValueTags", dynamodb_key_value_tags)
      ∷ (codes "Ec2KeyValueTags", ec2_key_value_tags)
      ∷ (codes "EcrKeyValueTags", ecr_key_value_tags)
      ∷ (codes "EcsKeyValueTags", ecs_key_value_tags)
      ∷ (codes "EfsKeyValueTags", efs_key_value_tags)
      ∷ (codes "ElasticacheKeyValueTags", elasticache_key_value_tags)
      ∷ (codes "ElasticbeanstalkKeyValueTags", elasticbeanstalk_key_value_tags)
      ∷ (codes "ElasticsearchserviceKeyValueTags", elasticsearchservice_key_value_tags)
      ∷ (codes "ElbKeyValueTags", elb_key_value_tags)
      ∷ (codes "Elbv2KeyValueTags", elbv2_key_value_tags)
      ∷ (codes "EmrKeyValueTags", emr_key_value_tags)
      ∷ (codes "FirehoseKeyValueTags", firehose_key_value_tags)
      ∷ (codes "FmsKeyValueTags", fms_key_value_tags)
      ∷ (codes "FsxKeyValueTags", fsx_key_value_tags)
      ∷ (codes "GameliftKeyValueTags", gamelift_key_value_tags)
      ∷ (codes "GlobalacceleratorKeyValueTags", globalaccelerator_key_value_tags)
      ∷ (codes "IamKeyValueTags", iam_key_value_tags)
      ∷ (codes "InspectorKeyValueTags", inspector_key_value_tags)
      ∷ (codes "IotKeyValueTags", iot_key_value_tags)
      ∷ (codes "IotanalyticsKeyValueTags", iotanalytics_key_value_tags)
      ∷ (codes "IoteventsKeyValueTags", iotevents_key_value_tags)
      ∷ (codes "KinesisKeyValueTags", kinesis_key_value_tags)
      ∷ (codes "KinesisanalyticsKeyValueTags", kinesisanalytics_key_value_tags)
      ∷ (codes "Kinesisanalyticsv2KeyValueTags", kinesisanalyticsv2_key_value_tags)
      ∷ (codes "KmsKeyValueTags", kms_key_value_tags)
      ∷ (codes "LicensemanagerKeyValueTags", licensemanager_key_value_tags)
      ∷ (codes "LightsailKeyValueTags", lightsail_key_value_tags)
      ∷ (codes "MediastoreKeyValueTags", mediastore_key_value_tags)
      ∷ (codes "NeptuneKeyValueTags", neptune_key_value_tags)
      ∷ (codes "NetworkfirewallKeyValueTags", networkfirewall_key_value_tags)
      ∷ (codes "NetworkmanagerKeyValueTags", networkmanager_key_value_tags)
      ∷ (codes "OrganizationsKeyValueTags", organizations_key_value_tags)
      ∷ (codes "QuicksightKeyValueTags", quicksight_key_value_tags)
      ∷ (codes "RamKeyValueTags", ram_key_value_tags)
      ∷ (codes "RdsKeyValueTags", rds_key_value_tags)
      ∷ (codes "RedshiftKeyValueTags", redshift_key_value_tags)
      ∷ (codes "ResourcegroupstaggingapiKeyValueTags", resourcegroupstaggingapi_key_value_tags)
      ∷ (codes "Route53KeyValueTags", route53_key_value_tags)
      ∷ (codes "Route53resolverKeyValueTags", route53resolver_key_value_tags)
      ∷ (codes "S3KeyValueTags", s3_key_value_tags)
      ∷ (codes "S3controlKeyValueTags", s3control_key_value_tags)
      ∷ (codes "SagemakerKeyValueTags", sagemaker_key_value_tags)
      ∷ (codes "SecretsmanagerKeyValueTags", secretsmanager_key_value_tags)
      ∷ (
        codes "ServerlessapplicationrepositoryKeyValueTags",
        serverlessapplicationrepository_key_value_tags,
      )
      ∷ (codes "ServicecatalogKeyValueTags", servicecatalog_key_value_tags)
      ∷ (codes "ServicediscoveryKeyValueTags", servicediscovery_key_value_tags)
      ∷ (codes "SfnKeyValueTags", sfn_key_value_tags)
      ∷ (codes "ShieldKeyValueTags", shield_key_value_tags)
      ∷ (codes "SnsKeyValueTags", sns_key_value_tags)
      ∷ (codes "SsmKeyValueTags", ssm_key_value_tags)
      ∷ (codes "SsoadminKeyValueTags", ssoadmin_key_value_tags)
      ∷ (codes "StoragegatewayKeyValueTags", storagegateway_key_value_tags)
      ∷ (codes "SwfKeyValueTags", swf_key_value_tags)
      ∷ (codes "TimestreamwriteKeyValueTags", timestreamwrite_key_value_tags)
      ∷ (codes "TransferKeyValueTags", transfer_key_value_tags)
      ∷ (codes "WafKeyValueTags", waf_key_value_tags)
      ∷ (codes "WafregionalKeyValueTags", wafregional_key_value_tags)
      ∷ (codes "Wafv2KeyValueTags", wafv2_key_value_tags)
      ∷ (codes "WorkspacesKeyValueTags", workspaces_key_value_tags)
      ∷ (codes "XrayKeyValueTags", xray_key_value_tags)
      ∷ [])
