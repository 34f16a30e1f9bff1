-- ===== src/KeyValueTags/Generators/ListTables.antt =====
-- internal/keyvaluetags/list_tags_gen.go: its functions, by their names in the order of the file, those of maps
-- and those of structs.
use terraform_provider_awsut.Prelude.{Option, List, [], ◌∷◌, Text, codes}
use terraform_provider_awsut.Prelude.Map.{GoMap}
use terraform_provider_awsut.KeyValueTags.Requests.{Struct}
use terraform_provider_awsut.KeyValueTags.Generated.Shapes.{ListFunction}
use terraform_provider_awsut.KeyValueTags.Generated.List.FromAccessanalyzer.{
  accessanalyzer_list_tags, amplify_list_tags, apigatewayv2_list_tags, appstream_list_tags,
  appsync_list_tags, backup_list_tags, batch_list_tags, cloudwatchlogs_list_tags,
  codecommit_list_tags, codestarnotifications_list_tags, cognitoidentity_list_tags,
  cognitoidentityprovider_list_tags, acm_list_tags, acmpca_list_tags, appmesh_list_tags,
  apprunner_list_tags, athena_list_tags, cloud9_list_tags, cloudfront_list_tags,
  cloudhsmv2_list_tags, cloudtrail_list_tags, cloudwatch_list_tags, cloudwatchevents_list_tags,
  codeartifact_list_tags, codedeploy_list_tags, codepipeline_list_tags,
  codestarconnections_list_tags, configservice_list_tags,
}
use terraform_provider_awsut.KeyValueTags.Generated.List.FromDatabasemigrationservice.{
  dataexchange_list_tags, dlm_list_tags, eks_list_tags, glacier_list_tags, glue_list_tags,
  greengrass_list_tags, guardduty_list_tags, databasemigrationservice_list_tags, datasync_list_tags,
  dax_list_tags, devicefarm_list_tags, directconnect_list_tags, directoryservice_list_tags,
  docdb_list_tags, dynamodb_list_tags, ec2_list_tags, ecr_list_tags, ecs_list_tags, efs_list_tags,
  elasticache_list_tags, elasticbeanstalk_list_tags, elasticsearchservice_list_tags, elb_list_tags,
  elbv2_list_tags, firehose_list_tags, fsx_list_tags, gamelift_list_tags,
  globalaccelerator_list_tags,
}
use terraform_provider_awsut.KeyValueTags.Generated.List.FromImagebuilder.{
  imagebuilder_list_tags, kafka_list_tags, kinesisvideo_list_tags, lambda_list_tags,
  mediaconnect_list_tags, mediaconvert_list_tags, medialive_list_tags, mediapackage_list_tags,
  mq_list_tags, opsworks_list_tags, pinpoint_list_tags, qldb_list_tags, inspector_list_tags,
  iot_list_tags, iotanalytics_list_tags, iotevents_list_tags, kinesis_list_tags,
  kinesisanalytics_list_tags, kinesisanalyticsv2_list_tags, kms_list_tags, licensemanager_list_tags,
  mediastore_list_tags, neptune_list_tags, networkfirewall_list_tags, networkmanager_list_tags,
  organizations_list_tags, quicksight_list_tags, rds_list_tags,
}
use terraform_provider_awsut.KeyValueTags.Generated.List.FromResourcegroups.{
  resourcegroups_list_tags, schemas_list_tags, securityhub_list_tags, signer_list_tags,
  sqs_list_tags, worklink_list_tags, route53_list_tags, route53resolver_list_tags,
  sagemaker_list_tags, servicediscovery_list_tags, sfn_list_tags, shield_list_tags, sns_list_tags,
  ssm_list_tags, ssoadmin_list_tags, storagegateway_list_tags, swf_list_tags,
  timestreamwrite_list_tags, transfer_list_tags, waf_list_tags, wafregional_list_tags,
  wafv2_list_tags, workspaces_list_tags, xray_list_tags,
}

module _ {W : Type 0} where
  abbrev pub map_list_functions : List (Text × ListFunction W (GoMap (Option Text)))
  map_list_functions =
      ((codes "AccessanalyzerListTags", accessanalyzer_list_tags)
        ∷ (codes "AmplifyListTags", amplify_list_tags)
        ∷ (codes "Apigatewayv2ListTags", apigatewayv2_list_tags)
        ∷ (codes "AppstreamListTags", appstream_list_tags)
        ∷ (codes "AppsyncListTags", appsync_list_tags)
        ∷ (codes "BackupListTags", backup_list_tags)
        ∷ (codes "BatchListTags", batch_list_tags)
        ∷ (codes "CloudwatchlogsListTags", cloudwatchlogs_list_tags)
        ∷ (codes "CodecommitListTags", codecommit_list_tags)
        ∷ (codes "CodestarnotificationsListTags", codestarnotifications_list_tags)
        ∷ (codes "CognitoidentityListTags", cognitoidentity_list_tags)
        ∷ (codes "CognitoidentityproviderListTags", cognitoidentityprovider_list_tags)
        ∷ (codes "DataexchangeListTags", dataexchange_list_tags)
        ∷ (codes "DlmListTags", dlm_list_tags)
        ∷ (codes "EksListTags", eks_list_tags)
        ∷ (codes "GlacierListTags", glacier_list_tags)
        ∷ (codes "GlueListTags", glue_list_tags)
        ∷ (codes "GreengrassListTags", greengrass_list_tags)
        ∷ (codes "GuarddutyListTags", guardduty_list_tags)
        ∷ (codes "ImagebuilderListTags", imagebuilder_list_tags)
        ∷ (codes "KafkaListTags", kafka_list_tags)
        ∷ (codes "KinesisvideoListTags", kinesisvideo_list_tags)
        ∷ (codes "LambdaListTags", lambda_list_tags)
        ∷ (codes "MediaconnectListTags", mediaconnect_list_tags)
        ∷ (codes "MediaconvertListTags", mediaconvert_list_tags)
        ∷ (codes "MedialiveListTags", medialive_list_tags)
        ∷ (codes "MediapackageListTags", mediapackage_list_tags)
        ∷ (codes "MqListTags", mq_list_tags)
        ∷ (codes "OpsworksListTags", opsworks_list_tags)
        ∷ (codes "PinpointListTags", pinpoint_list_tags)
        ∷ (codes "QldbListTags", qldb_list_tags)
        ∷ (codes "ResourcegroupsListTags", resourcegroups_list_tags)
        ∷ (codes "SchemasListTags", schemas_list_tags)
        ∷ (codes "SecurityhubListTags", securityhub_list_tags)
        ∷ (codes "SignerListTags", signer_list_tags)
        ∷ (codes "SqsListTags", sqs_list_tags)
        ∷ (codes "WorklinkListTags", worklink_list_tags)
        ∷ [])

  abbrev pub struct_list_functions : List (Text × ListFunction W (List Struct))
  struct_list_functions =
      ((codes "AcmListTags", acm_list_tags)
        ∷ (codes "AcmpcaListTags", acmpca_list_tags)
        ∷ (codes "AppmeshListTags", appmesh_list_tags)
        ∷ (codes "ApprunnerListTags", apprunner_list_tags)
        ∷ (codes "AthenaListTags", athena_list_tags)
        ∷ (codes "Cloud9ListTags", cloud9_list_tags)
        ∷ (codes "CloudfrontListTags", cloudfront_list_tags)
        ∷ (codes "Cloudhsmv2ListTags", cloudhsmv2_list_tags)
        ∷ (codes "CloudtrailListTags", cloudtrail_list_tags)
        ∷ (codes "CloudwatchListTags", cloudwatch_list_tags)
        ∷ (codes "CloudwatcheventsListTags", cloudwatchevents_list_tags)
        ∷ (codes "CodeartifactListTags", codeartifact_list_tags)
        ∷ (codes "CodedeployListTags", codedeploy_list_tags)
        ∷ (codes "CodepipelineListTags", codepipeline_list_tags)
        ∷ (codes "CodestarconnectionsListTags", codestarconnections_list_tags)
        ∷ (codes "ConfigserviceListTags", configservice_list_tags)
        ∷ (codes "DatabasemigrationserviceListTags", databasemigrationservice_list_tags)
        ∷ (codes "DatasyncListTags", datasync_list_tags)
        ∷ (codes "DaxListTags", dax_list_tags)
        ∷ (codes "DevicefarmListTags", devicefarm_list_tags)
        ∷ (codes "DirectconnectListTags", directconnect_list_tags)
        ∷ (codes "DirectoryserviceListTags", directoryservice_list_tags)
        ∷ (codes "DocdbListTags", docdb_list_tags)
        ∷ (codes "DynamodbListTags", dynamodb_list_tags)
        ∷ (codes "Ec2ListTags", ec2_list_tags)
        ∷ (codes "EcrListTags", ecr_list_tags)
        ∷ (codes "EcsListTags", ecs_list_tags)
        ∷ (codes "EfsListTags", efs_list_tags)
        ∷ (codes "ElasticacheListTags", elasticache_list_tags)
        ∷ (codes "ElasticbeanstalkListTags", elasticbeanstalk_list_tags)
        ∷ (codes "ElasticsearchserviceListTags", elasticsearchservice_list_tags)
        ∷ (codes "ElbListTags", elb_list_tags)
        ∷ (codes "Elbv2ListTags", elbv2_list_tags)
        ∷ (codes "FirehoseListTags", firehose_list_tags)
        ∷ (codes "FsxListTags", fsx_list_tags)
        ∷ (codes "GameliftListTags", gamelift_list_tags)
        ∷ (codes "GlobalacceleratorListTags", globalaccelerator_list_tags)
        ∷ (codes "InspectorListTags", inspector_list_tags)
        ∷ (codes "IotListTags", iot_list_tags)
        ∷ (codes "IotanalyticsListTags", iotanalytics_list_tags)
        ∷ (codes "IoteventsListTags", iotevents_list_tags)
        ∷ (codes "KinesisListTags", kinesis_list_tags)
        ∷ (codes "KinesisanalyticsListTags", kinesisanalytics_list_tags)
        ∷ (codes "Kinesisanalyticsv2ListTags", kinesisanalyticsv2_list_tags)
        ∷ (codes "KmsListTags", kms_list_tags)
        ∷ (codes "LicensemanagerListTags", licensemanager_list_tags)
        ∷ (codes "MediastoreListTags", mediastore_list_tags)
        ∷ (codes "NeptuneListTags", neptune_list_tags)
        ∷ (codes "NetworkfirewallListTags", networkfirewall_list_tags)
        ∷ (codes "NetworkmanagerListTags", networkmanager_list_tags)
        ∷ (codes "OrganizationsListTags", organizations_list_tags)
        ∷ (codes "QuicksightListTags", quicksight_list_tags)
        ∷ (codes "RdsListTags", rds_list_tags)
        ∷ (codes "Route53ListTags", route53_list_tags)
        ∷ (codes "Route53resolverListTags", route53resolver_list_tags)
        ∷ (codes "SagemakerListTags", sagemaker_list_tags)
        ∷ (codes "ServicediscoveryListTags", servicediscovery_list_tags)
        ∷ (codes "SfnListTags", sfn_list_tags)
        ∷ (codes "ShieldListTags", shield_list_tags)
        ∷ (codes "SnsListTags", sns_list_tags)
        ∷ (codes "SsmListTags", ssm_list_tags)
        ∷ (codes "SsoadminListTags", ssoadmin_list_tags)
        ∷ (codes "StoragegatewayListTags", storagegateway_list_tags)
        ∷ (codes "SwfListTags", swf_list_tags)
        ∷ (codes "TimestreamwriteListTags", timestreamwrite_list_tags)
        ∷ (codes "TransferListTags", transfer_list_tags)
        ∷ (codes "WafListTags", waf_list_tags)
        ∷ (codes "WafregionalListTags", wafregional_list_tags)
        ∷ (codes "Wafv2ListTags", wafv2_list_tags)
        ∷ (codes "WorkspacesListTags", workspaces_list_tags)
        ∷ (codes "XrayListTags", xray_list_tags)
        ∷ [])
