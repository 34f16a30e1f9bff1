-- ===== src/KeyValueTags/Generators/UpdateTable.antt =====
-- internal/keyvaluetags/update_tags_gen.go: its functions, by their names in the order of the file.
use terraform_provider_awsut.Prelude.{List, [], ◌∷◌, Text, codes}
use terraform_provider_awsut.KeyValueTags.Requests.{Client}
use terraform_provider_awsut.KeyValueTags.Generated.Shapes.{UpdateFunction}
use terraform_provider_awsut.KeyValueTags.Generated.Update.FromAccessanalyzer.{
  accessanalyzer_update_tags, acm_update_tags, acmpca_update_tags, amplify_update_tags,
  apigateway_update_tags, apigatewayv2_update_tags, appmesh_update_tags, apprunner_update_tags,
  appstream_update_tags, appsync_update_tags,
}
use terraform_provider_awsut.KeyValueTags.Generated.Update.FromAthena.{
  athena_update_tags, backup_update_tags, batch_update_tags, cloud9_update_tags,
  cloudfront_update_tags, cloudhsmv2_update_tags, cloudtrail_update_tags, cloudwatch_update_tags,
  cloudwatchevents_update_tags, cloudwatchlogs_update_tags,
}
use terraform_provider_awsut.KeyValueTags.Generated.Update.FromCodeartifact.{
  codeartifact_update_tags, codecommit_update_tags, codedeploy_update_tags,
  codepipeline_update_tags, codestarconnections_update_tags, codestarnotifications_update_tags,
  cognitoidentity_update_tags, cognitoidentityprovider_update_tags, configservice_update_tags,
  databasemigrationservice_update_tags,
}
use terraform_provider_awsut.KeyValueTags.Generated.Update.FromDataexchange.{
  dataexchange_update_tags, datapipeline_update_tags, datasync_update_tags, dax_update_tags,
  devicefarm_update_tags, directconnect_update_tags, directoryservice_update_tags, dlm_update_tags,
  docdb_update_tags, dynamodb_update_tags,
}
use terraform_provider_awsut.KeyValueTags.Generated.Update.FromEc2.{
  ec2_update_tags, ecr_update_tags, ecs_update_tags, efs_update_tags, eks_update_tags,
  elasticache_update_tags, elasticbeanstalk_update_tags, elasticsearchservice_update_tags,
  elb_update_tags, elbv2_update_tags,
}
use terraform_provider_awsut.KeyValueTags.Generated.Update.FromEmr.{
  emr_update_tags, firehose_update_tags, fsx_update_tags, gamelift_update_tags, glacier_update_tags,
  globalaccelerator_update_tags, glue_update_tags, greengrass_update_tags, guardduty_update_tags,
  imagebuilder_update_tags,
}
use terraform_provider_awsut.KeyValueTags.Generated.Update.FromIot.{
  iot_update_tags, iotanalytics_update_tags, iotevents_update_tags, kafka_update_tags,
  kinesis_update_tags, kinesisanalytics_update_tags, kinesisanalyticsv2_update_tags,
  kinesisvideo_update_tags, kms_update_tags, lambda_update_tags,
}
use terraform_provider_awsut.KeyValueTags.Generated.Update.FromLicensemanager.{
  licensemanager_update_tags, lightsail_update_tags, mediaconnect_update_tags,
  mediaconvert_update_tags, medialive_update_tags, mediapackage_update_tags, mediastore_update_tags,
  mq_update_tags, mwaa_update_tags, neptune_update_tags,
}
use terraform_provider_awsut.KeyValueTags.Generated.Update.FromNetworkfirewall.{
  networkfirewall_update_tags, networkmanager_update_tags, opsworks_update_tags,
  organizations_update_tags, pinpoint_update_tags, qldb_update_tags, quicksight_update_tags,
  ram_update_tags, rds_update_tags, redshift_update_tags,
}
use terraform_provider_awsut.KeyValueTags.Generated.Update.FromResourcegroups.{
  resourcegroups_update_tags, route53_update_tags, route53resolver_update_tags,
  sagemaker_update_tags, schemas_update_tags, secretsmanager_update_tags, securityhub_update_tags,
  servicediscovery_update_tags, sfn_update_tags, shield_update_tags,
}
use terraform_provider_awsut.KeyValueTags.Generated.Update.FromSigner.{
  signer_update_tags, sns_update_tags, sqs_update_tags, ssm_update_tags, ssoadmin_update_tags,
  storagegateway_update_tags, swf_update_tags, synthetics_update_tags, timestreamwrite_update_tags,
  transfer_update_tags,
}
use terraform_provider_awsut.KeyValueTags.Generated.Update.FromWaf.{
  waf_update_tags, wafregional_update_tags, wafv2_update_tags, worklink_update_tags,
  workspaces_update_tags, xray_update_tags,
}

module _ {W : Type 0} (client : Client W) where
  abbrev pub update_functions : List (Text × UpdateFunction W)
  update_functions =
      ((codes "AccessanalyzerUpdateTags", accessanalyzer_update_tags client)
        ∷ (codes "AcmUpdateTags", acm_update_tags client)
        ∷ (codes "AcmpcaUpdateTags", acmpca_update_tags client)
        ∷ (codes "AmplifyUpdateTags", amplify_update_tags client)
        ∷ (codes "ApigatewayUpdateTags", apigateway_update_tags client)
        ∷ (codes "Apigatewayv2UpdateTags", apigatewayv2_update_tags client)
        ∷ (codes "AppmeshUpdateTags", appmesh_update_tags client)
        ∷ (codes "ApprunnerUpdateTags", apprunner_update_tags client)
        ∷ (codes "AppstreamUpdateTags", appstream_update_tags client)
        ∷ (codes "AppsyncUpdateTags", appsync_update_tags client)
        ∷ (codes "AthenaUpdateTags", athena_update_tags client)
        ∷ (codes "BackupUpdateTags", backup_update_tags client)
        ∷ (codes "BatchUpdateTags", batch_update_tags client)
        ∷ (codes "Cloud9UpdateTags", cloud9_update_tags client)
        ∷ (codes "CloudfrontUpdateTags", cloudfront_update_tags client)
        ∷ (codes "Cloudhsmv2UpdateTags", cloudhsmv2_update_tags client)
        ∷ (codes "CloudtrailUpdateTags", cloudtrail_update_tags client)
        ∷ (codes "CloudwatchUpdateTags", cloudwatch_update_tags client)
        ∷ (codes "CloudwatcheventsUpdateTags", cloudwatchevents_update_tags client)
        ∷ (codes "CloudwatchlogsUpdateTags", cloudwatchlogs_update_tags client)
        ∷ (codes "CodeartifactUpdateTags", codeartifact_update_tags client)
        ∷ (codes "CodecommitUpdateTags", codecommit_update_tags client)
        ∷ (codes "CodedeployUpdateTags", codedeploy_update_tags client)
        ∷ (codes "CodepipelineUpdateTags", codepipeline_update_tags client)
        ∷ (codes "CodestarconnectionsUpdateTags", codestarconnections_update_tags client)
        ∷ (codes "CodestarnotificationsUpdateTags", codestarnotifications_update_tags client)
        ∷ (codes "CognitoidentityUpdateTags", cognitoidentity_update_tags client)
        ∷ (codes "CognitoidentityproviderUpdateTags", cognitoidentityprovider_update_tags client)
        ∷ (codes "ConfigserviceUpdateTags", configservice_update_tags client)
        ∷ (codes "DatabasemigrationserviceUpdateTags", databasemigrationservice_update_tags client)
        ∷ (codes "DataexchangeUpdateTags", dataexchange_update_tags client)
        ∷ (codes "DatapipelineUpdateTags", datapipeline_update_tags client)
        ∷ (codes "DatasyncUpdateTags", datasync_update_tags client)
        ∷ (codes "DaxUpdateTags", dax_update_tags client)
        ∷ (codes "DevicefarmUpdateTags", devicefarm_update_tags client)
        ∷ (codes "DirectconnectUpdateTags", directconnect_update_tags client)
        ∷ (codes "DirectoryserviceUpdateTags", directoryservice_update_tags client)
        ∷ (codes "DlmUpdateTags", dlm_update_tags client)
        ∷ (codes "DocdbUpdateTags", docdb_update_tags client)
        ∷ (codes "DynamodbUpdateTags", dynamodb_update_tags client)
        ∷ (codes "Ec2UpdateTags", ec2_update_tags client)
        ∷ (codes "EcrUpdateTags", ecr_update_tags client)
        ∷ (codes "EcsUpdateTags", ecs_update_tags client)
        ∷ (codes "EfsUpdateTags", efs_update_tags client)
        ∷ (codes "EksUpdateTags", eks_update_tags client)
        ∷ (codes "ElasticacheUpdateTags", elasticache_update_tags client)
        ∷ (codes "ElasticbeanstalkUpdateTags", elasticbeanstalk_update_tags client)
        ∷ (codes "ElasticsearchserviceUpdateTags", elasticsearchservice_update_tags client)
        ∷ (codes "ElbUpdateTags", elb_update_tags client)
        ∷ (codes "Elbv2UpdateTags", elbv2_update_tags client)
        ∷ (codes "EmrUpdateTags", emr_update_tags client)
        ∷ (codes "FirehoseUpdateTags", firehose_update_tags client)
        ∷ (codes "FsxUpdateTags", fsx_update_tags client)
        ∷ (codes "GameliftUpdateTags", gamelift_update_tags client)
        ∷ (codes "GlacierUpdateTags", glacier_update_tags client)
        ∷ (codes "GlobalacceleratorUpdateTags", globalaccelerator_update_tags client)
        ∷ (codes "GlueUpdateTags", glue_update_tags client)
        ∷ (codes "GreengrassUpdateTags", greengrass_update_tags client)
        ∷ (codes "GuarddutyUpdateTags", guardduty_update_tags client)
        ∷ (codes "ImagebuilderUpdateTags", imagebuilder_update_tags client)
        ∷ (codes "IotUpdateTags", iot_update_tags client)
        ∷ (codes "IotanalyticsUpdateTags", iotanalytics_update_tags client)
        ∷ (codes "IoteventsUpdateTags", iotevents_update_tags client)
        ∷ (codes "KafkaUpdateTags", kafka_update_tags client)
        ∷ (codes "KinesisUpdateTags", kinesis_update_tags client)
        ∷ (codes "KinesisanalyticsUpdateTags", kinesisanalytics_update_tags client)
        ∷ (codes "Kinesisanalyticsv2UpdateTags", kinesisanalyticsv2_update_tags client)
        ∷ (codes "KinesisvideoUpdateTags", kinesisvideo_update_tags client)
        ∷ (codes "KmsUpdateTags", kms_update_tags client)
        ∷ (codes "LambdaUpdateTags", lambda_update_tags client)
        ∷ (codes "LicensemanagerUpdateTags", licensemanager_update_tags client)
        ∷ (codes "LightsailUpdateTags", lightsail_update_tags client)
        ∷ (codes "MediaconnectUpdateTags", mediaconnect_update_tags client)
        ∷ (codes "MediaconvertUpdateTags", mediaconvert_update_tags client)
        ∷ (codes "MedialiveUpdateTags", medialive_update_tags client)
        ∷ (codes "MediapackageUpdateTags", mediapackage_update_tags client)
        ∷ (codes "MediastoreUpdateTags", mediastore_update_tags client)
        ∷ (codes "MqUpdateTags", mq_update_tags client)
        ∷ (codes "MwaaUpdateTags", mwaa_update_tags client)
        ∷ (codes "NeptuneUpdateTags", neptune_update_tags client)
        ∷ (codes "NetworkfirewallUpdateTags", networkfirewall_update_tags client)
        ∷ (codes "NetworkmanagerUpdateTags", networkmanager_update_tags client)
        ∷ (codes "OpsworksUpdateTags", opsworks_update_tags client)
        ∷ (codes "OrganizationsUpdateTags", organizations_update_tags client)
        ∷ (codes "PinpointUpdateTags", pinpoint_update_tags client)
        ∷ (codes "QldbUpdateTags", qldb_update_tags client)
        ∷ (codes "QuicksightUpdateTags", quicksight_update_tags client)
        ∷ (codes "RamUpdateTags", ram_update_tags client)
        ∷ (codes "RdsUpdateTags", rds_update_tags client)
        ∷ (codes "RedshiftUpdateTags", redshift_update_tags client)
        ∷ (codes "ResourcegroupsUpdateTags", resourcegroups_update_tags client)
        ∷ (codes "Route53UpdateTags", route53_update_tags client)
        ∷ (codes "Route53resolverUpdateTags", route53resolver_update_tags client)
        ∷ (codes "SagemakerUpdateTags", sagemaker_update_tags client)
        ∷ (codes "SchemasUpdateTags", schemas_update_tags client)
        ∷ (codes "SecretsmanagerUpdateTags", secretsmanager_update_tags client)
        ∷ (codes "SecurityhubUpdateTags", securityhub_update_tags client)
        ∷ (codes "ServicediscoveryUpdateTags", servicediscovery_update_tags client)
        ∷ (codes "SfnUpdateTags", sfn_update_tags client)
        ∷ (codes "ShieldUpdateTags", shield_update_tags client)
        ∷ (codes "SignerUpdateTags", signer_update_tags client)
        ∷ (codes "SnsUpdateTags", sns_update_tags client)
        ∷ (codes "SqsUpdateTags", sqs_update_tags client)
        ∷ (codes "SsmUpdateTags", ssm_update_tags client)
        ∷ (codes "SsoadminUpdateTags", ssoadmin_update_tags client)
        ∷ (codes "StoragegatewayUpdateTags", storagegateway_update_tags client)
        ∷ (codes "SwfUpdateTags", swf_update_tags client)
        ∷ (codes "SyntheticsUpdateTags", synthetics_update_tags client)
        ∷ (codes "TimestreamwriteUpdateTags", timestreamwrite_update_tags client)
        ∷ (codes "TransferUpdateTags", transfer_update_tags client)
        ∷ (codes "WafUpdateTags", waf_update_tags client)
        ∷ (codes "WafregionalUpdateTags", wafregional_update_tags client)
        ∷ (codes "Wafv2UpdateTags", wafv2_update_tags client)
        ∷ (codes "WorklinkUpdateTags", worklink_update_tags client)
        ∷ (codes "WorkspacesUpdateTags", workspaces_update_tags client)
        ∷ (codes "XrayUpdateTags", xray_update_tags client)
        ∷ [])
