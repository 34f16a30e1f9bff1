-- ===== src/KeyValueTags/Generated/MapTags/FromAccessanalyzer.antt =====
-- internal/keyvaluetags/service_tags_gen.go, services whose tags are maps: AccessanalyzerTags to MqKeyValueTags.
use terraform_provider_awsut.Prelude.{Option, Text}
use terraform_provider_awsut.Prelude.Map.{GoMap}
use terraform_provider_awsut.KeyValueTags.Data.{KeyValueTags}
use terraform_provider_awsut.KeyValueTags.Requests.{Argument, map_tags, tags_of_map}

abbrev pub accessanalyzer_tags : KeyValueTags → Argument
accessanalyzer_tags = map_tags

abbrev pub accessanalyzer_key_value_tags : GoMap (Option Text) → KeyValueTags
accessanalyzer_key_value_tags = tags_of_map

abbrev pub amplify_tags : KeyValueTags → Argument
amplify_tags = map_tags

abbrev pub amplify_key_value_tags : GoMap (Option Text) → KeyValueTags
amplify_key_value_tags = tags_of_map

abbrev pub apigateway_tags : KeyValueTags → Argument
apigateway_tags = map_tags

abbrev pub apigateway_key_value_tags : GoMap (Option Text) → KeyValueTags
apigateway_key_value_tags = tags_of_map

abbrev pub apigatewayv2_tags : KeyValueTags → Argument
apigatewayv2_tags = map_tags

abbrev pub apigatewayv2_key_value_tags : GoMap (Option Text) → KeyValueTags
apigatewayv2_key_value_tags = tags_of_map

abbrev pub appstream_tags : KeyValueTags → Argument
appstream_tags = map_tags

abbrev pub appstream_key_value_tags : GoMap (Option Text) → KeyValueTags
appstream_key_value_tags = tags_of_map

abbrev pub appsync_tags : KeyValueTags → Argument
appsync_tags = map_tags

abbrev pub appsync_key_value_tags : GoMap (Option Text) → KeyValueTags
appsync_key_value_tags = tags_of_map

abbrev pub backup_tags : KeyValueTags → Argument
backup_tags = map_tags

abbrev pub backup_key_value_tags : GoMap (Option Text) → KeyValueTags
backup_key_value_tags = tags_of_map

abbrev pub batch_tags : KeyValueTags → Argument
batch_tags = map_tags

abbrev pub batch_key_value_tags : GoMap (Option Text) → KeyValueTags
batch_key_value_tags = tags_of_map

abbrev pub cloudwatchlogs_tags : KeyValueTags → Argument
cloudwatchlogs_tags = map_tags

abbrev pub cloudwatchlogs_key_value_tags : GoMap (Option Text) → KeyValueTags
cloudwatchlogs_key_value_tags = tags_of_map

abbrev pub codecommit_tags : KeyValueTags → Argument
codecommit_tags = map_tags

abbrev pub codecommit_key_value_tags : GoMap (Option Text) → KeyValueTags
codecommit_key_value_tags = tags_of_map

abbrev pub codestarnotifications_tags : KeyValueTags → Argument
codestarnotifications_tags = map_tags

abbrev pub codestarnotifications_key_value_tags : GoMap (Option Text) → KeyValueTags
codestarnotifications_key_value_tags = tags_of_map

abbrev pub cognitoidentity_tags : KeyValueTags → Argument
cognitoidentity_tags = map_tags

abbrev pub cognitoidentity_key_value_tags : GoMap (Option Text) → KeyValueTags
cognitoidentity_key_value_tags = tags_of_map

abbrev pub cognitoidentityprovider_tags : KeyValueTags → Argument
cognitoidentityprovider_tags = map_tags

abbrev pub cognitoidentityprovider_key_value_tags : GoMap (Option Text) → KeyValueTags
cognitoidentityprovider_key_value_tags = tags_of_map

abbrev pub dataexchange_tags : KeyValueTags → Argument
dataexchange_tags = map_tags

abbrev pub dataexchange_key_value_tags : GoMap (Option Text) → KeyValueTags
dataexchange_key_value_tags = tags_of_map

abbrev pub dlm_tags : KeyValueTags → Argument
dlm_tags = map_tags

abbrev pub dlm_key_value_tags : GoMap (Option Text) → KeyValueTags
dlm_key_value_tags = tags_of_map

abbrev pub eks_tags : KeyValueTags → Argument
eks_tags = map_tags

abbrev pub eks_key_value_tags : GoMap (Option Text) → KeyValueTags
eks_key_value_tags = tags_of_map

abbrev pub glacier_tags : KeyValueTags → Argument
glacier_tags = map_tags

abbrev pub glacier_key_value_tags : GoMap (Option Text) → KeyValueTags
glacier_key_value_tags = tags_of_map

abbrev pub glue_tags : KeyValueTags → Argument
glue_tags = map_tags

abbrev pub glue_key_value_tags : GoMap (Option Text) → KeyValueTags
glue_key_value_tags = tags_of_map

abbrev pub greengrass_tags : KeyValueTags → Argument
greengrass_tags = map_tags

abbrev pub greengrass_key_value_tags : GoMap (Option Text) → KeyValueTags
greengrass_key_value_tags = tags_of_map

abbrev pub guardduty_tags : KeyValueTags → Argument
guardduty_tags = map_tags

abbrev pub guardduty_key_value_tags : GoMap (Option Text) → KeyValueTags
guardduty_key_value_tags = tags_of_map

abbrev pub imagebuilder_tags : KeyValueTags → Argument
imagebuilder_tags = map_tags

abbrev pub imagebuilder_key_value_tags : GoMap (Option Text) → KeyValueTags
imagebuilder_key_value_tags = tags_of_map

abbrev pub kafka_tags : KeyValueTags → Argument
kafka_tags = map_tags

abbrev pub kafka_key_value_tags : GoMap (Option Text) → KeyValueTags
kafka_key_value_tags = tags_of_map

abbrev pub kinesisvideo_tags : KeyValueTags → Argument
kinesisvideo_tags = map_tags

abbrev pub kinesisvideo_key_value_tags : GoMap (Option Text) → KeyValueTags
kinesisvideo_key_value_tags = tags_of_map

abbrev pub lambda_tags : KeyValueTags → Argument
lambda_tags = map_tags

abbrev pub lambda_key_value_tags : GoMap (Option Text) → KeyValueTags
lambda_key_value_tags = tags_of_map

abbrev pub macie2_tags : KeyValueTags → Argument
macie2_tags = map_tags

abbrev pub macie2_key_value_tags : GoMap (Option Text) → KeyValueTags
macie2_key_value_tags = tags_of_map

abbrev pub mediaconnect_tags : KeyValueTags → Argument
mediaconnect_tags = map_tags

abbrev pub mediaconnect_key_value_tags : GoMap (Option Text) → KeyValueTags
mediaconnect_key_value_tags = tags_of_map

abbrev pub mediaconvert_tags : KeyValueTags → Argument
mediaconvert_tags = map_tags

abbrev pub mediaconvert_key_value_tags : GoMap (Option Text) → KeyValueTags
mediaconvert_key_value_tags = tags_of_map

abbrev pub medialive_tags : KeyValueTags → Argument
medialive_tags = map_tags

abbrev pub medialive_key_value_tags : GoMap (Option Text) → KeyValueTags
medialive_key_value_tags = tags_of_map

abbrev pub mediapackage_tags : KeyValueTags → Argument
mediapackage_tags = map_tags

abbrev pub mediapackage_key_value_tags : GoMap (Option Text) → KeyValueTags
mediapackage_key_value_tags = tags_of_map

abbrev pub mq_tags : KeyValueTags → Argument
mq_tags = map_tags

abbrev pub mq_key_value_tags : GoMap (Option Text) → KeyValueTags
mq_key_value_tags = tags_of_map
