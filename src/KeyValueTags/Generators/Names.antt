-- ===== src/KeyValueTags/Generators/Names.antt =====
-- internal/keyvaluetags/generators/{updatetags,listtags}/main.go: the names of the services.
use terraform_provider_awsut.Prelude.{List, [], ◌∷◌, Text, codes}

abbrev pub update_service_names : List Text
update_service_names =
    (codes "accessanalyzer"
      ∷ codes "acm"
      ∷ codes "acmpca"
      ∷ codes "amplify"
      ∷ codes "apigateway"
      ∷ codes "apigatewayv2"
      ∷ codes "appmesh"
      ∷ codes "apprunner"
      ∷ codes "appstream"
      ∷ codes "appsync"
      ∷ codes "athena"
      ∷ codes "autoscaling"
      ∷ codes "backup"
      ∷ codes "batch"
      ∷ codes "cloud9"
      ∷ codes "cloudfront"
      ∷ codes "cloudhsmv2"
      ∷ codes "cloudtrail"
      ∷ codes "cloudwatch"
      ∷ codes "cloudwatchevents"
      ∷ codes "cloudwatchlogs"
      ∷ codes "codeartifact"
      ∷ codes "codecommit"
      ∷ codes "codedeploy"
      ∷ codes "codepipeline"
      ∷ codes "codestarconnections"
      ∷ codes "codestarnotifications"
      ∷ codes "cognitoidentity"
      ∷ codes "cognitoidentityprovider"
      ∷ codes "configservice"
      ∷ codes "databasemigrationservice"
      ∷ codes "dataexchange"
      ∷ codes "datapipeline"
      ∷ codes "datasync"
      ∷ codes "dax"
      ∷ codes "devicefarm"
      ∷ codes "directconnect"
      ∷ codes "directoryservice"
      ∷ codes "dlm"
      ∷ codes "docdb"
      ∷ codes "dynamodb"
      ∷ codes "ec2"
      ∷ codes "ecr"
      ∷ codes "ecs"
      ∷ codes "efs"
      ∷ codes "eks"
      ∷ codes "elasticache"
      ∷ codes "elasticbeanstalk"
      ∷ codes "elasticsearchservice"
      ∷ codes "elb"
      ∷ codes "elbv2"
      ∷ codes "emr"
      ∷ codes "firehose"
      ∷ codes "fsx"
      ∷ codes "gamelift"
      ∷ codes "glacier"
      ∷ codes "globalaccelerator"
      ∷ codes "glue"
      ∷ codes "guardduty"
      ∷ codes "greengrass"
      ∷ codes "imagebuilder"
      ∷ codes "iot"
      ∷ codes "iotanalytics"
      ∷ codes "iotevents"
      ∷ codes "kafka"
      ∷ codes "kinesis"
      ∷ codes "kinesisanalytics"
      ∷ codes "kinesisanalyticsv2"
      ∷ codes "kinesisvideo"
      ∷ codes "kms"
      ∷ codes "lambda"
      ∷ codes "licensemanager"
      ∷ codes "lightsail"
      ∷ codes "mediaconnect"
      ∷ codes "mediaconvert"
      ∷ codes "medialive"
      ∷ codes "mediapackage"
      ∷ codes "mediastore"
      ∷ codes "mq"
      ∷ codes "mwaa"
      ∷ codes "neptune"
      ∷ codes "networkfirewall"
      ∷ codes "networkmanager"
      ∷ codes "opsworks"
      ∷ codes "organizations"
      ∷ codes "pinpoint"
      ∷ codes "qldb"
      ∷ codes "quicksight"
      ∷ codes "ram"
      ∷ codes "rds"
      ∷ codes "redshift"
      ∷ codes "resourcegroups"
      ∷ codes "route53"
      ∷ codes "route53resolver"
      ∷ codes "sagemaker"
      ∷ codes "secretsmanager"
      ∷ codes "securityhub"
      ∷ codes "servicediscovery"
      ∷ codes "schemas"
      ∷ codes "sfn"
      ∷ codes "shield"
      ∷ codes "signer"
      ∷ codes "sns"
      ∷ codes "sqs"
      ∷ codes "ssm"
      ∷ codes "ssoadmin"
      ∷ codes "storagegateway"
      ∷ codes "swf"
      ∷ codes "synthetics"
      ∷ codes "timestreamwrite"
      ∷ codes "transfer"
      ∷ codes "waf"
      ∷ codes "wafregional"
      ∷ codes "wafv2"
      ∷ codes "worklink"
      ∷ codes "workspaces"
      ∷ codes "xray"
      ∷ [])

abbrev pub list_service_names : List Text
list_service_names =
    (codes "accessanalyzer"
      ∷ codes "acm"
      ∷ codes "acmpca"
      ∷ codes "amplify"
      ∷ codes "apigatewayv2"
      ∷ codes "appmesh"
      ∷ codes "apprunner"
      ∷ codes "appstream"
      ∷ codes "appsync"
      ∷ codes "athena"
      ∷ codes "autoscaling"
      ∷ codes "backup"
      ∷ codes "batch"
      ∷ codes "cloud9"
      ∷ codes "cloudfront"
      ∷ codes "cloudhsmv2"
      ∷ codes "cloudtrail"
      ∷ codes "cloudwatch"
      ∷ codes "cloudwatchevents"
      ∷ codes "cloudwatchlogs"
      ∷ codes "codeartifact"
      ∷ codes "codecommit"
      ∷ codes "codedeploy"
      ∷ codes "codepipeline"
      ∷ codes "codestarconnections"
      ∷ codes "codestarnotifications"
      ∷ codes "cognitoidentity"
      ∷ codes "cognitoidentityprovider"
      ∷ codes "configservice"
      ∷ codes "databasemigrationservice"
      ∷ codes "dataexchange"
      ∷ codes "datasync"
      ∷ codes "dax"
      ∷ codes "devicefarm"
      ∷ codes "directconnect"
      ∷ codes "directoryservice"
      ∷ codes "dlm"
      ∷ codes "docdb"
      ∷ codes "dynamodb"
      ∷ codes "ec2"
      ∷ codes "ecr"
      ∷ codes "ecs"
      ∷ codes "efs"
      ∷ codes "eks"
      ∷ codes "elasticache"
      ∷ codes "elasticbeanstalk"
      ∷ codes "elasticsearchservice"
      ∷ codes "elb"
      ∷ codes "elbv2"
      ∷ codes "firehose"
      ∷ codes "fsx"
      ∷ codes "gamelift"
      ∷ codes "glacier"
      ∷ codes "globalaccelerator"
      ∷ codes "glue"
      ∷ codes "guardduty"
      ∷ codes "greengrass"
      ∷ codes "imagebuilder"
      ∷ codes "inspector"
      ∷ codes "iot"
      ∷ codes "iotanalytics"
      ∷ codes "iotevents"
      ∷ codes "kafka"
      ∷ codes "kinesis"
      ∷ codes "kinesisanalytics"
      ∷ codes "kinesisanalyticsv2"
      ∷ codes "kinesisvideo"
      ∷ codes "kms"
      ∷ codes "lambda"
      ∷ codes "licensemanager"
      ∷ codes "mediaconnect"
      ∷ codes "mediaconvert"
      ∷ codes "medialive"
      ∷ codes "mediapackage"
      ∷ codes "mediastore"
      ∷ codes "mq"
      ∷ codes "neptune"
      ∷ codes "networkfirewall"
      ∷ codes "networkmanager"
      ∷ codes "opsworks"
      ∷ codes "organizations"
      ∷ codes "pinpoint"
      ∷ codes "qldb"
      ∷ codes "quicksight"
      ∷ codes "rds"
      ∷ codes "resourcegroups"
      ∷ codes "route53"
      ∷ codes "route53resolver"
      ∷ codes "sagemaker"
      ∷ codes "securityhub"
      ∷ codes "servicediscovery"
      ∷ codes "schemas"
      ∷ codes "sfn"
      ∷ codes "shield"
      ∷ codes "signer"
      ∷ codes "sns"
      ∷ codes "sqs"
      ∷ codes "ssm"
      ∷ codes "ssoadmin"
      ∷ codes "storagegateway"
      ∷ codes "swf"
      ∷ codes "timestreamwrite"
      ∷ codes "transfer"
      ∷ codes "waf"
      ∷ codes "wafregional"
      ∷ codes "wafv2"
      ∷ codes "worklink"
      ∷ codes "workspaces"
      ∷ codes "xray"
      ∷ [])
