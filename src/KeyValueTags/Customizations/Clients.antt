-- ===== src/KeyValueTags/Customizations/Clients.antt =====
-- internal/keyvaluetags/service_generation_customizations.go: `ServiceClientType`.
use terraform_provider_awsut.Prelude.{Option, none, some, [], ◌∷◌, Text, codes}
use terraform_provider_awsut.KeyValueTags.Customizations.{switch}

-- A type of the SDK, by the package whose `New` makes it: the reflection of the Go library.
module _ (type_of_new : Text → Text) where
  -- `none` is a panic.
  unfoldable pub service_client_type : Text → Option Text
  service_client_type service_name =
      switch service_name
        ((codes "accessanalyzer", some (type_of_new (codes "accessanalyzer")))
          ∷ (codes "acm", some (type_of_new (codes "acm")))
          ∷ (codes "acmpca", some (type_of_new (codes "acmpca")))
          ∷ (codes "amplify", some (type_of_new (codes "amplify")))
          ∷ (codes "apigateway", some (type_of_new (codes "apigateway")))
          ∷ (codes "apigatewayv2", some (type_of_new (codes "apigatewayv2")))
          ∷ (codes "appmesh", some (type_of_new (codes "appmesh")))
          ∷ (codes "apprunner", some (type_of_new (codes "apprunner")))
          ∷ (codes "appstream", some (type_of_new (codes "appstream")))
          ∷ (codes "appsync", some (type_of_new (codes "appsync")))
          ∷ (codes "athena", some (type_of_new (codes "athena")))
          ∷ (codes "autoscaling", some (type_of_new (codes "autoscaling")))
          ∷ (codes "backup", some (type_of_new (codes "backup")))
          ∷ (codes "batch", some (type_of_new (codes "batch")))
          ∷ (codes "cloud9", some (type_of_new (codes "cloud9")))
          ∷ (codes "cloudfront", some (type_of_new (codes "cloudfront")))
          ∷ (codes "cloudhsmv2", some (type_of_new (codes "cloudhsmv2")))
          ∷ (codes "cloudtrail", some (type_of_new (codes "cloudtrail")))
          ∷ (codes "cloudwatch", some (type_of_new (codes "cloudwatch")))
          ∷ (codes "cloudwatchevents", some (type_of_new (codes "cloudwatchevents")))
          ∷ (codes "cloudwatchlogs", some (type_of_new (codes "cloudwatchlogs")))
          ∷ (codes "codeartifact", some (type_of_new (codes "codeartifact")))
          ∷ (codes "codecommit", some (type_of_new (codes "codecommit")))
          ∷ (codes "codedeploy", some (type_of_new (codes "codedeploy")))
          ∷ (codes "codepipeline", some (type_of_new (codes "codepipeline")))
          ∷ (codes "codestarconnections", some (type_of_new (codes "codestarconnections")))
          ∷ (codes "codestarnotifications", some (type_of_new (codes "codestarnotifications")))
          ∷ (codes "cognitoidentity", some (type_of_new (codes "cognitoidentity")))
          ∷ (codes "cognitoidentityprovider", some (type_of_new (codes "cognitoidentityprovider")))
          ∷ (codes "configservice", some (type_of_new (codes "configservice")))
          ∷ (
            codes "databasemigrationservice",
            some (type_of_new (codes "databasemigrationservice")),
          )
          ∷ (codes "dataexchange", some (type_of_new (codes "dataexchange")))
          ∷ (codes "datapipeline", some (type_of_new (codes "datapipeline")))
          ∷ (codes "datasync", some (type_of_new (codes "datasync")))
          ∷ (codes "dax", some (type_of_new (codes "dax")))
          ∷ (codes "devicefarm", some (type_of_new (codes "devicefarm")))
          ∷ (codes "directconnect", some (type_of_new (codes "directconnect")))
          ∷ (codes "directoryservice", some (type_of_new (codes "directoryservice")))
          ∷ (codes "dlm", some (type_of_new (codes "dlm")))
          ∷ (codes "docdb", some (type_of_new (codes "docdb")))
          ∷ (codes "dynamodb", some (type_of_new (codes "dynamodb")))
          ∷ (codes "ec2", some (type_of_new (codes "ec2")))
          ∷ (codes "ecr", some (type_of_new (codes "ecr")))
          ∷ (codes "ecs", some (type_of_new (codes "ecs")))
          ∷ (codes "efs", some (type_of_new (codes "efs")))
          ∷ (codes "eks", some (type_of_new (codes "eks")))
          ∷ (codes "elasticache", some (type_of_new (codes "elasticache")))
          ∷ (codes "elasticbeanstalk", some (type_of_new (codes "elasticbeanstalk")))
          ∷ (codes "elasticsearchservice", some (type_of_new (codes "elasticsearchservice")))
          ∷ (codes "elb", some (type_of_new (codes "elb")))
          ∷ (codes "elbv2", some (type_of_new (codes "elbv2")))
          ∷ (codes "emr", some (type_of_new (codes "emr")))
          ∷ (codes "firehose", some (type_of_new (codes "firehose")))
          ∷ (codes "fsx", some (type_of_new (codes "fsx")))
          ∷ (codes "gamelift", some (type_of_new (codes "gamelift")))
          ∷ (codes "glacier", some (type_of_new (codes "glacier")))
          ∷ (codes "globalaccelerator", some (type_of_new (codes "globalaccelerator")))
          ∷ (codes "glue", some (type_of_new (codes "glue")))
          ∷ (codes "guardduty", some (type_of_new (codes "guardduty")))
          ∷ (codes "greengrass", some (type_of_new (codes "greengrass")))
          ∷ (codes "imagebuilder", some (type_of_new (codes "imagebuilder")))
          ∷ (codes "inspector", some (type_of_new (codes "inspector")))
          ∷ (codes "iot", some (type_of_new (codes "iot")))
          ∷ (codes "iotanalytics", some (type_of_new (codes "iotanalytics")))
          ∷ (codes "iotevents", some (type_of_new (codes "iotevents")))
          ∷ (codes "kafka", some (type_of_new (codes "kafka")))
          ∷ (codes "kinesis", some (type_of_new (codes "kinesis")))
          ∷ (codes "kinesisanalytics", some (type_of_new (codes "kinesisanalytics")))
          ∷ (codes "kinesisanalyticsv2", some (type_of_new (codes "kinesisanalyticsv2")))
          ∷ (codes "kinesisvideo", some (type_of_new (codes "kinesisvideo")))
          ∷ (codes "kms", some (type_of_new (codes "kms")))
          ∷ (codes "lambda", some (type_of_new (codes "lambda")))
          ∷ (codes "licensemanager", some (type_of_new (codes "licensemanager")))
          ∷ (codes "lightsail", some (type_of_new (codes "lightsail")))
          ∷ (codes "mediaconnect", some (type_of_new (codes "mediaconnect")))
          ∷ (codes "mediaconvert", some (type_of_new (codes "mediaconvert")))
          ∷ (codes "medialive", some (type_of_new (codes "medialive")))
          ∷ (codes "mediapackage", some (type_of_new (codes "mediapackage")))
          ∷ (codes "mediastore", some (type_of_new (codes "mediastore")))
          ∷ (codes "mq", some (type_of_new (codes "mq")))
          ∷ (codes "mwaa", some (type_of_new (codes "mwaa")))
          ∷ (codes "neptune", some (type_of_new (codes "neptune")))
          ∷ (codes "networkfirewall", some (type_of_new (codes "networkfirewall")))
          ∷ (codes "networkmanager", some (type_of_new (codes "networkmanager")))
          ∷ (codes "opsworks", some (type_of_new (codes "opsworks")))
          ∷ (codes "organizations", some (type_of_new (codes "organizations")))
          ∷ (codes "pinpoint", some (type_of_new (codes "pinpoint")))
          ∷ (codes "qldb", some (type_of_new (codes "qldb")))
          ∷ (codes "quicksight", some (type_of_new (codes "quicksight")))
          ∷ (codes "ram", some (type_of_new (codes "ram")))
          ∷ (codes "rds", some (type_of_new (codes "rds")))
          ∷ (codes "redshift", some (type_of_new (codes "redshift")))
          ∷ (codes "resourcegroups", some (type_of_new (codes "resourcegroups")))
          ∷ (
            codes "resourcegroupstaggingapi",
            some (type_of_new (codes "resourcegroupstaggingapi")),
          )
          ∷ (codes "route53", some (type_of_new (codes "route53")))
          ∷ (codes "route53resolver", some (type_of_new (codes "route53resolver")))
          ∷ (codes "sagemaker", some (type_of_new (codes "sagemaker")))
          ∷ (codes "secretsmanager", some (type_of_new (codes "secretsmanager")))
          ∷ (codes "securityhub", some (type_of_new (codes "securityhub")))
          ∷ (codes "servicediscovery", some (type_of_new (codes "servicediscovery")))
          ∷ (codes "schemas", some (type_of_new (codes "schemas")))
          ∷ (codes "sfn", some (type_of_new (codes "sfn")))
          ∷ (codes "shield", some (type_of_new (codes "shield")))
          ∷ (codes "signer", some (type_of_new (codes "signer")))
          ∷ (codes "sns", some (type_of_new (codes "sns")))
          ∷ (codes "sqs", some (type_of_new (codes "sqs")))
          ∷ (codes "ssm", some (type_of_new (codes "ssm")))
          ∷ (codes "ssoadmin", some (type_of_new (codes "ssoadmin")))
          ∷ (codes "storagegateway", some (type_of_new (codes "storagegateway")))
          ∷ (codes "swf", some (type_of_new (codes "swf")))
          ∷ (codes "synthetics", some (type_of_new (codes "synthetics")))
          ∷ (codes "timestreamwrite", some (type_of_new (codes "timestreamwrite")))
          ∷ (codes "transfer", some (type_of_new (codes "transfer")))
          ∷ (codes "waf", some (type_of_new (codes "waf")))
          ∷ (codes "wafregional", some (type_of_new (codes "wafregional")))
          ∷ (codes "wafv2", some (type_of_new (codes "wafv2")))
          ∷ (codes "worklink", some (type_of_new (codes "worklink")))
          ∷ (codes "workspaces", some (type_of_new (codes "workspaces")))
          ∷ (codes "xray", some (type_of_new (codes "xray")))
          ∷ [])
        none
