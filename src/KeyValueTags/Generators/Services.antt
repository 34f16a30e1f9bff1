-- ===== src/KeyValueTags/Generators/Services.antt =====
-- internal/keyvaluetags/generators/servicetags/main.go: the names of the services, which the
-- generators sort, and how a template makes a Go name of one.
use terraform_provider_awsut.Prelude.{
  Bool, ◌&&◌, List, [], ◌∷◌, ◌-◌, Text, codes, leb, if◌then◌else◌,
}
use terraform_provider_awsut.Prelude.Sort.{sort_strings}

abbrev pub slice_service_names : List Text
slice_service_names =
    (codes "acm"
      ∷ codes "acmpca"
      ∷ codes "appmesh"
      ∷ codes "apprunner"
      ∷ codes "athena"
      ∷ codes "autoscaling"
      ∷ codes "cloud9"
      ∷ codes "cloudformation"
      ∷ codes "cloudfront"
      ∷ codes "cloudhsmv2"
      ∷ codes "cloudtrail"
      ∷ codes "cloudwatch"
      ∷ codes "cloudwatchevents"
      ∷ codes "codeartifact"
      ∷ codes "codebuild"
      ∷ codes "codedeploy"
      ∷ codes "codepipeline"
      ∷ codes "codestarconnections"
      ∷ codes "configservice"
      ∷ codes "databasemigrationservice"
      ∷ codes "datapipeline"
      ∷ codes "datasync"
      ∷ codes "dax"
      ∷ codes "devicefarm"
      ∷ codes "directconnect"
      ∷ codes "directoryservice"
      ∷ codes "docdb"
      ∷ codes "dynamodb"
      ∷ codes "ec2"
      ∷ codes "ecr"
      ∷ codes "ecs"
      ∷ codes "efs"
      ∷ codes "elasticache"
      ∷ codes "elasticbeanstalk"
      ∷ codes "elasticsearchservice"
      ∷ codes "elb"
      ∷ codes "elbv2"
      ∷ codes "emr"
      ∷ codes "firehose"
      ∷ codes "fms"
      ∷ codes "fsx"
      ∷ codes "gamelift"
      ∷ codes "globalaccelerator"
      ∷ codes "iam"
      ∷ codes "inspector"
      ∷ codes "iot"
      ∷ codes "iotanalytics"
      ∷ codes "iotevents"
      ∷ codes "kinesis"
      ∷ codes "kinesisanalytics"
      ∷ codes "kinesisanalyticsv2"
      ∷ codes "kms"
      ∷ codes "licensemanager"
      ∷ codes "lightsail"
      ∷ codes "mediastore"
      ∷ codes "neptune"
      ∷ codes "networkfirewall"
      ∷ codes "networkmanager"
      ∷ codes "organizations"
      ∷ codes "quicksight"
      ∷ codes "ram"
      ∷ codes "rds"
      ∷ codes "redshift"
      ∷ codes "resourcegroupstaggingapi"
      ∷ codes "route53"
      ∷ codes "route53resolver"
      ∷ codes "s3"
      ∷ codes "s3control"
      ∷ codes "sagemaker"
      ∷ codes "secretsmanager"
      ∷ codes "serverlessapplicationrepository"
      ∷ codes "servicecatalog"
      ∷ codes "servicediscovery"
      ∷ codes "sfn"
      ∷ codes "shield"
      ∷ codes "sns"
      ∷ codes "ssm"
      ∷ codes "ssoadmin"
      ∷ codes "storagegateway"
      ∷ codes "swf"
      ∷ codes "timestreamwrite"
      ∷ codes "transfer"
      ∷ codes "waf"
      ∷ codes "wafregional"
      ∷ codes "wafv2"
      ∷ codes "workspaces"
      ∷ codes "xray"
      ∷ [])

abbrev pub map_service_names : List Text
map_service_names =
    (codes "accessanalyzer"
      ∷ codes "amplify"
      ∷ codes "apigateway"
      ∷ codes "apigatewayv2"
      ∷ codes "appstream"
      ∷ codes "appsync"
      ∷ codes "backup"
      ∷ codes "batch"
      ∷ codes "cloudwatchlogs"
      ∷ codes "codecommit"
      ∷ codes "codestarnotifications"
      ∷ codes "cognitoidentity"
      ∷ codes "cognitoidentityprovider"
      ∷ codes "dataexchange"
      ∷ codes "dlm"
      ∷ codes "eks"
      ∷ codes "glacier"
      ∷ codes "glue"
      ∷ codes "guardduty"
      ∷ codes "greengrass"
      ∷ codes "kafka"
      ∷ codes "kinesisvideo"
      ∷ codes "imagebuilder"
      ∷ codes "lambda"
      ∷ codes "macie2"
      ∷ codes "mediaconnect"
      ∷ codes "mediaconvert"
      ∷ codes "medialive"
      ∷ codes "mediapackage"
      ∷ codes "mq"
      ∷ codes "mwaa"
      ∷ codes "opsworks"
      ∷ codes "qldb"
      ∷ codes "pinpoint"
      ∷ codes "resourcegroups"
      ∷ codes "securityhub"
      ∷ codes "schemas"
      ∷ codes "signer"
      ∷ codes "sqs"
      ∷ codes "synthetics"
      ∷ codes "worklink"
      ∷ [])

-- strings.Title of a word in lower case.
unfoldable pub title : Text → Text
title [] = []
title (c ∷ s) = (if leb 97 c && leb c 122 then c - 32 else c) ∷ s

select : (Text → Bool) → List Text → List Text
select keep [] = []
select keep (s ∷ l) = let rest = select keep l in if keep s then s ∷ rest else rest

-- The names in the order of the template, less those that it treats in another way.
unfoldable pub sorted_where : (Text → Bool) → List Text → List Text
unfolding select
sorted_where keep names = select keep (sort_strings names)
