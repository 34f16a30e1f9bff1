-- ===== src/KeyValueTags/Customizations/Types.antt =====
-- internal/keyvaluetags/service_generation_customizations.go: the functions about the types of tags.
use terraform_provider_awsut.Prelude.{List, [], ◌∷◌, Text, codes}
use terraform_provider_awsut.KeyValueTags.Customizations.{switch}

unfoldable pub service_tag_package : Text → Text
service_tag_package service_name =
    switch service_name ((codes "wafregional", codes "waf") ∷ []) service_name

unfoldable pub service_tag_key_type : Text → Text
service_tag_key_type service_name = switch service_name ((codes "elb", codes "TagKeyOnly") ∷ []) []

unfoldable pub service_tag_resource_type_field : Text → Text
service_tag_resource_type_field service_name =
    switch service_name
      ((codes "autoscaling", codes "ResourceType")
        ∷ (codes "route53", codes "ResourceType")
        ∷ (codes "ssm", codes "ResourceType")
        ∷ (codes "ssoadmin", codes "InstanceArn")
        ∷ [])
      []

unfoldable pub service_tag_type : Text → Text
service_tag_type service_name =
    switch service_name
      ((codes "appmesh", codes "TagRef")
        ∷ (codes "datasync", codes "TagListEntry")
        ∷ (codes "fms", codes "ResourceTag")
        ∷ (codes "s3control", codes "S3Tag")
        ∷ (codes "swf", codes "ResourceTag")
        ∷ [])
      (codes "Tag")

unfoldable pub service_tag_type2 : Text → Text
service_tag_type2 service_name =
    switch service_name
      ((codes "autoscaling", codes "TagDescription") ∷ (codes "ec2", codes "TagDescription") ∷ [])
      []

unfoldable pub service_tag_type_additional_bool_fields : Text → List Text
service_tag_type_additional_bool_fields service_name =
    switch service_name ((codes "autoscaling", (codes "PropagateAtLaunch" ∷ [])) ∷ []) []

unfoldable pub service_tag_type_identifier_field : Text → Text
service_tag_type_identifier_field service_name =
    switch service_name ((codes "autoscaling", codes "ResourceId") ∷ []) []

unfoldable pub service_tag_type_key_field : Text → Text
service_tag_type_key_field service_name =
    switch service_name ((codes "kms", codes "TagKey") ∷ []) (codes "Key")

unfoldable pub service_tag_type_value_field : Text → Text
service_tag_type_value_field service_name =
    switch service_name ((codes "kms", codes "TagValue") ∷ []) (codes "Value")
