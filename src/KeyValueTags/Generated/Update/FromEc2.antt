-- ===== src/KeyValueTags/Generated/Update/FromEc2.antt =====
-- internal/keyvaluetags/update_tags_gen.go: Ec2UpdateTags to Elbv2UpdateTags.
use terraform_provider_awsut.Prelude.{[], ◌∷◌, codes}
use terraform_provider_awsut.Prelude.Map.{entries}
use terraform_provider_awsut.KeyValueTags.Filter.{ignore_aws}
use terraform_provider_awsut.KeyValueTags.Access.{keys}
use terraform_provider_awsut.KeyValueTags.Requests.{string, string_slice, Client, plain_keys}
use terraform_provider_awsut.KeyValueTags.Generated.Shapes.{
  UpdateFunction, update_tags, update_tags_at_once,
}
use terraform_provider_awsut.KeyValueTags.Generated.MapTags.FromAccessanalyzer.{eks_tags}
use terraform_provider_awsut.KeyValueTags.Generated.SliceTags.FromAcm.{ec2_tags, ecr_tags}
use terraform_provider_awsut.KeyValueTags.Generated.SliceTags.FromEcs.{
  ecs_tags, efs_tags, elasticache_tags, elasticbeanstalk_tags, elasticsearchservice_tags,
  elb_tag_keys, elb_tags, elbv2_tags,
}

module _ {W : Type 0} (client : Client W) where
  abbrev pub ec2_update_tags : UpdateFunction W
  ec2_update_tags identifier _ =
      update_tags client (codes "ec2") identifier
        (
          codes "DeleteTags",
          λ tags.
              (codes "Resources", string_slice (identifier ∷ []))
              ∷ (codes "Tags", ec2_tags (ignore_aws tags))
              ∷ [],
        )
        (
          codes "CreateTags",
          λ tags.
              (codes "Resources", string_slice (identifier ∷ []))
              ∷ (codes "Tags", ec2_tags (ignore_aws tags))
              ∷ [],
        )

  abbrev pub ecr_update_tags : UpdateFunction W
  ecr_update_tags identifier _ =
      update_tags client (codes "ecr") identifier
        (
          codes "UntagResource",
          λ tags.
              (codes "ResourceArn", string identifier) ∷ (codes "TagKeys", plain_keys tags) ∷ [],
        )
        (
          codes "TagResource",
          λ tags.
              (codes "ResourceArn", string identifier)
              ∷ (codes "Tags", ecr_tags (ignore_aws tags))
              ∷ [],
        )

  abbrev pub ecs_update_tags : UpdateFunction W
  ecs_update_tags identifier _ =
      update_tags client (codes "ecs") identifier
        (
          codes "UntagResource",
          λ tags.
              (codes "ResourceArn", string identifier) ∷ (codes "TagKeys", plain_keys tags) ∷ [],
        )
        (
          codes "TagResource",
          λ tags.
              (codes "ResourceArn", string identifier)
              ∷ (codes "Tags", ecs_tags (ignore_aws tags))
              ∷ [],
        )

  abbrev pub efs_update_tags : UpdateFunction W
  efs_update_tags identifier _ =
      update_tags client (codes "efs") identifier
        (
          codes "UntagResource",
          λ tags. (codes "ResourceId", string identifier) ∷ (codes "TagKeys", plain_keys tags) ∷ [],
        )
        (
          codes "TagResource",
          λ tags.
              (codes "ResourceId", string identifier)
              ∷ (codes "Tags", efs_tags (ignore_aws tags))
              ∷ [],
        )

  abbrev pub eks_update_tags : UpdateFunction W
  eks_update_tags identifier _ =
      update_tags client (codes "eks") identifier
        (
          codes "UntagResource",
          λ tags.
              (codes "ResourceArn", string identifier) ∷ (codes "TagKeys", plain_keys tags) ∷ [],
        )
        (
          codes "TagResource",
          λ tags.
              (codes "ResourceArn", string identifier)
              ∷ (codes "Tags", eks_tags (ignore_aws tags))
              ∷ [],
        )

  abbrev pub elasticache_update_tags : UpdateFunction W
  elasticache_update_tags identifier _ =
      update_tags client (codes "elasticache") identifier
        (
          codes "RemoveTagsFromResource",
          λ tags.
              (codes "ResourceName", string identifier) ∷ (codes "TagKeys", plain_keys tags) ∷ [],
        )
        (
          codes "AddTagsToResource",
          λ tags.
              (codes "ResourceName", string identifier)
              ∷ (codes "Tags", elasticache_tags (ignore_aws tags))
              ∷ [],
        )

  abbrev pub elasticbeanstalk_update_tags : UpdateFunction W
  elasticbeanstalk_update_tags identifier _ =
      update_tags_at_once client (codes "elasticbeanstalk") identifier
        (codes "UpdateTagsForResource") ((codes "ResourceArn", string identifier) ∷ [])
        (λ tags. (codes "TagsToAdd", elasticbeanstalk_tags (ignore_aws tags)) ∷ [])
        (λ tags. (codes "TagsToRemove", string_slice (keys (entries tags))) ∷ [])

  abbrev pub elasticsearchservice_update_tags : UpdateFunction W
  elasticsearchservice_update_tags identifier _ =
      update_tags client (codes "elasticsearchservice") identifier
        (
          codes "RemoveTags",
          λ tags. (codes "ARN", string identifier) ∷ (codes "TagKeys", plain_keys tags) ∷ [],
        )
        (
          codes "AddTags",
          λ tags.
              (codes "ARN", string identifier)
              ∷ (codes "TagList", elasticsearchservice_tags (ignore_aws tags))
              ∷ [],
        )

  abbrev pub elb_update_tags : UpdateFunction W
  elb_update_tags identifier _ =
      update_tags client (codes "elb") identifier
        (
          codes "RemoveTags",
          λ tags.
              (codes "LoadBalancerNames", string_slice (identifier ∷ []))
              ∷ (codes "Tags", elb_tag_keys (ignore_aws tags))
              ∷ [],
        )
        (
          codes "AddTags",
          λ tags.
              (codes "LoadBalancerNames", string_slice (identifier ∷ []))
              ∷ (codes "Tags", elb_tags (ignore_aws tags))
              ∷ [],
        )

  abbrev pub elbv2_update_tags : UpdateFunction W
  elbv2_update_tags identifier _ =
      update_tags client (codes "elbv2") identifier
        (
          codes "RemoveTags",
          λ tags.
              (codes "ResourceArns", string_slice (identifier ∷ []))
              ∷ (codes "TagKeys", plain_keys tags)
              ∷ [],
        )
        (
          codes "AddTags",
          λ tags.
              (codes "ResourceArns", string_slice (identifier ∷ []))
              ∷ (codes "Tags", elbv2_tags (ignore_aws tags))
              ∷ [],
        )
