-- ===== src/Examples/Batches.antt =====
-- Chunks of three tags.
use terraform_provider_awsut.Prelude.{◌≡◌, ◌≤◌, refl, none, some, List, [], ◌∷◌, codes, ◌==◌, All}
use terraform_provider_awsut.Prelude.Map.{made, size, insert, lookup}
use terraform_provider_awsut.KeyValueTags.Data.{KeyValueTags}
use terraform_provider_awsut.KeyValueTags.Batches.{
  chunks, chunk_loop, untag_each, tag_each, in_batches, kinesis_update_tags,
}
use terraform_provider_awsut.KeyValueTags.Batches.Kinesis.{kinesis_update_tags-InSync}
use terraform_provider_awsut.Prelude.{has_prefix}
use terraform_provider_awsut.Prelude.Go.{ok}
use terraform_provider_awsut.KeyValueTags.Data.{equal}
use terraform_provider_awsut.KeyValueTags.Copy.{copy_if}
use terraform_provider_awsut.KeyValueTags.Filter.{removed, updated}
use terraform_provider_awsut.KeyValueTags.Access.{map_value}
use terraform_provider_awsut.KeyValueTags.New.{new}
use terraform_provider_awsut.Examples.Services.{tag_service, tagged, tag_service-IsLawful}
use terraform_provider_awsut.Examples.Tags.{
  old_source, new_source, old_tags, new_tags, old_read, new_read, arn, tagged_old,
}
use terraform_provider_awsut.KeyValueTags.Batches.Chunks.{chunks_lem}

abbrev three : KeyValueTags
three = made ((codes "a", none) ∷ (codes "b", none) ∷ (codes "c", none) ∷ [])

chunks_lem_example :
    (batches : List KeyValueTags) × (chunks three 10 ≡ some batches)
    × All (λ (c : KeyValueTags). size c ≤ 10) batches
chunks_lem_example = chunks_lem three

-- The last entry is visited first.
abbrev two_chunks : List KeyValueTags
two_chunks = made ((codes "c", none) ∷ (codes "b", none) ∷ []) ∷ made ((codes "a", none) ∷ []) ∷ []

kinesis_succeeds : (kinesis_update_tags tag_service arn old_source new_source tagged_old).0 ≡ ok tt
unfolding kinesis_update_tags in_batches untag_each tag_each chunks chunk_loop new insert ◌==◌
    removed updated equal copy_if lookup
kinesis_succeeds = refl

kinesis_update_tags-InSync_example :
    tagged (kinesis_update_tags tag_service arn old_source new_source tagged_old).1 arn (codes "c")
    ≡ some (codes "4")
unfolding lookup ◌==◌ map_value
kinesis_update_tags-InSync_example =
    kinesis_update_tags-InSync tag_service tagged tag_service-IsLawful arn old_source new_source
      old_tags new_tags tagged_old old_read new_read kinesis_succeeds (λ k _. refl) (codes "c")
      (unfold has_prefix in refl)
