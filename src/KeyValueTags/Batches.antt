-- ===== src/KeyValueTags/Batches.antt =====
-- internal/keyvaluetags/key_value_tags.go: `Chunks`; and KinesisUpdateTags of update_tags_gen.go, which
-- makes its requests in batches of ten tags.
pub mod Chunks
pub mod Kinesis
use terraform_provider_awsut.Prelude.{
  ℕ, suc, ◌+◌, ◌%◌, Bool, true, false, not, ◌&&◌, Option, none, some, List, [], ◌∷◌, ◌++◌, Text,
  is_empty, eqb, if◌then◌else◌,
}
use terraform_provider_awsut.Prelude.Go.{
  Outcome, Go, Call, continue, ◌>>=◌, ◌>>◌, pure, or_panic, when, check,
}
use terraform_provider_awsut.Prelude.Map.{Entries, made, entries, insert}
use terraform_provider_awsut.KeyValueTags.Data.{TagData, KeyValueTags}
use terraform_provider_awsut.KeyValueTags.Filter.{ignore_aws, removed, updated}
use terraform_provider_awsut.KeyValueTags.Access.{keys, to_map}
use terraform_provider_awsut.KeyValueTags.New.{Source, new}
use terraform_provider_awsut.KeyValueTags.UpdateTags.{TagConn, error_untagging, error_tagging}

abbrev pub Tags : Type 0
Tags = Entries (Option TagData)

-- `chunk[k] = v`, in the chunk that was begun last.
unfoldable pub add_to_chunk : Text → Option TagData → List Tags → List Tags
add_to_chunk k v [] = []
add_to_chunk k v (chunk ∷ result) = insert k v chunk ∷ result

-- The chunks, the one that was begun last first, and the number of tags in them.
unfoldable pub chunk_loop : ℕ → Tags → ℕ × List Tags
unfolding add_to_chunk
chunk_loop size [] = (0, [])
chunk_loop size ((k, v) ∷ tags) =
    let before = chunk_loop size tags in
    (
      suc before.0,
      if eqb (before.0 % size) 0 then insert k v [] ∷ before.1 else add_to_chunk k v before.1,
    )

unfoldable pub in_order : List Tags → List KeyValueTags
in_order [] = []
in_order (chunk ∷ result) = in_order result ++ made chunk ∷ []

-- `none` is the panic of `i%size` at zero.
unfoldable pub chunks : KeyValueTags → ℕ → Option (List KeyValueTags)
unfolding chunk_loop in_order
chunks tags size =
    if eqb size 0 && not (is_empty (entries tags))
    then none
    else some (in_order (chunk_loop size (entries tags)).1)

module _ {W : Type 0} (conn : TagConn W) (identifier : Text) where
  unfoldable pub untag_each : List KeyValueTags → Go W (Unit {0})
  untag_each [] = pure tt
  untag_each (removed_tags ∷ rest) =
      check (error_untagging identifier)
        (conn.untag_resource identifier (keys (entries (ignore_aws removed_tags))))
      >>= λ _. untag_each rest

  unfoldable pub tag_each : List KeyValueTags → Go W (Unit {0})
  tag_each [] = pure tt
  tag_each (updated_tags ∷ rest) =
      check (error_tagging identifier)
        (conn.tag_resource identifier (entries (to_map (ignore_aws updated_tags))))
      >>= λ _. tag_each rest

  unfoldable pub in_batches : (List KeyValueTags → Go W (Unit {0})) → KeyValueTags → Go W (Unit {0})
  in_batches request tags =
      when (not (is_empty (entries tags))) do batches ← or_panic (chunks tags 10); request batches

  unfoldable pub kinesis_update_tags : Source → Source → Go W (Unit {0})
  unfolding in_batches untag_each tag_each chunks
  kinesis_update_tags old_tags_map new_tags_map = do
    old_tags ← or_panic (new old_tags_map)
    new_tags ← or_panic (new new_tags_map)
    in_batches untag_each (removed old_tags new_tags)
    in_batches tag_each (updated old_tags new_tags)
