-- ===== src/KeyValueTags/Generated/Shapes.antt =====
-- The bodies that the generated functions of internal/keyvaluetags share: those of update_tags_gen.go
-- and list_tags_gen.go.
use terraform_provider_awsut.Prelude.{
  ℕ, not, ◌&&◌, some, List, [], ◌∷◌, ◌++◌, Text, codes, is_empty, if◌then◌else◌,
}
use terraform_provider_awsut.Prelude.Error.{Error}
use terraform_provider_awsut.Prelude.Go.{
  Outcome, ok, err, Go, Reply, output, failed, ◌>>=◌, ◌>>◌, pure, or_panic, when, check,
}
use terraform_provider_awsut.Prelude.Map.{entries}
use terraform_provider_awsut.KeyValueTags.Data.{KeyValueTags}
use terraform_provider_awsut.KeyValueTags.Filter.{removed, updated}
use terraform_provider_awsut.KeyValueTags.New.{Source, new}
use terraform_provider_awsut.KeyValueTags.UpdateTags.{error_untagging, error_tagging}
use terraform_provider_awsut.KeyValueTags.Batches.{chunks}
use terraform_provider_awsut.KeyValueTags.Requests.{
  Argument, structs, text_field, texts_field, Fields, Request, Client,
}

-- The identifier, the type of the resource, which most functions do not take, and the two sets.
abbrev pub UpdateFunction : Type 0 → Type 0
UpdateFunction W = Text → Text → Source → Source → Go W (Unit {0})

-- A request as an operation with the fields that some tags make.
abbrev pub TagRequest : Type 0
TagRequest = Text × (KeyValueTags → Fields)

abbrev pub request_of : Text → TagRequest → KeyValueTags → Request
request_of package_name (operation, fields) tags = record {
  package_name = package_name;
  operation = operation;
  fields = fields tags;
}

module _ {W : Type 0} (client : Client W) (package_name : Text) (identifier : Text) where
  unfoldable pub read_tags :
      (KeyValueTags → KeyValueTags → Go W (Unit {0})) → Source → Source → Go W (Unit {0})
  read_tags update old_tags_map new_tags_map = do
    old_tags ← or_panic (new old_tags_map)
    new_tags ← or_panic (new new_tags_map)
    update old_tags new_tags

  -- One request to untag, and one to tag.
  unfoldable pub update_between_tags :
      TagRequest → TagRequest → KeyValueTags → KeyValueTags → Go W (Unit {0})
  update_between_tags untag tag old_tags new_tags = do
    when (not (is_empty (entries (removed old_tags new_tags)))) (
        check (error_untagging identifier)
          (client (request_of package_name untag (removed old_tags new_tags))))
    when (not (is_empty (entries (updated old_tags new_tags)))) (
        check (error_tagging identifier)
          (client (request_of package_name tag (updated old_tags new_tags))))

  unfoldable pub update_tags : TagRequest → TagRequest → Source → Source → Go W (Unit {0})
  unfolding read_tags update_between_tags
  update_tags untag tag = read_tags (update_between_tags untag tag)

  each_chunk : (Error → Error) → TagRequest → List KeyValueTags → Go W (Unit {0})
  each_chunk describe request [] = pure tt
  each_chunk describe request (tags ∷ rest) =
      check describe (client (request_of package_name request tags)) >>= λ _.
      each_chunk describe request rest

  in_chunks : ℕ → (Error → Error) → TagRequest → KeyValueTags → Go W (Unit {0})
  in_chunks size describe request tags =
      when (not (is_empty (entries tags)))
        do batches ← or_panic (chunks tags size); each_chunk describe request batches

  -- The same with a batch size.
  unfoldable pub update_tags_in_chunks :
      ℕ → TagRequest → TagRequest → Source → Source → Go W (Unit {0})
  unfolding read_tags in_chunks each_chunk
  update_tags_in_chunks size untag tag = read_tags λ old_tags new_tags. do
    in_chunks size (error_untagging identifier) untag (removed old_tags new_tags)
    in_chunks size (error_tagging identifier) tag (updated old_tags new_tags)

  fields_if : KeyValueTags → (KeyValueTags → Fields) → Fields
  fields_if tags fields = if is_empty (entries tags) then [] else fields tags

  -- One request that both tags and untags: its operation, the fields that name the resource, those that
  -- are set from the updated tags, and those from the removed ones.
  unfoldable pub update_tags_at_once :
      Text
      → Fields
      → (KeyValueTags → Fields)
      → (KeyValueTags → Fields)
      → Source
      → Source
      → Go W (Unit {0})
  unfolding read_tags fields_if
  update_tags_at_once operation target to_add to_remove = read_tags λ old_tags new_tags.
      if is_empty (entries (removed old_tags new_tags))
        && is_empty (entries (updated old_tags new_tags))
      then pure tt
      else check (error_tagging identifier) (
          client (record {
            package_name = package_name;
            operation = operation;
            fields =
                target
                ++ fields_if (updated old_tags new_tags) to_add
                ++ fields_if (removed old_tags new_tags) to_remove;
          }))

-- The output of a request that lists tags, as a function of the selectors that lead to the tags: it
-- panics at a nil pointer or an index that is out of range.
abbrev pub ListClient : Type 0 → Type 0 → Type 0
ListClient W A = Request → W → Reply (Text → Outcome A) × W

abbrev pub selected : {A : Type 0} → Text → Reply (Text → Outcome A) → Outcome A
selected selectors (output f) = f selectors
selected selectors (failed e) = err e

abbrev pub read_as : {A : Type 0} → (A → KeyValueTags) → Outcome A → Outcome KeyValueTags
read_as read (ok a) = ok (read a)
read_as read (err e) = err e
read_as read Outcome.panic = Outcome.panic

-- The request, its error, or the tags at the selectors of its output.
unfoldable pub list_tags :
    {W A : Type 0}
    → ListClient W A
    → Text
    → Text
    → Fields
    → (A → KeyValueTags)
    → Text
    → Go W KeyValueTags
list_tags client package_name operation fields read selectors w =
    let answer =
      client (record { package_name = package_name; operation = operation; fields = fields }) w in
    (read_as read (selected selectors answer.0), answer.1)

-- The identifier, and the type of the resource, which most functions do not take.
abbrev pub ListFunction : Type 0 → Type 0 → Type 0
ListFunction W A = ListClient W A → Text → Text → Go W KeyValueTags

-- One filter, with its name and its only value.
abbrev pub filter : Text → Text → Argument
filter name value = structs (
    ((codes "Name", text_field (some name)) ∷ (codes "Values", texts_field (value ∷ [])) ∷ []) ∷ [])
