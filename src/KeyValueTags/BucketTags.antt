-- ===== src/KeyValueTags/BucketTags.antt =====
-- internal/keyvaluetags/s3_tags.go: the tags of a bucket, which the service stores and replaces as
-- one set. The calls of the AWS SDK are the record `BucketConn`.
pub mod Result
use terraform_provider_awsut.Prelude.{
  ℕ, ◌+◌, Bool, true, false, not, ◌&&◌, Option, none, some, List, [], ◌∷◌, ◌++◌, Text, codes, ltb,
  eqb, if◌then◌else◌,
}
use terraform_provider_awsut.Prelude.Error.{Error, wrapped}
use terraform_provider_awsut.Prelude.Go.{
  Outcome, ok, err, Go, Call, continue, ◌>>=◌, ◌>>◌, pure, fail, or_panic, check, labelled, Reply,
  output, failed,
}
use terraform_provider_awsut.Prelude.Map.{GoMap, Entries, made, entries, size, insert}
use terraform_provider_awsut.KeyValueTags.Data.{TagData, KeyValueTags}
use terraform_provider_awsut.KeyValueTags.Filter.{ignore, merge}
use terraform_provider_awsut.KeyValueTags.Access.{to_map}
use terraform_provider_awsut.KeyValueTags.New.{Source, from_pointers, new}
use terraform_provider_awsut.KeyValueTags.UpdateTags.{tag_list}

-- GetBucketTagging answers the tags with their values, which may be nil; PutBucketTagging replaces
-- all tags of the bucket; DeleteBucketTagging removes them. `err_code_equals` is
-- tfawserr.ErrCodeEquals.
pub record BucketConn (W : Type 0) : Type 0 where
  pub get_bucket_tagging : Text → W → Reply (Entries (Option Text)) × W
  pub put_bucket_tagging : Text → Entries Text → Call W
  pub delete_bucket_tagging : Text → Call W
  pub err_code_equals : Error → Text → Bool

abbrev pub err_code_no_such_tag_set : Text
err_code_no_such_tag_set = codes "NoSuchTagSet"

unfoldable pub s3_tags : KeyValueTags → Entries Text
unfolding tag_list
s3_tags tags = tag_list (entries (to_map tags))

-- `for _, tag := range tags { m[aws.StringValue(tag.Key)] = tag.Value }`
unfoldable pub collect : Entries (Option Text) → Entries (Option Text) → Entries (Option Text)
collect [] m = m
collect ((k, v) ∷ tags) m = collect tags (insert k v m)

unfoldable pub s3_key_value_tags : Entries (Option Text) → KeyValueTags
unfolding collect from_pointers
s3_key_value_tags tags = made (from_pointers (collect tags []))

abbrev pub error_listing : Text → Error → Error
error_listing identifier e =
    wrapped (codes "error listing resource tags (%s): %w") (identifier ∷ []) e

abbrev pub error_setting : Text → Error → Error
error_setting identifier e =
    wrapped (codes "error setting resource tags (%s): %w") (identifier ∷ []) e

abbrev pub error_deleting : Text → Error → Error
error_deleting identifier e =
    wrapped (codes "error deleting resource tags (%s): %w") (identifier ∷ []) e

module _ {W : Type 0} (conn : BucketConn W) where
  unfoldable pub listed : Reply (Entries (Option Text)) → Outcome KeyValueTags
  listed (output tag_set) = ok (s3_key_value_tags tag_set)
  listed (failed e) =
      if conn.err_code_equals e err_code_no_such_tag_set then ok (made []) else err e

  unfoldable pub s3_bucket_list_tags : Text → Go W KeyValueTags
  unfolding listed
  s3_bucket_list_tags identifier w =
      (listed (conn.get_bucket_tagging identifier w).0, (conn.get_bucket_tagging identifier w).1)

  -- `allTags, err := S3BucketListTags(conn, identifier)`, with the error that is returned
  unfoldable pub all_tags_of : Text → Go W KeyValueTags
  unfolding s3_bucket_list_tags
  all_tags_of identifier = labelled (error_listing identifier) (s3_bucket_list_tags identifier)

  -- The request that is made, if any, once the tags are read.
  unfoldable pub store_tags : Text → KeyValueTags → KeyValueTags → KeyValueTags → Go W (Unit {0})
  store_tags identifier old_tags new_tags ignored_tags =
      if ltb 0 (size new_tags + size ignored_tags)
      then check (error_setting identifier)
          (conn.put_bucket_tagging identifier (s3_tags (merge new_tags ignored_tags)))
      else if ltb 0 (size old_tags) && eqb (size ignored_tags) 0
      then check (error_deleting identifier) (conn.delete_bucket_tagging identifier)
      else pure tt

  unfoldable pub s3_bucket_update_tags : Text → Source → Source → Go W (Unit {0})
  unfolding all_tags_of store_tags
  s3_bucket_update_tags identifier old_tags_map new_tags_map = do
    old_tags ← or_panic (new old_tags_map)
    new_tags ← or_panic (new new_tags_map)
    all_tags ← all_tags_of identifier
    store_tags identifier old_tags new_tags (ignore (ignore all_tags old_tags) new_tags)
