-- ===== src/KeyValueTags/ControlBucketTags.antt =====
-- internal/keyvaluetags/s3control_tags.go: the tags of a bucket of S3 Control, whose identifier is
-- an ARN with the account.
pub mod Agrees
use terraform_provider_awsut.Prelude.{
  Bool, true, false, ◌&&◌, ◌+◌, Option, none, some, List, [], ◌∷◌, Text, codes, ltb, eqb,
  if◌then◌else◌,
}
use terraform_provider_awsut.Prelude.Error.{Error, wrapped}
use terraform_provider_awsut.Prelude.Go.{
  Outcome, ok, err, Go, Call, Reply, output, failed, continue, ◌>>=◌, pure, or_panic, check,
  labelled,
}
use terraform_provider_awsut.Prelude.Map.{made, size}
use terraform_provider_awsut.KeyValueTags.Data.{KeyValueTags}
use terraform_provider_awsut.KeyValueTags.Filter.{ignore, merge}
use terraform_provider_awsut.KeyValueTags.New.{Source, new}
use terraform_provider_awsut.KeyValueTags.Requests.{Argument, Struct}
use terraform_provider_awsut.KeyValueTags.Generated.SliceTags.FromOrganizations.{
  s3control_tags, s3control_key_value_tags,
}

-- `parse_account` is arn.Parse, of which the program reads AccountID. The other fields are the calls
-- of the client, which take an account and a bucket, and tfawserr.ErrCodeEquals.
pub record ControlConn (W : Type 0) : Type 0 where
  pub parse_account : Text → Reply Text
  pub get_bucket_tagging : Text → Text → W → Reply (List Struct) × W
  pub put_bucket_tagging : Text → Text → Argument → Call W
  pub delete_bucket_tagging : Text → Text → Call W
  pub err_code_equals : Error → Text → Bool

abbrev error_parsing : Text → Error → Error
error_parsing identifier e =
    wrapped (codes "error parsing S3 Control Bucket ARN (%s): %w") (identifier ∷ []) e

abbrev control_error_listing : Text → Error → Error
control_error_listing identifier e =
    wrapped (codes "error listing resource tags (%s): %w") (identifier ∷ []) e

abbrev control_error_setting : Text → Error → Error
control_error_setting identifier e =
    wrapped (codes "error setting resource tags (%s): %w") (identifier ∷ []) e

abbrev control_error_deleting : Text → Error → Error
control_error_deleting identifier e =
    wrapped (codes "error deleting resource tags (%s): %w") (identifier ∷ []) e

unfoldable pub account_of : Text → Reply Text → Outcome Text
account_of identifier (output account_id) = ok account_id
account_of identifier (failed e) = err (error_parsing identifier e)

module _ {W : Type 0} (conn : ControlConn W) where
  abbrev parsed : Text → Go W Text
  parsed identifier w = (account_of identifier (conn.parse_account identifier), w)

  unfoldable pub control_listed : Reply (List Struct) → Outcome KeyValueTags
  control_listed (output tag_set) = ok (s3control_key_value_tags tag_set)
  control_listed (failed e) =
      if conn.err_code_equals e (codes "NoSuchTagSet") then ok (made []) else err e

  unfoldable pub list_in_account : Text → Text → Go W KeyValueTags
  unfolding control_listed
  list_in_account account_id identifier w =
      let answer = conn.get_bucket_tagging account_id identifier w in
      (control_listed answer.0, answer.1)

  unfoldable pub s3control_bucket_list_tags : Text → Go W KeyValueTags
  unfolding list_in_account account_of
  s3control_bucket_list_tags identifier = do
    account_id ← parsed identifier
    list_in_account account_id identifier

  -- The request that is made, if any, once the tags are read.
  unfoldable pub store_in_account :
      Text → Text → KeyValueTags → KeyValueTags → KeyValueTags → Go W (Unit {0})
  store_in_account account_id identifier old_tags new_tags ignored_tags =
      if ltb 0 (size new_tags + size ignored_tags)
      then check (control_error_setting identifier) (
          conn.put_bucket_tagging account_id identifier
            (s3control_tags (merge new_tags ignored_tags)))
      else if ltb 0 (size old_tags) && eqb (size ignored_tags) 0
      then check (control_error_deleting identifier)
          (conn.delete_bucket_tagging account_id identifier)
      else pure tt

  unfoldable pub s3control_bucket_update_tags : Text → Source → Source → Go W (Unit {0})
  unfolding s3control_bucket_list_tags store_in_account account_of
  s3control_bucket_update_tags identifier old_tags_map new_tags_map = do
    account_id ← parsed identifier
    old_tags ← or_panic (new old_tags_map)
    new_tags ← or_panic (new new_tags_map)
    all_tags ← labelled (control_error_listing identifier) (s3control_bucket_list_tags identifier)
    store_in_account account_id identifier old_tags new_tags
        (ignore (ignore all_tags old_tags) new_tags)
