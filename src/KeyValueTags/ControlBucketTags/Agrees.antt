-- ===== src/KeyValueTags/ControlBucketTags/Agrees.antt =====
-- The functions of S3 Control do what those of S3 do in the account of the ARN.
use terraform_provider_awsut.Prelude.{
  ◌≡◌, refl, inl, inr, Option-cases, Option, some, List, [], ◌∷◌, ◌++◌, Text, codes,
}
use terraform_provider_awsut.Prelude.Go.{Outcome, Reply, output, failed, continue, relabel}
use terraform_provider_awsut.Prelude.Map.{Entries, entries}
use terraform_provider_awsut.KeyValueTags.Access.{to_map}
use terraform_provider_awsut.KeyValueTags.New.{Source, new}
use terraform_provider_awsut.KeyValueTags.UpdateTags.{tag_list}
use terraform_provider_awsut.KeyValueTags.Requests.{
  Struct, text_field, structs, structs_of, pairs_of, tags_of_structs,
}
use terraform_provider_awsut.KeyValueTags.BucketTags.{
  BucketConn, s3_tags, s3_key_value_tags, listed, s3_bucket_update_tags, all_tags_of,
  s3_bucket_list_tags, store_tags, error_listing,
}
use terraform_provider_awsut.KeyValueTags.Data.{KeyValueTags}
use terraform_provider_awsut.KeyValueTags.Filter.{ignore, merge}
use terraform_provider_awsut.KeyValueTags.ControlBucketTags.{
  ControlConn, account_of, control_listed, list_in_account, store_in_account,
  s3control_bucket_list_tags, s3control_bucket_update_tags,
}

-- The structs of a tag set.
unfoldable pub tag_set_of : Entries Text → List Struct
tag_set_of [] = []
tag_set_of ((k, v) ∷ tags) =
    ((codes "Key", text_field (some k)) ∷ (codes "Value", text_field (some v)) ∷ [])
    ∷ tag_set_of tags

abbrev pub read_tag_set : Reply (List Struct) → Reply (Entries (Option Text))
read_tag_set (output tag_set) = output (pairs_of (codes "Key") (codes "Value") tag_set)
read_tag_set (failed e) = failed e

-- The calls for one account, over the keys and the values of the tags.
abbrev pub account_buckets : {W : Type 0} → ControlConn W → Text → BucketConn W
account_buckets conn account_id = record {
  get_bucket_tagging = λ identifier w.
      let answer = conn.get_bucket_tagging account_id identifier w in
      (read_tag_set answer.0, answer.1);
  put_bucket_tagging =
      λ identifier tags. conn.put_bucket_tagging account_id identifier (structs (tag_set_of tags));
  delete_bucket_tagging = λ identifier. conn.delete_bucket_tagging account_id identifier;
  err_code_equals = conn.err_code_equals;
}

tag_set_of-append : (l m : Entries Text) → tag_set_of (l ++ m) ≡ tag_set_of l ++ tag_set_of m
unfolding tag_set_of
tag_set_of-append [] m = refl
tag_set_of-append ((k, v) ∷ l) m = rw (tag_set_of-append l m)

structs_of-tag_list :
    (m : Entries Text) → structs_of (codes "Key") (codes "Value") m ≡ tag_set_of (tag_list m)
unfolding structs_of tag_set_of tag_list
structs_of-tag_list [] = refl
structs_of-tag_list ((k, v) ∷ m) = rw (tag_set_of-append, structs_of-tag_list m)

module _ {W : Type 0} (conn : ControlConn W) (account_id identifier : Text) where
  listed_agree :
      (answer : Reply (List Struct))
      → control_listed conn answer ≡ listed (account_buckets conn account_id) (read_tag_set answer)
  unfolding control_listed listed tags_of_structs s3_key_value_tags
  listed_agree (output tag_set) = refl
  listed_agree (failed e) = refl

  stores_agree :
      (old_tags new_tags ignored_tags : KeyValueTags) (w : W)
      → store_in_account conn account_id identifier old_tags new_tags ignored_tags w
        ≡ store_tags (account_buckets conn account_id) identifier old_tags new_tags ignored_tags w
  unfolding store_in_account store_tags s3_tags
  stores_agree old_tags new_tags ignored_tags w =
      rw (structs_of-tag_list (entries (to_map (merge new_tags ignored_tags))))

  stored_agree :
      (old_tags new_tags : KeyValueTags) (all : Outcome KeyValueTags) (w : W)
      → continue all
          (λ all_tags.
            store_in_account conn account_id identifier old_tags new_tags
              (ignore (ignore all_tags old_tags) new_tags))
          w
        ≡ continue all
            (λ all_tags.
              store_tags
                (account_buckets conn account_id)
                identifier
                old_tags
                new_tags
                (ignore (ignore all_tags old_tags) new_tags))
            w
  stored_agree old_tags new_tags (Outcome.ok all_tags) w = stores_agree old_tags new_tags _ w
  stored_agree old_tags new_tags (Outcome.err e) w = refl
  stored_agree old_tags new_tags Outcome.panic w = refl

  lists_agree :
      (w : W)
      → conn.parse_account identifier ≡ output account_id
      → s3control_bucket_list_tags conn identifier w
        ≡ s3_bucket_list_tags (account_buckets conn account_id) identifier w
  unfolding s3control_bucket_list_tags account_of list_in_account s3_bucket_list_tags
  lists_agree w parsed =
      rw (parsed, listed_agree (conn.get_bucket_tagging account_id identifier w).0)

  asked_agree :
      (old_tags new_tags : KeyValueTags) (read read' : Outcome KeyValueTags × W)
      → read ≡ read'
      → continue
          (relabel (error_listing identifier) read.0)
          (λ all_tags.
            store_in_account conn account_id identifier old_tags new_tags
              (ignore (ignore all_tags old_tags) new_tags))
          read.1
        ≡ continue
            (relabel (error_listing identifier) read'.0)
            (λ all_tags.
              store_tags
                (account_buckets conn account_id)
                identifier
                old_tags
                new_tags
                (ignore (ignore all_tags old_tags) new_tags))
            read'.1
  asked_agree old_tags new_tags read read' same = rw same (stored_agree old_tags new_tags _ _)

-- If the identifier is an ARN, the update of S3 Control is the update of S3 over the calls for the account that
-- the ARN names.
pub s3control_bucket_update_tags-s3_bucket_update_tags :
    {W : Type 0} (conn : ControlConn W) (identifier account_id : Text)
    (old_tags_map new_tags_map : Source) (w : W)
    → conn.parse_account identifier ≡ output account_id
    → s3control_bucket_update_tags conn identifier old_tags_map new_tags_map w
      ≡ s3_bucket_update_tags
          (account_buckets conn account_id)
          identifier
          old_tags_map
          new_tags_map
          w
unfolding s3control_bucket_update_tags s3_bucket_update_tags all_tags_of account_of
s3control_bucket_update_tags-s3_bucket_update_tags conn identifier account_id old_tags_map
      new_tags_map w parsed =
    elim (Option-cases (new old_tags_map)) [
      | inl panics ↦ rw (parsed, panics)
      | inr (old_tags, old_read) ↦ elim (Option-cases (new new_tags_map)) [
        | inl panics ↦ rw (parsed, old_read, panics)
        | inr (new_tags, new_read) ↦
            rw (parsed, old_read, new_read)
              (asked_agree conn account_id identifier old_tags new_tags _ _
                (lists_agree conn account_id identifier w parsed))
      ]
    ]
