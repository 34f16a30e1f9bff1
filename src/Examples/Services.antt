-- ===== src/Examples/Services.antt =====
-- Small services that behave as the documentation of the real ones says.
use terraform_provider_awsut.Prelude.{
  ◌≡◌, refl, Bool, false, Option, none, some, List, [], ◌∷◌, ◌++◌, Text, ◌==◌, eq_refl, mem,
  mem-append, arith, if◌then◌else◌,
}
use terraform_provider_awsut.Prelude.Go.{Reply, output}
use terraform_provider_awsut.Prelude.Map.{Entries, lookup, NodupKeys}
use terraform_provider_awsut.KeyValueTags.Copy.{
  or_else, copy_into, lookup-copy_into, copy_into-NodupKeys,
}
use terraform_provider_awsut.KeyValueTags.Lookups.{map_option}
use terraform_provider_awsut.KeyValueTags.UpdateTags.{TagConn}
use terraform_provider_awsut.KeyValueTags.UpdateTags.Sync
use terraform_provider_awsut.KeyValueTags.BucketTags.{BucketConn}
use terraform_provider_awsut.KeyValueTags.BucketTags.Result
use terraform_provider_awsut.Provider.Slices.{diff}
use terraform_provider_awsut.Provider.Slices.Laws.{mem-diff}
use terraform_provider_awsut.Provider.OrganizationMembers.Calls.{MembersConn}
use terraform_provider_awsut.Provider.OrganizationMembers.Sync.{IsLawful, account_ids}

-- Tags of resources, as a function.
abbrev pub Tagged : Type 0
Tagged = Text → Text → Option Text

abbrev pub tag_service : TagConn Tagged
tag_service = record {
  untag_resource = λ identifier tag_keys w.
      (none, λ i k. if i == identifier then if mem k tag_keys then none else w i k else w i k);
  tag_resource = λ identifier tags w.
      (none, λ i k. if i == identifier then or_else (lookup k tags) (w i k) else w i k);
}

abbrev pub tagged : Tagged → Text → Text → Option Text
tagged w i k = w i k

pub tag_service-IsLawful : Sync.IsLawful tag_service tagged
tag_service-IsLawful = record {
  untag_lookup = λ identifier tag_keys w h k. rw eq_refl;
  tag_lookup = λ identifier tags w u h k. rw eq_refl;
}

-- One bucket.
unfoldable pub answers : Entries Text → Entries (Option Text)
answers [] = []
answers ((k, v) ∷ w) = (k, some v) ∷ answers w

lookup-answers : (k : Text) (w : Entries Text) → lookup k (answers w) ≡ map_option some (lookup k w)
unfolding answers lookup
lookup-answers k [] = refl
lookup-answers k ((j, v) ∷ w) = ground (arith, lookup-answers k w)

answers-NodupKeys : (w : Entries Text) → NodupKeys w → NodupKeys (answers w)
unfolding answers
answers-NodupKeys [] u = tt
answers-NodupKeys ((j, v) ∷ w) (fresh, u) = (rw (lookup-answers, fresh), answers-NodupKeys w u)

abbrev pub bucket : BucketConn (Entries Text)
bucket = record {
  get_bucket_tagging = λ identifier w. (output (answers (copy_into w [])), w);
  put_bucket_tagging = λ identifier tags w. (none, tags);
  delete_bucket_tagging = λ identifier w. (none, []);
  err_code_equals = λ e code. false;
}

abbrev pub in_bucket : Entries Text → Text → Text → Option Text
in_bucket w identifier k = lookup k w

answered :
    (w : Entries Text) (tags : Entries (Option Text))
    → ◌≡◌ {A = Reply (Entries (Option Text))} (output (answers (copy_into w []))) (output tags)
    → answers (copy_into w []) ≡ tags
answered w tags h = cc

pub bucket-IsLawful : Result.IsLawful bucket in_bucket
bucket-IsLawful = record {
  get_unique = λ identifier w tags h.
      rw (← answered w tags h) (answers-NodupKeys (copy_into w []) (copy_into-NodupKeys w [] tt));
  get_lookup = λ identifier w tags h k.
      rw (← answered w tags h, lookup-answers, lookup-copy_into) (unfold lookup in ground arith);
  get_none = λ identifier w e h g k. cc;
  get_keeps = λ identifier w k. refl;
  put_lookup = λ identifier tags w u h k. refl;
  delete_lookup = λ identifier w h k. unfold lookup in refl;
}

-- The members of an organization, as a list. Accounts that cannot be disassociated are answered as
-- unprocessed, and can be deleted all the same.
abbrev pub organization : MembersConn (List Text)
organization = record {
  create_members = λ details w. (output [], account_ids details ++ w);
  disassociate_members = λ accounts w. (output accounts, w);
  delete_members = λ accounts w. (output [], diff w accounts);
}

abbrev pub is_member : List Text → Text → Bool
is_member w a = mem a w

pub same_output : (l m : List Text) → ◌≡◌ {A = Reply (List Text)} (output l) (output m) → l ≡ m
same_output l m h = cc

pub organization-IsLawful : IsLawful organization is_member
unfolding mem
organization-IsLawful = record {
  create_member = λ details w h a. mem-append a (account_ids details) w;
  disassociate_member =
      λ accounts unprocessed w h a. rw (← same_output accounts unprocessed h) (ground arith);
  delete_member = λ accounts w h a. ground (arith, mem-diff w accounts a);
}
