-- ===== src/Provider/OrganizationMembers/GuardDuty/Members.antt =====
-- The GuardDuty resource: what an update, and a creation followed by a deletion, leave.
use terraform_provider_awsut.Prelude.{
  ◌≡◌, refl, ◌∙◌, Bool, true, not, ◌&&◌, ◌||◌, [], ◌∷◌, Text, mem,
}
use terraform_provider_awsut.Prelude.Go.{ok, >>=-eq-ok}
use terraform_provider_awsut.Provider.Slices.{expand_string_list}
use terraform_provider_awsut.Provider.OrganizationMembers.Calls.{Texts}
use terraform_provider_awsut.Provider.OrganizationMembers.GuardDuty.{
  make_guard_duty_account_details, Data, GuardDutyConn, add_guard_duty_organization_members,
  remove_guard_duty_organization_members, guard_duty_change_members, get_member_accounts,
  guard_duty_organization_settings_create, guard_duty_organization_settings_update,
  guard_duty_organization_settings_delete,
}
use terraform_provider_awsut.Provider.OrganizationMembers.Sync.{
  IsLawful, account_ids, after-add_members, after-remove_members, after-change_of_members,
  member_after, ok_of_labelled,
}

account_ids-make : (l : Texts) → account_ids (make_guard_duty_account_details l) ≡ l
unfolding account_ids make_guard_duty_account_details
account_ids-make [] = refl
account_ids-make (a ∷ l) = rw (account_ids-make l)

module _ {W : Type 0} (conn : GuardDutyConn W) (member : W → Text → Bool) (detector_id : Text)
    (lawful : IsLawful (conn.members detector_id) member) where
  after-add :
      (l : Texts) (w : W)
      → (add_guard_duty_organization_members conn detector_id l w).0 ≡ ok tt
      → (a : Text)
      → member (add_guard_duty_organization_members conn detector_id l w).1 a
        ≡ (mem a l || member w a)
  unfolding add_guard_duty_organization_members
  after-add l =
      after-add_members (conn.members detector_id) member lawful l _ make_guard_duty_account_details
        account_ids-make

  after-remove :
      (l : Texts) (w : W)
      → (remove_guard_duty_organization_members conn detector_id l w).0 ≡ ok tt
      → (a : Text)
      → member (remove_guard_duty_organization_members conn detector_id l w).1 a
        ≡ (not (mem a l) && member w a)
  unfolding remove_guard_duty_organization_members
  after-remove l = after-remove_members (conn.members detector_id) member lawful l _ _

  after-change_members :
      (old new : Texts) (w : W)
      → (guard_duty_change_members conn detector_id old new w).0 ≡ ok tt
      → (a : Text)
      → member (guard_duty_change_members conn detector_id old new w).1 a
        ≡ member_after old new a (member w a)
  unfolding guard_duty_change_members
  after-change_members =
      after-change_of_members member (add_guard_duty_organization_members conn detector_id)
        (remove_guard_duty_organization_members conn detector_id) after-add after-remove _ _

module _ {W : Type 0} (conn : GuardDutyConn W) (member : W → Text → Bool) (d : Data)
    (lawful : IsLawful (conn.members d.detector_id) member) (w : W) where
  -- If the member accounts have changed and the update returns no error, then an account among the
  -- new ones is a member if it is not an old one or was a member before; an account that is not
  -- among the new ones is a member if it is not an old one and was a member before.
  pub guard_duty_organization_settings_update-member :
      d.member_accounts_changed ≡ true
      → (guard_duty_organization_settings_update conn d w).0 ≡ ok tt
      → (a : Text)
      → member (guard_duty_organization_settings_update conn d w).1 a
        ≡ member_after
            (expand_string_list d.old_member_accounts)
            (expand_string_list d.member_accounts)
            a
            (member w a)
  unfolding guard_duty_organization_settings_update
  guard_duty_organization_settings_update-member changed h a = rw changed (
      after-change_members conn member d.detector_id lawful
        (expand_string_list d.old_member_accounts) (expand_string_list d.member_accounts) w
        (rw changed at h) a)

  -- If a creation returns data, and making an identifier does nothing to the members, then every
  -- account of the resource is a member and the other accounts are members or not as before.
  pub guard_duty_organization_settings_create-member :
      (d' : Data)
      → ((v : W) (a : Text) → member (conn.new_uuid v).1 a ≡ member v a)
      → (guard_duty_organization_settings_create conn d w).0 ≡ ok d'
      → (a : Text)
      → member (guard_duty_organization_settings_create conn d w).1 a
        ≡ (mem a (get_member_accounts d) || member w a)
  unfolding guard_duty_organization_settings_create
  guard_duty_organization_settings_create-member d' fresh h a =
      let add = add_guard_duty_organization_members conn d.detector_id (get_member_accounts d) in
      let (u, added, rest) = >>=-eq-ok add _ w h in
      rw rest (fresh (add w).1 a ∙ after-add conn member d.detector_id lawful _ w added a)

  -- If a deletion returns no error, then no account of the resource is a member and the other
  -- accounts are members or not as before.
  pub guard_duty_organization_settings_delete-member :
      (guard_duty_organization_settings_delete conn d w).0 ≡ ok tt
      → (a : Text)
      → member (guard_duty_organization_settings_delete conn d w).1 a
        ≡ (not (mem a (get_member_accounts d)) && member w a)
  unfolding guard_duty_organization_settings_delete
  guard_duty_organization_settings_delete-member h =
      after-remove conn member d.detector_id lawful (get_member_accounts d) w (ok_of_labelled _ _ h)
