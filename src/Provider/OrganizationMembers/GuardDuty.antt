-- ===== src/Provider/OrganizationMembers/GuardDuty.antt =====
-- internal/provider/resource_awsutils_guardduty_organization_settings.go. The calls of the AWS SDK
-- and uuid.New are the record `GuardDutyConn`; the record `Data` is the schema.ResourceData.
pub mod Members
use terraform_provider_awsut.Prelude.{
  Bool, true, false, not, Option, none, some, List, [], ◌∷◌, Text, codes, is_empty,
}
use terraform_provider_awsut.Prelude.Error.{Error, formatted}
use terraform_provider_awsut.Prelude.Go.{
  Outcome, ok, Go, continue, ◌>>=◌, ◌>>◌, pure, when, labelled,
}
use terraform_provider_awsut.Prelude.Value.{Value}
use terraform_provider_awsut.Provider.Slices.{diff, expand_string_list}
use terraform_provider_awsut.Provider.OrganizationMembers.Calls.{
  AccountDetail, MembersConn, Texts, process, ask, add_members, remove_members,
}

make_detail : Text → AccountDetail
make_detail account = record {
  account_id = account;
  email = some (codes "notused2join@awsorganization.com");
}

unfoldable pub make_guard_duty_account_details : Texts → List AccountDetail
unfolding make_detail
make_guard_duty_account_details [] = []
make_guard_duty_account_details (account ∷ accounts) =
    make_detail account ∷ make_guard_duty_account_details accounts

-- The part of schema.ResourceData that the resource reads and writes. `d.Get` answers the new
-- value; `member_accounts_changed` is `d.HasChange("member_accounts")`.
pub record Data : Type 0 where
  pub id : Text
  pub detector_id : Text
  pub old_member_accounts : List Value
  pub member_accounts : List Value
  pub member_accounts_changed : Bool

-- The client of GuardDuty for each detector, and the source of fresh identifiers.
pub record GuardDutyConn (W : Type 0) : Type 0 where
  pub members : Text → MembersConn W
  pub new_uuid : W → Text × W

unfoldable pub get_member_accounts : Data → Texts
get_member_accounts d = expand_string_list d.member_accounts

module _ {W : Type 0} (conn : GuardDutyConn W) where
  unfoldable pub add_guard_duty_organization_members : Text → Texts → Go W (Unit {0})
  unfolding add_members process make_guard_duty_account_details
  add_guard_duty_organization_members detector_id =
      add_members (codes "error designating guardduty administrator account members: %s")
        make_guard_duty_account_details (conn.members detector_id)

  unfoldable pub remove_guard_duty_organization_members : Text → Texts → Go W (Unit {0})
  unfolding remove_members process ask
  remove_guard_duty_organization_members detector_id =
      remove_members (codes "error disassociating guardduty administrator account members: %s")
        (codes "error removing guardduty administrator account members: %s")
        (conn.members detector_id)

  -- `d.SetId(uuid.New().String())`, and the read, which does nothing.
  set_new_id : Data → Go W Data
  set_new_id d w = (ok (record d { id = (conn.new_uuid w).0 }), (conn.new_uuid w).1)

  -- The methods answer the data that they leave; after an error the data are as before.
  unfoldable pub guard_duty_organization_settings_create : Data → Go W Data
  unfolding add_guard_duty_organization_members get_member_accounts set_new_id
  guard_duty_organization_settings_create d = do
    add_guard_duty_organization_members d.detector_id (get_member_accounts d)
    set_new_id d

  unfoldable pub guard_duty_change_members : Text → Texts → Texts → Go W (Unit {0})
  guard_duty_change_members detector_id old new = do
    when (not (is_empty (diff new old))) (
        labelled (λ e. formatted (codes "error setting guardduty organization members: %s") [] e)
          (add_guard_duty_organization_members detector_id (diff new old)))
    when (not (is_empty (diff old new))) (
        labelled (λ e. formatted (codes "error removing guardduty organization members: %s") [] e)
          (remove_guard_duty_organization_members detector_id (diff old new)))

  unfoldable pub guard_duty_organization_settings_update : Data → Go W (Unit {0})
  guard_duty_organization_settings_update d = when d.member_accounts_changed (
      guard_duty_change_members d.detector_id (expand_string_list d.old_member_accounts)
        (expand_string_list d.member_accounts))

  unfoldable pub guard_duty_organization_settings_delete : Data → Go W (Unit {0})
  unfolding remove_guard_duty_organization_members get_member_accounts
  guard_duty_organization_settings_delete d =
      labelled (λ e. formatted (codes "error removing guardduty organization members: %s") [] e)
        (remove_guard_duty_organization_members d.detector_id (get_member_accounts d))
