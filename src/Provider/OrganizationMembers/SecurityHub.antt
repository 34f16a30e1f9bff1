-- ===== src/Provider/OrganizationMembers/SecurityHub.antt =====
-- internal/provider/resource_awsutils_security_hub_organization_settings.go, and the finder that
-- reads the setting, internal/service/securityhub/finder/finder.go. The calls of the AWS SDK and
-- uuid.New are the record `SecurityHubConn`.
pub mod Settings
use terraform_provider_awsut.Prelude.{
  Bool, true, false, not, Option, none, some, List, [], ◌∷◌, Text, codes, is_empty,
}
use terraform_provider_awsut.Prelude.Error.{Error, formatted}
use terraform_provider_awsut.Prelude.Go.{
  Outcome, ok, err, Go, Call, Reply, output, failed, continue, ◌>>=◌, ◌>>◌, pure, when, check,
  labelled,
}
use terraform_provider_awsut.Prelude.Value.{Value}
use terraform_provider_awsut.Provider.Slices.{diff, expand_string_list}
use terraform_provider_awsut.Provider.OrganizationMembers.Calls.{
  AccountDetail, MembersConn, Texts, process, ask, add_members, remove_members,
}

-- `auto_enable_new_accounts` answers the new value of the attribute, and the two flags are
-- `d.HasChange`.
pub record Data : Type 0 where
  pub id : Text
  pub old_member_accounts : List Value
  pub member_accounts : List Value
  pub member_accounts_changed : Bool
  pub auto_enable_new_accounts : Bool
  pub auto_enable_changed : Bool

-- DescribeOrganizationConfiguration answers `AutoEnable`, a pointer that may be nil.
pub record SecurityHubConn (W : Type 0) : Type 0 where
  pub members : MembersConn W
  pub update_organization_configuration : Bool → Call W
  pub describe_organization_configuration : W → Reply (Option Bool) × W
  pub new_uuid : W → Text × W

unfoldable pub make_account_details : Texts → List AccountDetail
make_account_details [] = []
make_account_details (account ∷ accounts) =
    record { account_id = account; email = none } ∷ make_account_details accounts

-- `return *settings.AutoEnable, err`: a nil pointer is a panic.
unfoldable pub auto_enable_of : Reply (Option Bool) → Outcome Bool
auto_enable_of (failed e) = err e
auto_enable_of (output none) = Outcome.panic
auto_enable_of (output (some enabled)) = ok enabled

module _ {W : Type 0} (conn : SecurityHubConn W) where
  unfoldable pub security_hub_organization_settings_auto_enabled : Go W Bool
  unfolding auto_enable_of
  security_hub_organization_settings_auto_enabled w = (
    auto_enable_of (conn.describe_organization_configuration w).0,
    (conn.describe_organization_configuration w).1,
  )

  unfoldable pub update_security_hub_organization_settings : Bool → Go W (Unit {0})
  update_security_hub_organization_settings auto_enable =
      check
        (λ e.
          formatted (codes "error updating security hub administrator account settings: %s") [] e)
        (conn.update_organization_configuration auto_enable)

  unfoldable pub add_security_hub_organization_members : Texts → Go W (Unit {0})
  unfolding add_members process make_account_details
  add_security_hub_organization_members =
      add_members (codes "error designating security hub administrator account members: %s")
        make_account_details conn.members

  unfoldable pub remove_security_hub_organization_members : Texts → Go W (Unit {0})
  unfolding remove_members process ask
  remove_security_hub_organization_members =
      remove_members (codes "error disassociating security hub administrator account members: %s")
        (codes "error removing security hub administrator account members: %s") conn.members

  -- The methods act on the data together with the world: what is set before an error stays set.
  abbrev pub on_world : {A : Type 0} → Go W A → Go (Data × W) A
  on_world m (d, w) = ((m w).0, (d, (m w).1))

  abbrev pub set_id : (W → Text × W) → Go (Data × W) (Unit {0})
  set_id fresh (d, w) = (ok tt, (record d { id = (fresh w).0 }, (fresh w).1))

  abbrev pub set_auto_enable : Bool → Go (Data × W) (Unit {0})
  set_auto_enable enabled (d, w) = (ok tt, (record d { auto_enable_new_accounts = enabled }, w))

  unfoldable pub security_hub_organization_settings_read : Go (Data × W) (Unit {0})
  security_hub_organization_settings_read = do
    enabled ← on_world (
        labelled
          (λ e. formatted (codes "error reading security hub organization settings: %s") [] e)
          security_hub_organization_settings_auto_enabled)
    set_auto_enable enabled

  abbrev with_data : {A : Type 0} → (Data → Go (Data × W) A) → Go (Data × W) A
  with_data body (d, w) = body d (d, w)

  unfoldable pub security_hub_organization_settings_create : Go (Data × W) (Unit {0})
  security_hub_organization_settings_create = with_data λ d. do
    on_world (add_security_hub_organization_members (expand_string_list d.member_accounts))
    on_world (update_security_hub_organization_settings d.auto_enable_new_accounts)
    set_id conn.new_uuid
    security_hub_organization_settings_read

  unfoldable pub security_hub_change_members : Texts → Texts → Go W (Unit {0})
  security_hub_change_members old new = do
    when (not (is_empty (diff new old))) (
        labelled (λ e. formatted (codes "error setting security hub organization members: %s") [] e)
          (add_security_hub_organization_members (diff new old)))
    when (not (is_empty (diff old new))) (
        labelled
          (λ e. formatted (codes "error removing security hub organization members: %s") [] e)
          (remove_security_hub_organization_members (diff old new)))

  unfoldable pub security_hub_organization_settings_update : Data → Go W (Unit {0})
  security_hub_organization_settings_update d = do
    when d.auto_enable_changed (
        labelled
          (λ e. formatted (codes "error updating security hub organization settings: %s") [] e)
          (update_security_hub_organization_settings d.auto_enable_new_accounts))
    when d.member_accounts_changed (
        security_hub_change_members (expand_string_list d.old_member_accounts)
          (expand_string_list d.member_accounts))

  unfoldable pub security_hub_organization_settings_delete : Data → Go W (Unit {0})
  security_hub_organization_settings_delete d = pure tt
