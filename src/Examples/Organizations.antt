-- ===== src/Examples/Organizations.antt =====
-- The organizations of GuardDuty and Security Hub: updates, creations and a deletion; and `Diff`.
use terraform_provider_awsut.Prelude.{
  arith, ◌≡◌, refl, Bool, true, false, Option, none, some, List, [], ◌∷◌, Text, codes, ◌==◌, mem,
}
use terraform_provider_awsut.Prelude.Go.{ok, output, Reply}
use terraform_provider_awsut.Prelude.Value.{Value, string_value}
use terraform_provider_awsut.Provider.Slices.Laws.{mem-diff}
use terraform_provider_awsut.Provider.Slices.{diff, expand_string_list}
use terraform_provider_awsut.Provider.OrganizationMembers.Calls.{MembersConn}
use terraform_provider_awsut.Provider.OrganizationMembers.Sync.{IsLawful}
use terraform_provider_awsut.Provider.OrganizationMembers.GuardDuty
use terraform_provider_awsut.Provider.OrganizationMembers.GuardDuty.{
  GuardDutyConn, add_guard_duty_organization_members, remove_guard_duty_organization_members,
  guard_duty_change_members, guard_duty_organization_settings_create,
  guard_duty_organization_settings_update, guard_duty_organization_settings_delete,
}
use terraform_provider_awsut.Provider.OrganizationMembers.GuardDuty.Members.{
  guard_duty_organization_settings_update-member, guard_duty_organization_settings_create-member,
  guard_duty_organization_settings_delete-member,
}
use terraform_provider_awsut.Provider.OrganizationMembers.SecurityHub
use terraform_provider_awsut.Provider.OrganizationMembers.SecurityHub.{
  SecurityHubConn, security_hub_change_members, security_hub_organization_settings_create,
  security_hub_organization_settings_update,
}
use terraform_provider_awsut.Provider.OrganizationMembers.SecurityHub.Settings.{
  KeepsSetting, security_hub_organization_settings_update-member,
  security_hub_organization_settings_create_lem,
}
use terraform_provider_awsut.Examples.Services.{
  organization, is_member, organization-IsLawful, same_output,
}

abbrev fresh_id : Text
fresh_id = codes "uuid"

abbrev guard_duty : GuardDutyConn (List Text)
guard_duty = record { members = λ detector_id. organization; new_uuid = λ w. (fresh_id, w) }

-- The accounts "1" and "2" become "2" and "3".
abbrev before : List Value
before = string_value (codes "1") ∷ string_value (codes "2") ∷ []

abbrev after : List Value
after = string_value (codes "2") ∷ string_value (codes "3") ∷ []

abbrev world : List Text
world = codes "1" ∷ codes "2" ∷ codes "9" ∷ []

abbrev settings : GuardDuty.Data
settings = record {
  id = [];
  detector_id = codes "d";
  old_member_accounts = before;
  member_accounts = after;
  member_accounts_changed = true;
}

guard_duty_updates : (guard_duty_organization_settings_update guard_duty settings world).0 ≡ ok tt
unfolding guard_duty_organization_settings_update guard_duty_change_members expand_string_list diff
    ◌==◌ add_guard_duty_organization_members remove_guard_duty_organization_members
guard_duty_updates = refl

guard_duty_organization_settings_update-member_example :
    is_member (guard_duty_organization_settings_update guard_duty settings world).1 (codes "1")
    ≡ false
unfolding expand_string_list mem ◌==◌
guard_duty_organization_settings_update-member_example =
    guard_duty_organization_settings_update-member guard_duty is_member settings
      organization-IsLawful world refl guard_duty_updates (codes "1")

abbrev created : GuardDuty.Data
created = record settings { id = fresh_id }

guard_duty_creates :
    (guard_duty_organization_settings_create guard_duty settings world).0 ≡ ok created
unfolding guard_duty_organization_settings_create expand_string_list ◌==◌
guard_duty_creates = refl

guard_duty_organization_settings_create-member_example :
    is_member (guard_duty_organization_settings_create guard_duty settings world).1 (codes "3")
    ≡ true
unfolding expand_string_list mem ◌==◌ GuardDuty.get_member_accounts
guard_duty_organization_settings_create-member_example =
    guard_duty_organization_settings_create-member guard_duty is_member settings
      organization-IsLawful world created (λ v a. refl) guard_duty_creates (codes "3")

guard_duty_deletes : (guard_duty_organization_settings_delete guard_duty settings world).0 ≡ ok tt
unfolding guard_duty_organization_settings_delete expand_string_list ◌==◌
guard_duty_deletes = refl

guard_duty_organization_settings_delete-member_example :
    is_member (guard_duty_organization_settings_delete guard_duty settings world).1 (codes "2")
    ≡ false
unfolding expand_string_list mem ◌==◌ GuardDuty.get_member_accounts
guard_duty_organization_settings_delete-member_example =
    guard_duty_organization_settings_delete-member guard_duty is_member settings
      organization-IsLawful world guard_duty_deletes (codes "2")

-- Security Hub: the members and the setting.
abbrev Hub : Type 0
Hub = List Text × Bool

abbrev hub_members : MembersConn Hub
hub_members = record {
  create_members = λ details w. (
    (organization.create_members details w.0).0,
    ((organization.create_members details w.0).1, w.1),
  );
  disassociate_members = λ accounts w. (output [], (diff w.0 accounts, w.1));
  delete_members = λ accounts w. (
    (organization.delete_members accounts w.0).0,
    ((organization.delete_members accounts w.0).1, w.1),
  );
}

abbrev hub : SecurityHubConn Hub
hub = record {
  members = hub_members;
  update_organization_configuration = λ enabled w. (none, (w.0, enabled));
  describe_organization_configuration = λ w. (output (some w.1), w);
  new_uuid = λ w. (fresh_id, w);
}

abbrev in_hub : Hub → Text → Bool
in_hub w a = is_member w.0 a

abbrev hub_enabled : Hub → Bool
hub_enabled w = w.1

hub-IsLawful : IsLawful hub_members in_hub
unfolding mem
hub-IsLawful = record {
  create_member = λ details w h a. organization-IsLawful.create_member details w.0 h a;
  disassociate_member = λ accounts unprocessed w h a.
      rw (← same_output [] unprocessed h) (ground (arith, mem-diff w.0 accounts a));
  delete_member = λ accounts w h a. organization-IsLawful.delete_member accounts w.0 h a;
}

enabled_of_output :
    (b c : Bool) → ◌≡◌ {A = Reply (Option Bool)} (output (some c)) (output (some b)) → b ≡ c
enabled_of_output b c h = cc

hub-KeepsSetting : KeepsSetting hub in_hub hub_enabled
hub-KeepsSetting = record {
  update_enabled = λ b w h. refl;
  update_member = λ b w a. refl;
  describe_enabled = λ b w h. enabled_of_output b w.1 h;
  describe_keeps = λ w. refl;
  describe_member = λ w a. refl;
  uuid_enabled = λ w. refl;
  uuid_member = λ w a. refl;
}

abbrev hub_settings : SecurityHub.Data
hub_settings = record {
  id = [];
  old_member_accounts = before;
  member_accounts = after;
  member_accounts_changed = true;
  auto_enable_new_accounts = true;
  auto_enable_changed = true;
}

abbrev hub_world : Hub
hub_world = (world, false)

hub_updates : (security_hub_organization_settings_update hub hub_settings hub_world).0 ≡ ok tt
unfolding security_hub_organization_settings_update security_hub_change_members expand_string_list
    diff ◌==◌ SecurityHub.update_security_hub_organization_settings
    SecurityHub.add_security_hub_organization_members
    SecurityHub.remove_security_hub_organization_members
hub_updates = refl

security_hub_organization_settings_update-member_example :
    in_hub (security_hub_organization_settings_update hub hub_settings hub_world).1 (codes "9")
    ≡ true
unfolding expand_string_list mem ◌==◌
security_hub_organization_settings_update-member_example =
    security_hub_organization_settings_update-member hub in_hub hub_enabled hub-IsLawful
      hub-KeepsSetting hub_settings hub_world refl hub_updates (codes "9")

hub_creates : (security_hub_organization_settings_create hub (hub_settings, hub_world)).0 ≡ ok tt
unfolding security_hub_organization_settings_create
    SecurityHub.security_hub_organization_settings_read
    SecurityHub.security_hub_organization_settings_auto_enabled expand_string_list ◌==◌
    SecurityHub.update_security_hub_organization_settings
    SecurityHub.add_security_hub_organization_members
hub_creates = refl

security_hub_organization_settings_create_lem_example :
    (in_hub
        (security_hub_organization_settings_create hub (hub_settings, hub_world)).1.1
        (codes "3")
      ≡ true)
    × (hub_enabled (security_hub_organization_settings_create hub (hub_settings, hub_world)).1.1
        ≡ true)
    × ((security_hub_organization_settings_create hub
          (hub_settings, hub_world)).1.0.auto_enable_new_accounts
        ≡ true)
unfolding expand_string_list mem ◌==◌
security_hub_organization_settings_create_lem_example =
    security_hub_organization_settings_create_lem hub in_hub hub_enabled hub-IsLawful
      hub-KeepsSetting hub_settings hub_world hub_creates (codes "3")
