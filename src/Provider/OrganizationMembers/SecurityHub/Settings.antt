-- ===== src/Provider/OrganizationMembers/SecurityHub/Settings.antt =====
-- The Security Hub resource: what a creation and an update leave.
use terraform_provider_awsut.Prelude.{
  ◌≡◌, refl, ◌∙◌, inl, inr, Bool, true, not, ◌&&◌, ◌||◌, Option, none, some, [], ◌∷◌, Text, codes,
  mem, Bool-cases,
}
use terraform_provider_awsut.Prelude.Error.{Error, formatted}
use terraform_provider_awsut.Prelude.Go.{
  ok, Go, Reply, output, failed, when, labelled, relabel, >>=-eq-ok, ok-injective, continue-eq-ok,
}
use terraform_provider_awsut.KeyValueTags.UpdateTags.Sync.{none_of_ok}
use terraform_provider_awsut.Provider.Slices.{expand_string_list}
use terraform_provider_awsut.Provider.OrganizationMembers.Calls.{Texts}
use terraform_provider_awsut.Provider.OrganizationMembers.Sync.{
  IsLawful, account_ids, after-add_members, after-remove_members, after-change_of_members,
  member_after,
}
use terraform_provider_awsut.Provider.OrganizationMembers.SecurityHub.{
  make_account_details, Data, SecurityHubConn, auto_enable_of,
  security_hub_organization_settings_auto_enabled, update_security_hub_organization_settings,
  add_security_hub_organization_members, remove_security_hub_organization_members,
  security_hub_change_members, on_world, set_auto_enable, security_hub_organization_settings_read,
  security_hub_organization_settings_create, security_hub_organization_settings_update,
}

account_ids-make : (l : Texts) → account_ids (make_account_details l) ≡ l
unfolding account_ids make_account_details
account_ids-make [] = refl
account_ids-make (a ∷ l) = rw (account_ids-make l)

-- The documented behaviour of the setting: an update that returns no error stores it, a
-- description answers it, and neither touches the members.
pub record KeepsSetting {W : Type 0} (conn : SecurityHubConn W) (member : W → Text → Bool)
    (enabled : W → Bool) : Type 0 where
  pub update_enabled :
      (b : Bool) (w : W)
      → (conn.update_organization_configuration b w).0 ≡ none
      → enabled (conn.update_organization_configuration b w).1 ≡ b
  pub update_member :
      (b : Bool) (w : W) (a : Text)
      → member (conn.update_organization_configuration b w).1 a ≡ member w a
  pub describe_enabled :
      (b : Bool) (w : W)
      → (conn.describe_organization_configuration w).0 ≡ output (some b)
      → b ≡ enabled w
  pub describe_keeps : (w : W) → enabled (conn.describe_organization_configuration w).1 ≡ enabled w
  pub describe_member :
      (w : W) (a : Text) → member (conn.describe_organization_configuration w).1 a ≡ member w a
  pub uuid_enabled : (w : W) → enabled (conn.new_uuid w).1 ≡ enabled w
  pub uuid_member : (w : W) (a : Text) → member (conn.new_uuid w).1 a ≡ member w a

module _ {W : Type 0} (conn : SecurityHubConn W) (member : W → Text → Bool)
    (lawful : IsLawful conn.members member) where
  after-add :
      (l : Texts) (w : W)
      → (add_security_hub_organization_members conn l w).0 ≡ ok tt
      → (a : Text)
      → member (add_security_hub_organization_members conn l w).1 a ≡ (mem a l || member w a)
  unfolding add_security_hub_organization_members
  after-add l =
      after-add_members conn.members member lawful l _ make_account_details account_ids-make

  after-remove :
      (l : Texts) (w : W)
      → (remove_security_hub_organization_members conn l w).0 ≡ ok tt
      → (a : Text)
      → member (remove_security_hub_organization_members conn l w).1 a
        ≡ (not (mem a l) && member w a)
  unfolding remove_security_hub_organization_members
  after-remove l = after-remove_members conn.members member lawful l _ _

  after-change_members :
      (old new : Texts) (w : W)
      → (security_hub_change_members conn old new w).0 ≡ ok tt
      → (a : Text)
      → member (security_hub_change_members conn old new w).1 a
        ≡ member_after old new a (member w a)
  unfolding security_hub_change_members
  after-change_members =
      after-change_of_members member (add_security_hub_organization_members conn)
        (remove_security_hub_organization_members conn) after-add after-remove _ _

output_of_auto_enable :
    (f : Error → Error) (r : Reply (Option Bool)) (b : Bool)
    → relabel f (auto_enable_of r) ≡ ok b
    → r ≡ output (some b)
unfolding auto_enable_of
output_of_auto_enable f (failed e) b h = cc
output_of_auto_enable f (output none) b h = cc
output_of_auto_enable f (output (some c)) b h = cc (ok-injective h)

module _ {W : Type 0} (conn : SecurityHubConn W) (member : W → Text → Bool) (enabled : W → Bool)
    (keeps : KeepsSetting conn member enabled) where
  after-update :
      (b : Bool) (w : W)
      → (update_security_hub_organization_settings conn b w).0 ≡ ok tt
      → ((a : Text) → member (update_security_hub_organization_settings conn b w).1 a ≡ member w a)
        × (enabled (update_security_hub_organization_settings conn b w).1 ≡ b)
  unfolding update_security_hub_organization_settings
  after-update b w h = (keeps.update_member b w, keeps.update_enabled b w (none_of_ok _ _ h))

  after-read :
      (d : Data) (w : W)
      → (security_hub_organization_settings_read conn (d, w)).0 ≡ ok tt
      → ((a : Text)
          → member (security_hub_organization_settings_read conn (d, w)).1.1 a ≡ member w a)
        × (enabled (security_hub_organization_settings_read conn (d, w)).1.1 ≡ enabled w)
        × ((security_hub_organization_settings_read conn (d, w)).1.0.auto_enable_new_accounts
            ≡ enabled w)
  unfolding security_hub_organization_settings_read security_hub_organization_settings_auto_enabled
  after-read d w h =
      let (b, answered, rest) =
        continue-eq-ok
          (relabel
            (λ e. formatted (codes "error reading security hub organization settings: %s") [] e)
            (auto_enable_of (conn.describe_organization_configuration w).0))
          (set_auto_enable conn) (d, (conn.describe_organization_configuration w).1) h in
      rw rest (
        keeps.describe_member w,
        keeps.describe_keeps w,
        keeps.describe_enabled b w (output_of_auto_enable _ _ b answered),
      )

  abbrev setting_first : Data → Go W (Unit {0})
  setting_first d = when d.auto_enable_changed (
      labelled (λ e. formatted (codes "error updating security hub organization settings: %s") [] e)
        (update_security_hub_organization_settings conn d.auto_enable_new_accounts))

  setting_first-member : (d : Data) (w : W) (a : Text) → member (setting_first d w).1 a ≡ member w a
  unfolding update_security_hub_organization_settings
  setting_first-member d w a = elim (Bool-cases d.auto_enable_changed) [
    | inl e ↦ rw e (keeps.update_member d.auto_enable_new_accounts w a)
    | inr e ↦ rw e
  ]

module _ {W : Type 0} (conn : SecurityHubConn W) (member : W → Text → Bool) (enabled : W → Bool)
    (lawful : IsLawful conn.members member) (keeps : KeepsSetting conn member enabled) (d : Data)
    (w : W) where
  -- If the member accounts have changed and the update returns no error, then an account among the
  -- new ones is a member if it is not an old one or was a member before, and an account that is not
  -- among the new ones is a member if it is not an old one and was a member before; whether the
  -- setting was changed too makes no difference.
  pub security_hub_organization_settings_update-member :
      d.member_accounts_changed ≡ true
      → (security_hub_organization_settings_update conn d w).0 ≡ ok tt
      → (a : Text)
      → member (security_hub_organization_settings_update conn d w).1 a
        ≡ member_after
            (expand_string_list d.old_member_accounts)
            (expand_string_list d.member_accounts)
            a
            (member w a)
  unfolding security_hub_organization_settings_update
  security_hub_organization_settings_update-member changed h a =
      let (u, updated, rest) = >>=-eq-ok (setting_first conn member enabled keeps d) _ w h in
      rw (rest, changed)
        (after-change_members conn member lawful _ _ (setting_first conn member enabled keeps d w).1
            (rw (rest, changed) at h) a
          ∙ rw (setting_first-member conn member enabled keeps d w a))

  -- If a creation returns no error, then every account of the resource is a member and the other
  -- accounts are members or not as before; the service has the setting that the attribute asked
  -- for, and the attribute keeps that value.
  pub security_hub_organization_settings_create_lem :
      (security_hub_organization_settings_create conn (d, w)).0 ≡ ok tt
      → (a : Text)
      → (member (security_hub_organization_settings_create conn (d, w)).1.1 a
          ≡ (mem a (expand_string_list d.member_accounts) || member w a))
        × (enabled (security_hub_organization_settings_create conn (d, w)).1.1
            ≡ d.auto_enable_new_accounts)
        × ((security_hub_organization_settings_create conn (d, w)).1.0.auto_enable_new_accounts
            ≡ d.auto_enable_new_accounts)
  unfolding security_hub_organization_settings_create
  security_hub_organization_settings_create_lem h a =
      let add = add_security_hub_organization_members conn (expand_string_list d.member_accounts) in
      let w1 : W = (add w).1 in
      let update = update_security_hub_organization_settings conn d.auto_enable_new_accounts in
      let w2 : W = (update w1).1 in
      let w3 : W = (conn.new_uuid w2).1 in
      let d3 : Data = record d { id = (conn.new_uuid w2).0 } in
      let (u1, added, rest1) = >>=-eq-ok (on_world conn add) _ (d, w) h in
      let (u2, updated, rest2) = >>=-eq-ok (on_world conn update) _ (d, w1) (rw rest1 at h) in
      let whole = rest1 ∙ rest2 in
      let read = after-read conn member enabled keeps d3 w3 (rw whole at h) in
      let stored = after-update conn member enabled keeps d.auto_enable_new_accounts w1 updated in
      rw whole (
        (read.0 a ∙ keeps.uuid_member w2 a ∙ stored.0 a ∙ after-add conn member lawful _ w added a),
        read.1 ∙ keeps.uuid_enabled w2 ∙ stored.1,
        read.2 ∙ keeps.uuid_enabled w2 ∙ stored.1,
      )
