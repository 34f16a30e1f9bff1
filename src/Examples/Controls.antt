-- ===== src/Examples/Controls.antt =====
-- A Security Hub with one standard: reads, a creation and a deletion.
use terraform_provider_awsut.Prelude.{
  ◌≡◌, refl, subst, ap, All, true, false, Option, none, some, [], ◌∷◌, Text, codes, ◌==◌, eq_refl,
  if◌then◌else◌,
}
use terraform_provider_awsut.Prelude.Go.{ok, output}
use terraform_provider_awsut.Provider.ControlDisablement.{
  StandardsControl, Controls, ControlsConn, disabled, enabled, found_in_output, control_of_standard,
  find_control, Data, refresh, search_standards, security_hub_control,
  security_hub_control_disablement_read, security_hub_control_disablement_create,
  security_hub_control_disablement_delete,
}
use terraform_provider_awsut.Provider.ControlDisablement.Status.{
  IsLawful, Reports, security_hub_control_disablement_read-id,
  security_hub_control_disablement_create_lem, security_hub_control_disablement_read-delete,
}

abbrev arn : Text
arn = codes "c"

-- The status of each control.
abbrev Statuses : Type 0
Statuses = Text → Text

abbrev control_of : Statuses → StandardsControl
control_of w = record {
  standards_control_arn = some arn;
  control_status = some (w arn);
  disabled_reason = none;
}

abbrev hub : ControlsConn Statuses
hub = record {
  update_standards_control = λ a s reason w. (none, λ b. if a == b then s else w b);
  get_enabled_standards = λ w. (output (some (some (codes "s")) ∷ []), w);
  describe_standards_controls = λ subscription w. ((some (some (control_of w) ∷ []), none), w);
}

abbrev status : Statuses → Text → Text
status w a = w a

arn_eq : (a : Text) → ◌≡◌ {A = Option Text} (some arn) (some a) → arn ≡ a
arn_eq a h = cc

Reports-control : (w : Statuses) → Reports w (some (control_of w))
Reports-control w a h = ap (λ x. some (w x)) (arn_eq a h)

reports_all :
    (w : Statuses) (controls : Controls)
    → ◌≡◌ {A = Option Controls} (some (some (control_of w) ∷ [])) (some controls)
    → some (control_of w) ∷ [] ≡ controls
reports_all w controls h = cc

hub-IsLawful : IsLawful hub status
hub-IsLawful = record {
  update_status = λ a s reason w h. rw eq_refl;
  standards_status = λ w a. refl;
  describe_status = λ subscription w a. refl;
  describe_reports = λ subscription w controls h.
      subst (All (Reports w)) (reports_all w controls h) (Reports-control w, tt);
}

abbrev all_enabled : Statuses
all_enabled a = enabled

abbrev old_resource : Data
old_resource = record {
  id = arn;
  control_arn = arn;
  reason = [];
  reason_changed = false;
  is_new_resource = false;
}

abbrev new_resource : Data
new_resource = record old_resource { id = []; is_new_resource = true }

reads : (security_hub_control_disablement_read hub (old_resource, all_enabled)).0 ≡ ok tt
unfolding security_hub_control_disablement_read security_hub_control search_standards
    control_of_standard found_in_output find_control refresh ◌==◌
reads = refl

security_hub_control_disablement_read-id_example :
    (security_hub_control_disablement_read hub (old_resource, all_enabled)).1.0.id ≡ []
unfolding ◌==◌
security_hub_control_disablement_read-id_example =
    security_hub_control_disablement_read-id hub status hub-IsLawful old_resource all_enabled refl
      reads

creates : (security_hub_control_disablement_create hub (new_resource, all_enabled)).0 ≡ ok tt
unfolding security_hub_control_disablement_create security_hub_control_disablement_read
    security_hub_control search_standards control_of_standard found_in_output find_control refresh
    ◌==◌
creates = refl

security_hub_control_disablement_create_lem_example :
    (status (security_hub_control_disablement_create hub (new_resource, all_enabled)).1.1 arn
      ≡ disabled)
    × ((security_hub_control_disablement_create hub (new_resource, all_enabled)).1.0.id ≡ arn)
security_hub_control_disablement_create_lem_example =
    security_hub_control_disablement_create_lem hub status hub-IsLawful new_resource all_enabled
      refl creates

abbrev all_disabled : Statuses
all_disabled a = disabled

reads_again :
    (security_hub_control_disablement_read hub
      (old_resource, (security_hub_control_disablement_delete hub old_resource all_disabled).1)).0
    ≡ ok tt
unfolding security_hub_control_disablement_delete security_hub_control_disablement_read
    security_hub_control search_standards control_of_standard found_in_output find_control refresh
    ◌==◌
reads_again = refl

deletes : (security_hub_control_disablement_delete hub old_resource all_disabled).0 ≡ ok tt
unfolding security_hub_control_disablement_delete
deletes = refl

security_hub_control_disablement_read-delete_example :
    (security_hub_control_disablement_read hub (
      old_resource,
      (security_hub_control_disablement_delete hub old_resource all_disabled).1,
    )).1.0.id
    ≡ []
security_hub_control_disablement_read-delete_example =
    security_hub_control_disablement_read-delete hub status hub-IsLawful old_resource all_disabled
      refl deletes reads_again
