-- ===== src/Provider/ControlDisablement.antt =====
-- internal/provider/resource_awsutils_security_hub_control_disablement.go, and `SecurityHubControl`
-- of internal/service/securityhub/finder/finder.go. The calls of the AWS SDK are the record
-- `ControlsConn`.
pub mod Status
use terraform_provider_awsut.Prelude.{
  Bool, true, false, not, Option, none, some, List, [], ◌∷◌, Text, codes, ◌==◌, if◌then◌else◌,
}
use terraform_provider_awsut.Prelude.Error.{Error, message, formatted}
use terraform_provider_awsut.Prelude.Go.{
  Outcome, ok, err, Go, Call, Reply, output, failed, continue, ◌>>=◌, ◌>>◌, pure, fail, or_panic,
  when, check, labelled,
}

-- securityhub.StandardsControl: its fields are pointers.
pub record StandardsControl : Type 0 where
  pub standards_control_arn : Option Text
  pub control_status : Option Text
  pub disabled_reason : Option Text

-- Slices of pointers, which may be nil.
abbrev pub Controls : Type 0
Controls = List (Option StandardsControl)

-- UpdateStandardsControl takes the ARN, the status and the reason. GetEnabledStandards answers
-- subscriptions, of which the program looks at the ARN. DescribeStandardsControls answers an output
-- and an error, and the program looks at the output first.
pub record ControlsConn (W : Type 0) : Type 0 where
  pub update_standards_control : Text → Text → Option Text → Call W
  pub get_enabled_standards : W → Reply (List (Option (Option Text))) × W
  pub describe_standards_controls : Option Text → W → (Option Controls × Option Error) × W

abbrev pub disabled : Text
disabled = codes "DISABLED"

abbrev pub enabled : Text
enabled = codes "ENABLED"

-- `for _, c := range controls.Controls { if *c.StandardsControlArn == controlArn { return c, nil } }`
unfoldable pub find_control : Text → Controls → Outcome (Option StandardsControl)
find_control control_arn [] = ok none
find_control control_arn (none ∷ controls) = Outcome.panic
find_control control_arn (some c ∷ controls) = elim c.standards_control_arn [
  | none ↦ Outcome.panic
  | some arn ↦ if arn == control_arn then ok (some c) else find_control control_arn controls
]

-- The error counts only when no control was found.
unfoldable pub or_error :
    Outcome (Option StandardsControl) → Option Error → Outcome (Option StandardsControl)
or_error (ok none) (some e) = err e
or_error found e = found

unfoldable pub found_in_output :
    Text → Option Controls → Option Error → Outcome (Option StandardsControl)
unfolding find_control or_error
found_in_output control_arn none e = Outcome.panic
found_in_output control_arn (some controls) e = or_error (find_control control_arn controls) e

module _ {W : Type 0} (conn : ControlsConn W) where
  unfoldable pub control_of_standard : Text → Option Text → Go W (Option StandardsControl)
  control_of_standard control_arn subscription_arn w =
      let answer = conn.describe_standards_controls subscription_arn w in
      (found_in_output control_arn answer.0.0 answer.0.1, answer.1)

  abbrev pub found_or : Option StandardsControl → Go W StandardsControl → Go W StandardsControl
  found_or (some c) next = pure c
  found_or none next = next

  -- The loop over the subscriptions.
  unfoldable pub search_standards : Text → List (Option (Option Text)) → Go W StandardsControl
  unfolding control_of_standard
  search_standards control_arn [] =
      fail (message (codes "%s is not a valid control arn") (control_arn ∷ []))
  search_standards control_arn (none ∷ rest) = or_panic none
  search_standards control_arn (some arn ∷ rest) = control_of_standard control_arn arn >>= λ found.
      found_or found (search_standards control_arn rest)

  abbrev pub standards_of :
      Reply (List (Option (Option Text))) → Outcome (List (Option (Option Text)))
  standards_of (output standards) = ok standards
  standards_of (failed e) = err e

  abbrev pub enabled_standards : Go W (List (Option (Option Text)))
  enabled_standards w =
      (standards_of (conn.get_enabled_standards w).0, (conn.get_enabled_standards w).1)

  unfoldable pub security_hub_control : Text → Go W StandardsControl
  unfolding search_standards
  security_hub_control control_arn = do
    standards ← enabled_standards
    search_standards control_arn standards

-- The part of schema.ResourceData that the resource reads and writes; `reason` answers the new
-- value of the attribute.
pub record Data : Type 0 where
  pub id : Text
  pub control_arn : Text
  pub reason : Text
  pub reason_changed : Bool
  pub is_new_resource : Bool

-- `d.Set("reason", p)`, for a pointer that may be nil: nil sets the empty string.
abbrev reason_of : Option Text → Text
reason_of none = []
reason_of (some reason) = reason

abbrev pub error_disabling : Text → Error → Error
error_disabling control_arn e =
    formatted (codes "error disabling security hub control %s: %s") (control_arn ∷ []) e

abbrev pub error_reading : Text → Error → Error
error_reading control_arn e =
    formatted (codes "error reading security hub control %s: %s") (control_arn ∷ []) e

module _ {W : Type 0} (conn : ControlsConn W) where
  abbrev pub on_world : {A : Type 0} → Go W A → Go (Data × W) A
  on_world m (d, w) = ((m w).0, (d, (m w).1))

  abbrev pub set_id : Text → Go (Data × W) (Unit {0})
  set_id id (d, w) = (ok tt, (record d { id = id }, w))

  abbrev pub set_reason : Text → Go (Data × W) (Unit {0})
  set_reason reason (d, w) = (ok tt, (record d { reason = reason }, w))

  -- `if !d.IsNewResource() && *control.ControlStatus != "DISABLED" { … }`, and what follows it
  unfoldable pub refresh : StandardsControl → Go (Data × W) (Unit {0})
  refresh control (d, w) =
      if d.is_new_resource
      then set_reason (reason_of control.disabled_reason) (d, w)
      else elim control.control_status [
        | none ↦ (Outcome.panic, (d, w))
        | some status ↦
            if status == disabled
            then set_reason (reason_of control.disabled_reason) (d, w)
            else set_id [] (d, w)
      ]

  unfoldable pub security_hub_control_disablement_read : Go (Data × W) (Unit {0})
  security_hub_control_disablement_read (d, w) =
      (on_world (labelled (error_reading d.control_arn) (security_hub_control conn d.control_arn))
          >>= refresh)
        (d, w)

  unfoldable pub security_hub_control_disablement_create : Go (Data × W) (Unit {0})
  unfolding security_hub_control_disablement_read
  security_hub_control_disablement_create (d, w) =
      (do
        on_world (
            check (error_disabling d.control_arn) (
              conn.update_standards_control d.control_arn disabled
                (if d.reason == [] then none else some d.reason)))
        set_id d.control_arn
        security_hub_control_disablement_read)
        (d, w)

  unfoldable pub security_hub_control_disablement_update : Data → Go W (Unit {0})
  security_hub_control_disablement_update d = when d.reason_changed (
      check (error_disabling d.control_arn)
        (conn.update_standards_control d.control_arn disabled (some d.reason)))

  unfoldable pub security_hub_control_disablement_delete : Data → Go W (Unit {0})
  security_hub_control_disablement_delete d =
      check
        (λ e. formatted (codes "error updating security hub control %s: %s") (d.control_arn ∷ []) e)
        (conn.update_standards_control d.control_arn enabled none)
