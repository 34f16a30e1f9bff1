-- ===== src/Provider/ControlDisablement/Status.antt =====
-- The status of the control that the resource disables, and what a read makes of it.
use terraform_provider_awsut.Prelude.{
  ◌≡◌, refl, subst, ◌∙◌, ap, inl, inr, true, false, Option, none, some, List, [], ◌∷◌, Text, ◌==◌,
  eq_iff, arith, if◌then◌else◌, Bool-cases, Option-cases, All,
}
use terraform_provider_awsut.Prelude.Error.{Error}
use terraform_provider_awsut.Prelude.Go.{
  Outcome, ok, err, Call, check, labelled, relabel, >>=-eq-ok, ok-injective,
}
use terraform_provider_awsut.KeyValueTags.UpdateTags.Sync.{none_of_ok}
use terraform_provider_awsut.Provider.ControlDisablement.{
  StandardsControl, Controls, ControlsConn, disabled, enabled, find_control, or_error,
  found_in_output, control_of_standard, search_standards, enabled_standards, security_hub_control,
  Data, error_disabling, error_reading, on_world, refresh, security_hub_control_disablement_read,
  security_hub_control_disablement_create, security_hub_control_disablement_delete,
}

ok_of_relabel :
    {A : Type 0} (f : Error → Error) (r : Outcome A) (a : A) → relabel f r ≡ ok a → r ≡ ok a
ok_of_relabel f (ok b) a h = h
ok_of_relabel f (err e) a h = cc
ok_of_relabel f Outcome.panic a h = cc

-- A control that the service describes has the status that the service keeps for its ARN.
abbrev pub Reports : (Text → Text) → Option StandardsControl → Type 0
Reports status none = Unit
Reports status (some c) =
    (arn : Text) → c.standards_control_arn ≡ some arn → c.control_status ≡ some (status arn)

-- The documented behaviour of the service over the status of each control.
pub record IsLawful {W : Type 0} (conn : ControlsConn W) (status : W → Text → Text) : Type 0 where
  pub update_status :
      (arn s : Text) (reason : Option Text) (w : W)
      → (conn.update_standards_control arn s reason w).0 ≡ none
      → status (conn.update_standards_control arn s reason w).1 arn ≡ s
  pub standards_status :
      (w : W) (arn : Text) → status (conn.get_enabled_standards w).1 arn ≡ status w arn
  pub describe_status :
      (subscription : Option Text) (w : W) (arn : Text)
      → status (conn.describe_standards_controls subscription w).1 arn ≡ status w arn
  pub describe_reports :
      (subscription : Option Text) (w : W) (controls : Controls)
      → (conn.describe_standards_controls subscription w).0.0 ≡ some controls
      → All (Reports (status w)) controls

find_control_lem :
    (status : Text → Text) (control_arn : Text) (controls : Controls) (c : StandardsControl)
    → All (Reports status) controls
    → find_control control_arn controls ≡ ok (some c)
    → c.control_status ≡ some (status control_arn)
unfolding find_control
find_control_lem status control_arn [] c reports h = cc (ok-injective h)
find_control_lem status control_arn (none ∷ controls) c reports h = cc
find_control_lem status control_arn (some b ∷ controls) c (first, reports) h =
    elim (Option-cases b.standards_control_arn) [
      | inl e ↦ let wrong : Outcome.panic ≡ ok (some c) = rw e at h in cc
      | inr (arn, e) ↦ elim (Bool-cases (arn == control_arn)) [
        | inl same ↦
            let found : ok (some b) ≡ ok (some c) = rw (e, same) at h in
            ground (arith, first arn e, ok-injective found, eq_iff arn control_arn)
        | inr other ↦ find_control_lem status control_arn controls c reports (rw (e, other) at h)
      ]
    ]

found_of_or_error :
    (found : Outcome (Option StandardsControl)) (e : Option Error) (c : StandardsControl)
    → or_error found e ≡ ok (some c)
    → found ≡ ok (some c)
unfolding or_error
found_of_or_error (ok none) none c h = h
found_of_or_error (ok none) (some e) c h = cc
found_of_or_error (ok (some b)) e c h = h
found_of_or_error (err x) e c h = h
found_of_or_error Outcome.panic e c h = h

found_in_output_lem :
    (status : Text → Text) (control_arn : Text) (controls : Option Controls) (e : Option Error)
    (c : StandardsControl)
    → ((cs : Controls) → controls ≡ some cs → All (Reports status) cs)
    → found_in_output control_arn controls e ≡ ok (some c)
    → c.control_status ≡ some (status control_arn)
unfolding found_in_output or_error
found_in_output_lem status control_arn none e c reports h = cc
found_in_output_lem status control_arn (some cs) e c reports h =
    find_control_lem status control_arn cs c (reports cs refl) (found_of_or_error _ e c h)

module _ {W : Type 0} (conn : ControlsConn W) (status : W → Text → Text)
    (lawful : IsLawful conn status) (control_arn : Text) where
  search_standards_lem :
      (standards : List (Option (Option Text))) (w : W) (c : StandardsControl)
      → (search_standards conn control_arn standards w).0 ≡ ok c
      → (c.control_status ≡ some (status w control_arn))
        × (status (search_standards conn control_arn standards w).1 control_arn
            ≡ status w control_arn)
  unfolding search_standards
  search_standards_lem [] w c h = cc
  search_standards_lem (none ∷ rest) w c h = cc
  search_standards_lem (some arn ∷ rest) w c h =
      let (found, described, next) = >>=-eq-ok (control_of_standard conn control_arn arn) _ w h in
      let w1 : W = (conn.describe_standards_controls arn w).1 in
      let kept = lawful.describe_status arn w control_arn in
      elim (Option-cases found) [
        | inl e ↦
            let (reported, same) = search_standards_lem rest w1 c (rw (next, e) at h) in
            rw (next, e) (reported ∙ ap some kept, same ∙ kept)
        | inr (b, e) ↦
            let answer = conn.describe_standards_controls arn w in
            let reported : b.control_status ≡ some (status w control_arn) =
              found_in_output_lem (status w) control_arn answer.0.0 answer.0.1 b
                (lawful.describe_reports arn w) (described ∙ ap ok e) in
            let it : ok b ≡ ok c = rw (next, e) at h in
            rw (next, e)
              (
                subst (λ (x : StandardsControl). x.control_status ≡ some (status w control_arn))
                    (ok-injective it) reported,
                kept,
              )
      ]

  -- A control that the finder returns has the status that the service keeps for the ARN, and
  -- finding it changes no status.
  pub security_hub_control_lem :
      (w : W) (c : StandardsControl)
      → (security_hub_control conn control_arn w).0 ≡ ok c
      → (c.control_status ≡ some (status w control_arn))
        × (status (security_hub_control conn control_arn w).1 control_arn ≡ status w control_arn)
  unfolding security_hub_control
  security_hub_control_lem w c h =
      let (standards, listed, next) = >>=-eq-ok (enabled_standards conn) _ w h in
      let kept = lawful.standards_status w control_arn in
      let (reported, same) =
        search_standards_lem standards (conn.get_enabled_standards w).1 c (rw next at h) in
      rw next (reported ∙ ap some kept, same ∙ kept)

module _ {W : Type 0} (conn : ControlsConn W) (status : W → Text → Text)
    (lawful : IsLawful conn status) where
  -- A read that returns no error has found a control, whose status is the one that the service
  -- keeps.
  read_found :
      (d : Data) (w : W)
      → (security_hub_control_disablement_read conn (d, w)).0 ≡ ok tt
      → (c : StandardsControl) × (v : W) × (c.control_status ≡ some (status w d.control_arn))
        × (status v d.control_arn ≡ status w d.control_arn)
        × (security_hub_control_disablement_read conn (d, w) ≡ refresh conn c (d, v))
  unfolding security_hub_control_disablement_read
  read_found d w h =
      let (c, found, next) =
        >>=-eq-ok
          (on_world conn
            (labelled (error_reading d.control_arn) (security_hub_control conn d.control_arn)))
          (refresh conn) (d, w) h in
      let (reported, same) = security_hub_control_lem conn status lawful d.control_arn w c (
        ok_of_relabel (error_reading d.control_arn) (security_hub_control conn d.control_arn w).0 c
          found) in
      (c, (security_hub_control conn d.control_arn w).1, reported, same, next)

  refresh-old :
      (c : StandardsControl) (s : Text) (d : Data) (v : W)
      → c.control_status ≡ some s
      → d.is_new_resource ≡ false
      → (refresh conn c (d, v)).1.0.id ≡ (if s == disabled then d.id else [])
  unfolding refresh
  refresh-old c s d v reported old = rw (reported, old) (ground arith)

  refresh-new :
      (c : StandardsControl) (d : Data) (v : W)
      → d.is_new_resource ≡ true
      → ((refresh conn c (d, v)).1.0.id ≡ d.id) × ((refresh conn c (d, v)).1.1 ≡ v)
  unfolding refresh
  refresh-new c d v new = rw new (refl, refl)

  module _ (d : Data) (w : W) where
    -- If a read of a resource that is not new returns no error, the resource keeps its identifier
    -- when the control is disabled and loses it when it is not.
    pub security_hub_control_disablement_read-id :
        d.is_new_resource ≡ false
        → (security_hub_control_disablement_read conn (d, w)).0 ≡ ok tt
        → (security_hub_control_disablement_read conn (d, w)).1.0.id
          ≡ (if status w d.control_arn == disabled then d.id else [])
    security_hub_control_disablement_read-id old h =
        let (c, v, reported, same, next) = read_found d w h in
        rw next (refresh-old c (status w d.control_arn) d v reported old)

    -- If the creation of a new resource returns no error, the control is disabled, and the
    -- identifier of the resource is the ARN of the control.
    pub security_hub_control_disablement_create_lem :
        d.is_new_resource ≡ true
        → (security_hub_control_disablement_create conn (d, w)).0 ≡ ok tt
        → (status (security_hub_control_disablement_create conn (d, w)).1.1 d.control_arn
            ≡ disabled)
          × ((security_hub_control_disablement_create conn (d, w)).1.0.id ≡ d.control_arn)
    unfolding security_hub_control_disablement_create
    security_hub_control_disablement_create_lem new h =
        let reason : Option Text = if d.reason == [] then none else some d.reason in
        let call : Call W = conn.update_standards_control d.control_arn disabled reason in
        let (u, updated, next) =
          >>=-eq-ok (on_world conn (check (error_disabling d.control_arn) call)) _ (d, w) h in
        let (c, v, reported, same, read) =
          read_found (record d { id = d.control_arn }) (call w).1 (rw next at h) in
        let (kept, there) = refresh-new c (record d { id = d.control_arn }) v new in
        rw (next, read)
          (
            rw there (
                same
                ∙ lawful.update_status d.control_arn disabled reason w (none_of_ok _ _ updated)),
            kept,
          )

    -- If a deletion returns no error, and then a read of the resource, which is not new, returns
    -- none either, the resource has lost its identifier.
    pub security_hub_control_disablement_read-delete :
        d.is_new_resource ≡ false
        → (security_hub_control_disablement_delete conn d w).0 ≡ ok tt
        → (security_hub_control_disablement_read conn
            (d, (security_hub_control_disablement_delete conn d w).1)).0
          ≡ ok tt
        → (security_hub_control_disablement_read conn
            (d, (security_hub_control_disablement_delete conn d w).1)).1.0.id
          ≡ []
    unfolding security_hub_control_disablement_delete ◌==◌
    security_hub_control_disablement_read-delete old deleted h =
        let (c, v, reported, same, next) =
          read_found d (security_hub_control_disablement_delete conn d w).1 h in
        let now = lawful.update_status d.control_arn enabled none w (none_of_ok _ _ deleted) in
        rw next (refresh-old c enabled d v (reported ∙ ap some now) old)
