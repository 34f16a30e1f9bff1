-- ===== src/Provider/OrganizationMembers/Sync.antt =====
-- An update brings the members of the organization from the old accounts to the new ones.
use terraform_provider_awsut.Prelude.{
  ◌≡◌, refl, ◌∙◌, inl, inr, Bool, true, false, not, ◌&&◌, ◌||◌, List, [], ◌∷◌, Text, is_empty, mem,
  arith, if◌then◌else◌, Bool-cases,
}
use terraform_provider_awsut.Prelude.Error.{Error}
use terraform_provider_awsut.Prelude.Go.{
  Outcome, ok, err, Go, Reply, output, failed, ◌>>◌, when, labelled, relabel, >>=-eq-ok,
}
use terraform_provider_awsut.Provider.Slices.{diff}
use terraform_provider_awsut.Provider.Slices.Laws.{mem-diff}
use terraform_provider_awsut.Provider.OrganizationMembers.Calls.{
  AccountDetail, MembersConn, Texts, processed, process, answered, ask, add_members, remove_members,
}

unfoldable pub account_ids : List AccountDetail → Texts
account_ids [] = []
account_ids (detail ∷ details) = detail.account_id ∷ account_ids details

-- The documented behaviour of a service over the accounts that are members. Only a call that
-- returns no error is spoken of. CreateMembers and DeleteMembers make and remove members when no account
-- is left unprocessed. DisassociateMembers removes those of the accounts that it does not answer as
-- unprocessed.
pub record IsLawful {W : Type 0} (conn : MembersConn W) (member : W → Text → Bool) : Type 0 where
  pub create_member :
      (details : List AccountDetail) (w : W)
      → (conn.create_members details w).0 ≡ output []
      → (a : Text)
      → member (conn.create_members details w).1 a ≡ (mem a (account_ids details) || member w a)
  pub disassociate_member :
      (accounts unprocessed : Texts) (w : W)
      → (conn.disassociate_members accounts w).0 ≡ output unprocessed
      → (a : Text)
      → member (conn.disassociate_members accounts w).1 a
        ≡ (not (mem a accounts && not (mem a unprocessed)) && member w a)
  pub delete_member :
      (accounts : Texts) (w : W)
      → (conn.delete_members accounts w).0 ≡ output []
      → (a : Text)
      → member (conn.delete_members accounts w).1 a ≡ (not (mem a accounts) && member w a)

output_of_answered :
    (text : Text) (r : Reply (List Text))
    → answered text r ≡ ok tt
    → (unprocessed : Texts) × (r ≡ output unprocessed)
unfolding answered
output_of_answered text (failed e) h = cc
output_of_answered text (output unprocessed) h = (unprocessed, refl)

output_of_processed :
    (text : Text) (r : Reply (List Text)) → processed text r ≡ ok tt → r ≡ output []
unfolding processed
output_of_processed text (failed e) h = cc
output_of_processed text (output []) h = refl
output_of_processed text (output (x ∷ xs)) h = cc

is_empty-mem : (l : Texts) (a : Text) → is_empty l ≡ true → mem a l ≡ false
unfolding mem
is_empty-mem [] a h = refl
is_empty-mem (x ∷ l) a h = cc

module _ {W : Type 0} (conn : MembersConn W) (member : W → Text → Bool)
    (lawful : IsLawful conn member) (accounts : Texts) where
  pub after-add_members :
      (text : Text) (details : Texts → List AccountDetail)
      → ((l : Texts) → account_ids (details l) ≡ l)
      → (w : W) → (add_members text details conn accounts w).0 ≡ ok tt
      → (a : Text)
      → member (add_members text details conn accounts w).1 a ≡ (mem a accounts || member w a)
  unfolding add_members process
  after-add_members text details spec w h a = elim (Bool-cases (is_empty accounts)) [
    | inl nothing ↦ rw (nothing, is_empty-mem accounts a nothing)
    | inr some_accounts ↦ rw some_accounts (
        lawful.create_member (details accounts) w
          (output_of_processed text _ (rw some_accounts at h)) a
        ∙ rw spec)
  ]

  after-delete :
      (removing : Text) (w : W)
      → (process removing (conn.delete_members accounts) w).0 ≡ ok tt
      → (a : Text)
      → member (process removing (conn.delete_members accounts) w).1 a
        ≡ (not (mem a accounts) && member w a)
  unfolding process
  after-delete removing w h a = lawful.delete_member accounts w (output_of_processed removing _ h) a

  pub after-remove_members :
      (disassociating removing : Text) (w : W)
      → (remove_members disassociating removing conn accounts w).0 ≡ ok tt
      → (a : Text)
      → member (remove_members disassociating removing conn accounts w).1 a
        ≡ (not (mem a accounts) && member w a)
  unfolding remove_members ask
  after-remove_members disassociating removing w h a = elim (Bool-cases (is_empty accounts)) [
    | inl nothing ↦ rw (nothing, is_empty-mem accounts a nothing)
    | inr some_accounts ↦
        let first : Go W (Unit {0}) = ask disassociating (conn.disassociate_members accounts) in
        let (u, disassociated, rest) =
          >>=-eq-ok first (λ _. process removing (conn.delete_members accounts)) w
            (rw some_accounts at h) in
        let (unprocessed, replied) = output_of_answered disassociating _ disassociated in
        rw (some_accounts, rest)
          (after-delete removing (first w).1 (rw rest at (rw some_accounts at h)) a
            ∙ ground (arith, lawful.disassociate_member accounts unprocessed w replied a))
  ]

-- A labelled function that returns no error, and what it leaves.
pub ok_of_labelled : (f : Error → Error) (r : Outcome (Unit {0})) → relabel f r ≡ ok tt → r ≡ ok tt
ok_of_labelled f (ok u) h = refl
ok_of_labelled f (err e) h = cc
ok_of_labelled f Outcome.panic h = cc

-- First the new accounts that are not old are added, if there are any, then the old accounts that
-- are not new are removed.
module _ {W : Type 0} (member : W → Text → Bool) (add remove : Texts → Go W (Unit {0}))
    (add_lem : (l : Texts) (w : W)
      → (add l w).0 ≡ ok tt
      → (a : Text) → member (add l w).1 a ≡ (mem a l || member w a))
    (remove_lem : (l : Texts) (w : W)
      → (remove l w).0 ≡ ok tt
      → (a : Text) → member (remove l w).1 a ≡ (not (mem a l) && member w a))
    (f : Error → Error) where
  after-change :
      (change : Go W (Unit {0})) (l : Texts) (w : W)
      → (when (not (is_empty l)) (labelled f change) w).0 ≡ ok tt
      → (is_empty l ≡ true → (when (not (is_empty l)) (labelled f change) w).1 ≡ w)
        × (is_empty l ≡ false
            → ((change w).0 ≡ ok tt)
              × ((when (not (is_empty l)) (labelled f change) w).1 ≡ (change w).1))
  after-change change l w h = (λ e. rw e, λ e. (ok_of_labelled f _ (rw e at h), rw e))

  pub after-when_add :
      (l : Texts) (w : W)
      → (when (not (is_empty l)) (labelled f (add l)) w).0 ≡ ok tt
      → (a : Text)
      → member (when (not (is_empty l)) (labelled f (add l)) w).1 a ≡ (mem a l || member w a)
  after-when_add l w h a = elim (Bool-cases (is_empty l)) [
    | inl e ↦ rw ((after-change (add l) l w h).0 e, is_empty-mem l a e)
    | inr e ↦ let (done, same) = (after-change (add l) l w h).1 e in rw same (add_lem l w done a)
  ]

  pub after-when_remove :
      (l : Texts) (w : W)
      → (when (not (is_empty l)) (labelled f (remove l)) w).0 ≡ ok tt
      → (a : Text)
      → member (when (not (is_empty l)) (labelled f (remove l)) w).1 a
        ≡ (not (mem a l) && member w a)
  after-when_remove l w h a = elim (Bool-cases (is_empty l)) [
    | inl e ↦ rw ((after-change (remove l) l w h).0 e, is_empty-mem l a e)
    | inr e ↦
        let (done, same) = (after-change (remove l) l w h).1 e in rw same (remove_lem l w done a)
  ]

-- What an update of the members from old to new accounts makes of an account.
abbrev pub member_after : Texts → Texts → Text → Bool → Bool
member_after old new a before =
    if mem a new then not (mem a old) || before else not (mem a old) && before

module _ {W : Type 0} (member : W → Text → Bool) (add remove : Texts → Go W (Unit {0}))
    (add_lem : (l : Texts) (w : W)
      → (add l w).0 ≡ ok tt
      → (a : Text) → member (add l w).1 a ≡ (mem a l || member w a))
    (remove_lem : (l : Texts) (w : W)
      → (remove l w).0 ≡ ok tt
      → (a : Text) → member (remove l w).1 a ≡ (not (mem a l) && member w a))
    (setting removing : Error → Error) (old new : Texts) where
  abbrev change : Go W (Unit {0})
  change =
      when (not (is_empty (diff new old))) (labelled setting (add (diff new old)))
      >> when (not (is_empty (diff old new))) (labelled removing (remove (diff old new)))

  pub after-change_of_members :
      (w : W)
      → (change w).0 ≡ ok tt
      → (a : Text) → member (change w).1 a ≡ member_after old new a (member w a)
  after-change_of_members w h a =
      let first = when (not (is_empty (diff new old))) (labelled setting (add (diff new old))) in
      let second =
        when (not (is_empty (diff old new))) (labelled removing (remove (diff old new))) in
      let (u, added, rest) = >>=-eq-ok first (λ _. second) w h in
      rw rest (
        after-when_remove member add remove add_lem remove_lem removing (diff old new) (first w).1
          (rw rest at h) a
        ∙ ground (
          arith,
          mem-diff old new a,
          mem-diff new old a,
          after-when_add member add remove add_lem remove_lem setting (diff new old) w added a,
        ))
