-- ===== src/Provider/OrganizationMembers/Calls.antt =====
-- What the two resources share: the calls that add and remove members, from
-- internal/provider/resource_awsutils_guardduty_organization_settings.go and
-- resource_awsutils_security_hub_organization_settings.go.
use terraform_provider_awsut.Prelude.{not, Option, List, [], ◌∷◌, Text, is_empty}
use terraform_provider_awsut.Prelude.Error.{message, formatted}
use terraform_provider_awsut.Prelude.Go.{Outcome, ok, err, Go, Reply, output, failed, ◌>>◌, when}

-- guardduty.AccountDetail and securityhub.AccountDetails, which has no e-mail here.
pub record AccountDetail : Type 0 where
  pub account_id : Text
  pub email : Option Text

-- The calls answer the accounts that they did not process; DisassociateMembers of Security Hub answers
-- none.
pub record MembersConn (W : Type 0) : Type 0 where
  pub create_members : List AccountDetail → W → Reply (List Text) × W
  pub disassociate_members : List Text → W → Reply (List Text) × W
  pub delete_members : List Text → W → Reply (List Text) × W

abbrev pub Texts : Type 0
Texts = List Text

-- `if result, err := call(); err != nil || len(result.UnprocessedAccounts) > 0 { … }`
unfoldable pub processed : Text → Reply (List Text) → Outcome (Unit {0})
processed text (failed e) = err (formatted text [] e)
processed text (output []) = ok tt
processed text (output (account ∷ unprocessed)) = err (message text (account ∷ unprocessed))

-- `if _, err := call(); err != nil { … }`, which ignores the accounts that were not processed.
unfoldable pub answered : Text → Reply (List Text) → Outcome (Unit {0})
answered text (failed e) = err (formatted text [] e)
answered text (output unprocessed) = ok tt

module _ {W : Type 0} where
  unfoldable pub process : Text → (W → Reply (List Text) × W) → Go W (Unit {0})
  unfolding processed
  process text call w = (processed text (call w).0, (call w).1)

  unfoldable pub ask : Text → (W → Reply (List Text) × W) → Go W (Unit {0})
  unfolding answered
  ask text call w = (answered text (call w).0, (call w).1)

  -- The body of both `add…OrganizationMembers`, over the details that the service wants.
  unfoldable pub add_members :
      Text → (Texts → List AccountDetail) → MembersConn W → Texts → Go W (Unit {0})
  add_members text make_account_details conn member_accounts =
      when (not (is_empty member_accounts))
        (process text (conn.create_members (make_account_details member_accounts)))

  -- The body of both `remove…OrganizationMembers`.
  unfoldable pub remove_members : Text → Text → MembersConn W → Texts → Go W (Unit {0})
  remove_members disassociating removing conn member_accounts =
      when (not (is_empty member_accounts)) do
        ask disassociating (conn.disassociate_members member_accounts)
        process removing (conn.delete_members member_accounts)
