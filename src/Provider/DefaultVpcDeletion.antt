-- ===== src/Provider/DefaultVpcDeletion.antt =====
-- internal/provider/resource_awsutils_default_vpc_deletion.go and internal/service/ec2/finder. The
-- calls of the AWS SDK are the record `Ec2Conn`.
pub mod Gone
pub mod Created
use terraform_provider_awsut.Prelude.{
  Bool, true, false, not, ◌&&◌, Option, none, some, List, [], ◌∷◌, Text, codes, is_some,
  if◌then◌else◌,
}
use terraform_provider_awsut.Prelude.Error.{Error, wrapped}
use terraform_provider_awsut.Prelude.Go.{
  Outcome, ok, err, Go, Call, Reply, output, failed, continue, ◌>>=◌, ◌>>◌, pure, or_panic, check,
  labelled,
}

abbrev pub no_default_vpc : Text
no_default_vpc = codes "no-default-vpc-found"

-- A slice of pointers to resources, of which the program looks at the identifier: a nil pointer is
-- `none`, and a resource whose identifier is a nil pointer is `some none`.
abbrev pub Found : Type 0
Found = List (Option (Option Text))

-- The Describe calls answer a pointer to their output, which may be nil.
pub record Ec2Conn (W : Type 0) : Type 0 where
  pub describe_default_vpcs : W → Reply (Option Found) × W
  pub describe_internet_gateways : Text → W → Reply (Option Found) × W
  pub describe_subnets : Text → W → Reply (Option Found) × W
  pub detach_internet_gateway : Text → Text → Call W
  pub delete_internet_gateway : Text → Call W
  pub delete_subnet : Option Text → Call W
  pub delete_vpc : Text → Call W

-- The loop that returns the first element that is not nil.
unfoldable pub first_found : Found → Option (Option Text)
first_found [] = none
first_found (none ∷ rest) = first_found rest
first_found (some resource ∷ rest) = some resource

unfoldable pub first_of_output : Reply (Option Found) → Outcome (Option (Option Text))
unfolding first_found
first_of_output (failed e) = err e
first_of_output (output none) = ok none
first_of_output (output (some found)) = ok (first_found found)

-- No subnets are returned if the first is a nil pointer.
unfoldable pub subnets_of_output : Reply (Option Found) → Outcome Found
subnets_of_output (failed e) = err e
subnets_of_output (output none) = ok []
subnets_of_output (output (some [])) = ok []
subnets_of_output (output (some (none ∷ rest))) = ok []
subnets_of_output (output (some (some subnet ∷ rest))) = ok (some subnet ∷ rest)

-- aws.StringValue: a nil pointer reads as the empty string.
abbrev pub string_value : Option Text → Text
string_value none = []
string_value (some s) = s

-- After a failed deletion the message reads `*s.SubnetId`, which panics at nil.
unfoldable pub subnet_outcome : Option Text → Option Error → Outcome (Unit {0})
subnet_outcome subnet_id none = ok tt
subnet_outcome none (some e) = Outcome.panic
subnet_outcome (some id) (some e) =
    err (wrapped (codes "error while deleting EC2 Subnet (%s): %w") (id ∷ []) e)

module _ {W : Type 0} (conn : Ec2Conn W) where
  unfoldable pub vpc_default : Go W (Option (Option Text))
  unfolding first_of_output
  vpc_default w =
      (first_of_output (conn.describe_default_vpcs w).0, (conn.describe_default_vpcs w).1)

  unfoldable pub internet_gateway_for_vpc : Text → Go W (Option (Option Text))
  unfolding first_of_output
  internet_gateway_for_vpc vpc_id w = (
    first_of_output (conn.describe_internet_gateways vpc_id w).0,
    (conn.describe_internet_gateways vpc_id w).1,
  )

  unfoldable pub subnets_for_vpc : Text → Go W Found
  unfolding subnets_of_output
  subnets_for_vpc vpc_id w =
      (subnets_of_output (conn.describe_subnets vpc_id w).0, (conn.describe_subnets vpc_id w).1)

  -- `*ig.InternetGatewayId` panics if the identifier is nil.
  unfoldable pub delete_gateway : Text → Option (Option Text) → Go W (Unit {0})
  delete_gateway vpc_id none = pure tt
  delete_gateway vpc_id (some ig) = do
    igid ← or_panic ig
    check (λ e. wrapped (codes "error while detaching EC2 Internet Gateway (%s): %w") (igid ∷ []) e)
        (conn.detach_internet_gateway igid vpc_id)
    check (λ e. wrapped (codes "error while deleting EC2 Internet Gateway (%s): %w") (igid ∷ []) e)
        (conn.delete_internet_gateway igid)

  unfoldable pub delete_internet_gateway : Text → Go W (Unit {0})
  unfolding delete_gateway internet_gateway_for_vpc
  delete_internet_gateway vpc_id = do
    ig ←
        labelled
          (λ e.
            wrapped (codes "error while looking for EC2 Internet Gateway for VPC (%s): %w")
              (vpc_id ∷ []) e)
          (internet_gateway_for_vpc vpc_id)
    delete_gateway vpc_id ig

  unfoldable pub delete_one_subnet : Option Text → Go W (Unit {0})
  unfolding subnet_outcome
  delete_one_subnet subnet_id w = (
    subnet_outcome subnet_id (conn.delete_subnet subnet_id w).0,
    (conn.delete_subnet subnet_id w).1,
  )

  -- `s.SubnetId` panics if `s` is nil.
  unfoldable pub delete_each_subnet : Found → Go W (Unit {0})
  unfolding delete_one_subnet
  delete_each_subnet [] = pure tt
  delete_each_subnet (none ∷ rest) = or_panic none
  delete_each_subnet (some subnet_id ∷ rest) =
      delete_one_subnet subnet_id >>= λ _. delete_each_subnet rest

  unfoldable pub delete_subnets : Text → Go W (Unit {0})
  unfolding delete_each_subnet subnets_for_vpc
  delete_subnets vpc_id = do
    subnets ←
        labelled
          (λ e.
            wrapped (codes "error while looking for EC2 Subnets for VPC (%s): %w") (vpc_id ∷ []) e)
          (subnets_for_vpc vpc_id)
    delete_each_subnet subnets

  unfoldable pub delete_vpc : Text → Go W (Unit {0})
  delete_vpc vpc_id =
      check (λ e. wrapped (codes "error while deleting EC2 VPC (%s): %w") (vpc_id ∷ []) e)
        (conn.delete_vpc vpc_id)

-- The part of schema.ResourceData that the resource reads and writes.
pub record Data : Type 0 where
  pub id : Text
  pub is_new_resource : Bool

module _ {W : Type 0} (conn : Ec2Conn W) where
  abbrev pub on_world : {A : Type 0} → Go W A → Go (Data × W) A
  on_world m (d, w) = ((m w).0, (d, (m w).1))

  abbrev pub set_id : Text → Go (Data × W) (Unit {0})
  set_id id (d, w) = (ok tt, (record d { id = id }, w))

  -- `if !d.IsNewResource() && vpc != nil { d.SetId("") }`
  abbrev pub refresh : Option (Option Text) → Go (Data × W) (Unit {0})
  refresh vpc (d, w) =
      if not d.is_new_resource && is_some vpc then set_id [] (d, w) else (ok tt, (d, w))

  unfoldable pub default_vpc_deletion_read : Go (Data × W) (Unit {0})
  default_vpc_deletion_read = do vpc ← on_world (vpc_default conn); refresh vpc

  unfoldable pub delete_default : Option (Option Text) → Go (Data × W) (Unit {0})
  delete_default none = do set_id no_default_vpc; default_vpc_deletion_read
  delete_default (some vpc) = do
    on_world (delete_internet_gateway conn (string_value vpc))
    on_world (delete_subnets conn (string_value vpc))
    on_world (delete_vpc conn (string_value vpc))
    set_id (string_value vpc)
    default_vpc_deletion_read

  unfoldable pub default_vpc_deletion_create : Go (Data × W) (Unit {0})
  default_vpc_deletion_create = do vpc ← on_world (vpc_default conn); delete_default vpc

  unfoldable pub default_vpc_deletion_delete : Go (Data × W) (Unit {0})
  default_vpc_deletion_delete = pure tt
