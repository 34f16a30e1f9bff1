-- ===== src/Examples/Vpc.antt =====
-- The deletion of a default VPC: a small cloud, with and without one.
use terraform_provider_awsut.Prelude.{
  ◌≡◌, refl, Bool, true, false, Option, none, some, [], ◌∷◌, Text, codes, ◌==◌, eq_refl, arith,
  if◌then◌else◌,
}
use terraform_provider_awsut.Prelude.Go.{ok, output}
use terraform_provider_awsut.Provider.DefaultVpcDeletion.{
  Ec2Conn, Found, Data, no_default_vpc, vpc_default, internet_gateway_for_vpc, subnets_for_vpc,
  delete_internet_gateway, delete_each_subnet, delete_subnets, delete_vpc,
  default_vpc_deletion_create, default_vpc_deletion_read, delete_default, delete_gateway,
}
use terraform_provider_awsut.Provider.DefaultVpcDeletion.Gone.{
  Resource, gateway, subnet, vpc, IsLawful, SubnetsGone,
}
use terraform_provider_awsut.Provider.DefaultVpcDeletion.Created.{
  default_vpc_deletion_create-gone, default_vpc_deletion_create-gateway_gone,
  default_vpc_deletion_create-none,
}

abbrev vpc_id : Text
vpc_id = codes "vpc"

abbrev gateway_id : Text
gateway_id = codes "igw"

abbrev subnet_id : Text
subnet_id = codes "s"

-- The resources that exist.
abbrev Cloud : Type 0
Cloud = Resource → Bool

unfoldable same : Resource → Resource → Bool
same (gateway a) (gateway b) = a == b
same (subnet (some a)) (subnet (some b)) = a == b
same (subnet none) (subnet none) = true
same (vpc a) (vpc b) = a == b
same r s = false

same_refl : (r : Resource) → same r r ≡ true
unfolding same
same_refl (gateway a) = eq_refl a
same_refl (subnet (some a)) = eq_refl a
same_refl (subnet none) = refl
same_refl (vpc a) = eq_refl a

abbrev without : Resource → Cloud → Cloud
without r w s = if same r s then false else w s

without_gone : (r : Resource) (w : Cloud) → without r w r ≡ false
without_gone r w = rw same_refl

without_creates : (r s : Resource) (w : Cloud) → w s ≡ false → without r w s ≡ false
without_creates r s w gone = ground arith

abbrev found_if : Bool → Text → Option Found
found_if there id = some (if there then some (some id) ∷ [] else [])

abbrev cloud : Ec2Conn Cloud
cloud = record {
  describe_default_vpcs = λ w. (output (found_if (w (vpc vpc_id)) vpc_id), w);
  describe_internet_gateways = λ id w. (output (found_if (w (gateway gateway_id)) gateway_id), w);
  describe_subnets = λ id w. (output (found_if (w (subnet (some subnet_id))) subnet_id), w);
  detach_internet_gateway = λ gateway_id id w. (none, w);
  delete_internet_gateway = λ id w. (none, without (gateway id) w);
  delete_subnet = λ id w. (none, without (subnet id) w);
  delete_vpc = λ id w. (none, without (vpc id) w);
}

abbrev exists : Cloud → Resource → Bool
exists w r = w r

cloud-IsLawful : IsLawful cloud exists
cloud-IsLawful = record {
  gateway_deleted = λ id w h. without_gone (gateway id) w;
  subnet_deleted = λ id w h. without_gone (subnet id) w;
  vpc_deleted = λ id w h. without_gone (vpc id) w;
  describe_default_vpcs_creates = λ w r h. h;
  describe_subnets_creates = λ id w r h. h;
  delete_subnet_creates = λ id w r h. without_creates (subnet id) r w h;
  delete_vpc_creates = λ id w r h. without_creates (vpc id) r w h;
}

abbrev everything : Cloud
everything r = true

abbrev nothing : Cloud
nothing r = false

abbrev new_resource : Data
new_resource = record { id = []; is_new_resource = true }

abbrev subnet_found : Found
subnet_found = some (some subnet_id) ∷ []

creates : (default_vpc_deletion_create cloud (new_resource, everything)).0 ≡ ok tt
unfolding default_vpc_deletion_create delete_default default_vpc_deletion_read vpc_default
    delete_internet_gateway internet_gateway_for_vpc delete_subnets subnets_for_vpc delete_vpc
    delete_each_subnet delete_gateway same ◌==◌
creates = refl

vpc_is_found : (vpc_default cloud everything).0 ≡ ok (some (some vpc_id))
unfolding vpc_default
vpc_is_found = refl

subnet_is_found :
    (subnets_for_vpc cloud vpc_id
      (delete_internet_gateway cloud vpc_id (vpc_default cloud everything).1).1).0
    ≡ ok subnet_found
unfolding vpc_default delete_internet_gateway internet_gateway_for_vpc subnets_for_vpc
    delete_gateway same
subnet_is_found = refl

default_vpc_deletion_create-gone_example :
    (exists (default_vpc_deletion_create cloud (new_resource, everything)).1.1 (vpc vpc_id) ≡ false)
    × SubnetsGone
        (exists (default_vpc_deletion_create cloud (new_resource, everything)).1.1)
        subnet_found
    × ((default_vpc_deletion_create cloud (new_resource, everything)).1.0.id ≡ vpc_id)
default_vpc_deletion_create-gone_example =
    default_vpc_deletion_create-gone cloud exists cloud-IsLawful new_resource everything
      (some vpc_id) subnet_found vpc_is_found subnet_is_found refl creates

gateway_is_found :
    (internet_gateway_for_vpc cloud vpc_id (vpc_default cloud everything).1).0
    ≡ ok (some (some gateway_id))
unfolding vpc_default internet_gateway_for_vpc
gateway_is_found = refl

default_vpc_deletion_create-gateway_gone_example :
    exists (default_vpc_deletion_create cloud (new_resource, everything)).1.1 (gateway gateway_id)
    ≡ false
default_vpc_deletion_create-gateway_gone_example =
    default_vpc_deletion_create-gateway_gone cloud exists cloud-IsLawful new_resource everything
      (some vpc_id) gateway_id vpc_is_found gateway_is_found creates

no_vpc_is_found : (vpc_default cloud nothing).0 ≡ ok none
unfolding vpc_default
no_vpc_is_found = refl

default_vpc_deletion_create-none_example :
    ((default_vpc_deletion_create cloud (new_resource, nothing)).1.1
      ≡ (vpc_default cloud (vpc_default cloud nothing).1).1)
    × ((default_vpc_deletion_create cloud (new_resource, nothing)).1.0.id ≡ no_default_vpc)
default_vpc_deletion_create-none_example =
    default_vpc_deletion_create-none cloud new_resource nothing no_vpc_is_found refl
