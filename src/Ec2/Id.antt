-- ===== src/Ec2/Id.antt =====
-- internal/service/ec2/id.go: identifiers made of parts, and the functions that take them apart.
pub mod RoundTrip
use terraform_provider_awsut.Prelude.{
  ℕ, Bool, not, ◌&&◌, List, [], ◌∷◌, ◌++◌, Text, codes, ◌==◌, if◌then◌else◌,
}
use terraform_provider_awsut.Prelude.Error.{Error, message}
use terraform_provider_awsut.Prelude.Go.{Outcome, ok, err}
use terraform_provider_awsut.Prelude.Split.{split, join}

abbrev pub comma : ℕ
comma = b','

abbrev pub underscore : ℕ
underscore = b'_'

abbrev pub is_set : Text → Bool
is_set part = not (part == [])

abbrev unexpected_format : Text → Text → Error
unexpected_format text id = message text (id ∷ [])

abbrev pub Triple : Type 0
Triple = Text × Text × Text

abbrev pub Double : Type 0
Double = Text × Text

abbrev pub rule_parts : Text → Text → Text → List Text
rule_parts endpoint_id target_network_cidr access_group_id =
    let parts : List Text = endpoint_id ∷ target_network_cidr ∷ [] in
    if is_set access_group_id then parts ++ access_group_id ∷ [] else parts

unfoldable pub client_vpn_authorization_rule_create_id : Text → Text → Text → Text
client_vpn_authorization_rule_create_id endpoint_id target_network_cidr access_group_id =
    join (rule_parts endpoint_id target_network_cidr access_group_id) comma

-- `parts` has two elements, or three, that are not empty.
unfoldable pub rule_of_parts : Text → List Text → Outcome Triple
rule_of_parts id (a ∷ b ∷ []) =
    if is_set a && is_set b
    then ok (a, b, [])
    else err (
        unexpected_format
          (codes
            "unexpected format for ID (%q), expected endpoint-id,target-network-cidr or endpoint-id,target-network-cidr,group-id")
          id)
rule_of_parts id (a ∷ b ∷ c ∷ []) =
    if is_set a && (is_set b && is_set c)
    then ok (a, b, c)
    else err (
        unexpected_format
          (codes
            "unexpected format for ID (%q), expected endpoint-id,target-network-cidr or endpoint-id,target-network-cidr,group-id")
          id)
rule_of_parts id parts = err (
    unexpected_format
      (codes
        "unexpected format for ID (%q), expected endpoint-id,target-network-cidr or endpoint-id,target-network-cidr,group-id")
      id)

unfoldable pub client_vpn_authorization_rule_parse_id : Text → Outcome Triple
unfolding rule_of_parts
client_vpn_authorization_rule_parse_id id = rule_of_parts id (split id comma)

-- Two parts that are not empty.
unfoldable pub two_parts : Text → Text → List Text → Outcome Double
two_parts text id (a ∷ b ∷ []) =
    if is_set a && is_set b then ok (a, b) else err (unexpected_format text id)
two_parts text id parts = err (unexpected_format text id)

-- Three parts that are not empty.
unfoldable pub three_parts : Text → Text → List Text → Outcome Triple
three_parts text id (a ∷ b ∷ c ∷ []) =
    if is_set a && (is_set b && is_set c) then ok (a, b, c) else err (unexpected_format text id)
three_parts text id parts = err (unexpected_format text id)

unfoldable pub client_vpn_network_association_create_id : Text → Text → Text
client_vpn_network_association_create_id endpoint_id association_id =
    join (endpoint_id ∷ association_id ∷ []) comma

unfoldable pub client_vpn_network_association_parse_id : Text → Outcome Double
unfolding two_parts
client_vpn_network_association_parse_id id =
    two_parts (codes "unexpected format for ID (%q), expected endpoint-id,association-id") id
      (split id comma)

unfoldable pub client_vpn_route_create_id : Text → Text → Text → Text
client_vpn_route_create_id endpoint_id target_subnet_id destination_cidr =
    join (endpoint_id ∷ target_subnet_id ∷ destination_cidr ∷ []) comma

unfoldable pub client_vpn_route_parse_id : Text → Outcome Triple
unfolding three_parts
client_vpn_route_parse_id id =
    three_parts
      (codes
        "unexpected format for ID (%q), expected endpoint-id,target-subnet-id,destination-cidr-block")
      id (split id comma)

unfoldable pub transit_gateway_prefix_list_reference_create_id : Text → Text → Text
transit_gateway_prefix_list_reference_create_id transit_gateway_route_table_id prefix_list_id =
    join (transit_gateway_route_table_id ∷ prefix_list_id ∷ []) underscore

unfoldable pub transit_gateway_prefix_list_reference_parse_id : Text → Outcome Double
unfolding two_parts
transit_gateway_prefix_list_reference_parse_id id =
    two_parts
      (codes
        "unexpected format for ID (%[1]s), expected transit-gateway-route-table-id%[2]sprefix-list-id")
      id (split id underscore)
