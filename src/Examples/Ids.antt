-- ===== src/Examples/Ids.antt =====
-- Identifiers: the round trips at concrete parts.
use terraform_provider_awsut.Prelude.{◌≡◌, ◌≢◌, ◌↔◌, refl, [], Text, codes}
use terraform_provider_awsut.Prelude.Go.{ok}
use terraform_provider_awsut.Prelude.Split.{Lacks}
use terraform_provider_awsut.Ec2.Id.{
  comma, underscore, client_vpn_authorization_rule_create_id,
  client_vpn_authorization_rule_parse_id, client_vpn_network_association_create_id,
  client_vpn_network_association_parse_id, client_vpn_route_create_id, client_vpn_route_parse_id,
  transit_gateway_prefix_list_reference_create_id, transit_gateway_prefix_list_reference_parse_id,
}
use terraform_provider_awsut.Ec2.Id.RoundTrip.{
  client_vpn_authorization_rule_parse_id_iff, client_vpn_route_parse_id_iff,
  client_vpn_network_association_parse_id_iff, transit_gateway_prefix_list_reference_parse_id_iff,
}

abbrev endpoint : Text
endpoint = codes "cvpn-1"

abbrev cidr : Text
cidr = codes "10.0.0.0/8"

abbrev subnet_id : Text
subnet_id = codes "s-1"

abbrev table_id : Text
table_id = codes "tgw"

endpoint_is_set : endpoint ≢ []
endpoint_is_set h = cc

cidr_is_set : cidr ≢ []
cidr_is_set h = cc

subnet_is_set : subnet_id ≢ []
subnet_is_set h = cc

table_is_set : table_id ≢ []
table_is_set h = cc

endpoint-Lacks : Lacks comma endpoint
endpoint-Lacks = (refl, (refl, (refl, (refl, (refl, (refl, tt))))))

cidr-Lacks : Lacks comma cidr
cidr-Lacks = (refl, (refl, (refl, (refl, (refl, (refl, (refl, (refl, (refl, (refl, tt))))))))))

subnet-Lacks : Lacks comma subnet_id
subnet-Lacks = (refl, (refl, (refl, tt)))

subnet-Lacks-underscore : Lacks underscore subnet_id
subnet-Lacks-underscore = (refl, (refl, (refl, tt)))

table-Lacks : Lacks underscore table_id
table-Lacks = (refl, (refl, (refl, tt)))

client_vpn_authorization_rule_parse_id_iff_example :
    (client_vpn_authorization_rule_parse_id (codes "cvpn-1,10.0.0.0/8,s-1")
      ≡ ok (endpoint, cidr, subnet_id))
    ↔ (client_vpn_authorization_rule_create_id endpoint cidr subnet_id
        ≡ codes "cvpn-1,10.0.0.0/8,s-1")
client_vpn_authorization_rule_parse_id_iff_example =
    client_vpn_authorization_rule_parse_id_iff (codes "cvpn-1,10.0.0.0/8,s-1") endpoint cidr
      subnet_id endpoint_is_set cidr_is_set endpoint-Lacks cidr-Lacks subnet-Lacks

client_vpn_route_parse_id_iff_example :
    (client_vpn_route_parse_id (codes "cvpn-1,s-1,10.0.0.0/8") ≡ ok (endpoint, subnet_id, cidr))
    ↔ (client_vpn_route_create_id endpoint subnet_id cidr ≡ codes "cvpn-1,s-1,10.0.0.0/8")
client_vpn_route_parse_id_iff_example =
    client_vpn_route_parse_id_iff (codes "cvpn-1,s-1,10.0.0.0/8") endpoint subnet_id cidr
      endpoint_is_set subnet_is_set cidr_is_set endpoint-Lacks subnet-Lacks cidr-Lacks

client_vpn_network_association_parse_id_iff_example :
    (client_vpn_network_association_parse_id (codes "cvpn-1,s-1") ≡ ok (endpoint, subnet_id))
    ↔ (client_vpn_network_association_create_id endpoint subnet_id ≡ codes "cvpn-1,s-1")
client_vpn_network_association_parse_id_iff_example =
    client_vpn_network_association_parse_id_iff (codes "cvpn-1,s-1") endpoint subnet_id
      endpoint_is_set subnet_is_set endpoint-Lacks subnet-Lacks

transit_gateway_prefix_list_reference_parse_id_iff_example :
    (transit_gateway_prefix_list_reference_parse_id (codes "tgw_s-1") ≡ ok (table_id, subnet_id))
    ↔ (transit_gateway_prefix_list_reference_create_id table_id subnet_id ≡ codes "tgw_s-1")
transit_gateway_prefix_list_reference_parse_id_iff_example =
    transit_gateway_prefix_list_reference_parse_id_iff (codes "tgw_s-1") table_id subnet_id
      table_is_set subnet_is_set table-Lacks subnet-Lacks-underscore
