-- ===== src/Ec2/Id/RoundTrip.antt =====
-- Identifiers are taken apart into the parts that they were made of, and an identifier that can be
-- taken apart is the one that its parts make.
use terraform_provider_awsut.Prelude.{
  ℕ, ◌≡◌, ◌≢◌, ◌↔◌, ◌∙◌, inl, inr, true, List, [], ◌∷◌, Text, eq_iff, arith, Bool-cases,
}
use terraform_provider_awsut.Prelude.Go.{ok}
use terraform_provider_awsut.Prelude.Split.{split, join, Lacks, split-join, join-split}
use terraform_provider_awsut.Ec2.Id.{
  comma, underscore, is_set, rule_parts, rule_of_parts, two_parts, three_parts,
  client_vpn_authorization_rule_create_id, client_vpn_authorization_rule_parse_id,
  client_vpn_network_association_create_id, client_vpn_network_association_parse_id,
  client_vpn_route_create_id, client_vpn_route_parse_id,
  transit_gateway_prefix_list_reference_create_id, transit_gateway_prefix_list_reference_parse_id,
}

is_set_of_ne : (s : Text) → s ≢ [] → is_set s ≡ true
is_set_of_ne s h = ground (arith, eq_iff s [])

-- An identifier made of an endpoint and a network that are not empty, and of a group that may be,
-- none with a comma, is taken apart into these three.
pub client_vpn_authorization_rule_parse_id-create_id :
    (endpoint_id cidr group_id : Text)
    → endpoint_id ≢ []
    → cidr ≢ []
    → Lacks comma endpoint_id
    → Lacks comma cidr
    → Lacks comma group_id
    → client_vpn_authorization_rule_parse_id
        (client_vpn_authorization_rule_create_id endpoint_id cidr group_id)
      ≡ ok (endpoint_id, cidr, group_id)
unfolding client_vpn_authorization_rule_parse_id client_vpn_authorization_rule_create_id
client_vpn_authorization_rule_parse_id-create_id e c g he hc le lc lg =
    elim (Bool-cases (is_set g)) [
      | inl given ↦
          rw (given, split-join e (c ∷ g ∷ []) comma le (lc, (lg, tt)))
            (ground (arith, is_set_of_ne e he, is_set_of_ne c hc))
      | inr empty ↦
          rw (empty, split-join e (c ∷ []) comma le (lc, tt))
            (ground (arith, is_set_of_ne e he, is_set_of_ne c hc, eq_iff g []))
    ]

join-rule_parts :
    (id : Text) (parts : List Text) (e c g : Text)
    → rule_of_parts id parts ≡ ok (e, c, g)
    → join (rule_parts e c g) comma ≡ join parts comma
unfolding rule_of_parts
join-rule_parts id [] e c g h = cc
join-rule_parts id (a ∷ []) e c g h = cc
join-rule_parts id (a ∷ b ∷ []) e c g h = ground (arith, eq_iff g [])
join-rule_parts id (a ∷ b ∷ d ∷ []) e c g h = ground arith
join-rule_parts id (a ∷ b ∷ d ∷ f ∷ parts) e c g h = cc

-- Whatever identifier is taken apart, its parts make the same identifier again.
pub client_vpn_authorization_rule_create_id-parse_id :
    (id endpoint_id cidr group_id : Text)
    → client_vpn_authorization_rule_parse_id id ≡ ok (endpoint_id, cidr, group_id)
    → client_vpn_authorization_rule_create_id endpoint_id cidr group_id ≡ id
unfolding client_vpn_authorization_rule_parse_id client_vpn_authorization_rule_create_id
client_vpn_authorization_rule_create_id-parse_id id e c g h =
    join-rule_parts id (split id comma) e c g h ∙ join-split id comma

join-two_parts :
    (text id : Text) (parts : List Text) (sep : ℕ) (a b : Text)
    → two_parts text id parts ≡ ok (a, b)
    → join (a ∷ b ∷ []) sep ≡ join parts sep
unfolding two_parts
join-two_parts text id [] sep a b h = cc
join-two_parts text id (p ∷ []) sep a b h = cc
join-two_parts text id (p ∷ q ∷ []) sep a b h = ground arith
join-two_parts text id (p ∷ q ∷ r ∷ parts) sep a b h = cc

join-three_parts :
    (text id : Text) (parts : List Text) (sep : ℕ) (a b c : Text)
    → three_parts text id parts ≡ ok (a, b, c)
    → join (a ∷ b ∷ c ∷ []) sep ≡ join parts sep
unfolding three_parts
join-three_parts text id [] sep a b c h = cc
join-three_parts text id (p ∷ []) sep a b c h = cc
join-three_parts text id (p ∷ q ∷ []) sep a b c h = cc
join-three_parts text id (p ∷ q ∷ r ∷ []) sep a b c h = ground arith
join-three_parts text id (p ∷ q ∷ r ∷ s ∷ parts) sep a b c h = cc

-- Three parts that are not empty and have no comma make an identifier that is taken apart into them.
pub client_vpn_route_parse_id-create_id :
    (a b c : Text)
    → a ≢ []
    → b ≢ []
    → c ≢ []
    → Lacks comma a
    → Lacks comma b
    → Lacks comma c
    → client_vpn_route_parse_id (client_vpn_route_create_id a b c) ≡ ok (a, b, c)
unfolding client_vpn_route_parse_id client_vpn_route_create_id
client_vpn_route_parse_id-create_id a b c ha hb hc la lb lc =
    rw (split-join a (b ∷ c ∷ []) comma la (lb, (lc, tt)))
      (ground (arith, is_set_of_ne a ha, is_set_of_ne b hb, is_set_of_ne c hc))

-- Whatever identifier is taken apart, its parts make the same identifier again.
pub client_vpn_route_create_id-parse_id :
    (id a b c : Text)
    → client_vpn_route_parse_id id ≡ ok (a, b, c)
    → client_vpn_route_create_id a b c ≡ id
unfolding client_vpn_route_parse_id client_vpn_route_create_id
client_vpn_route_create_id-parse_id id a b c h =
    join-three_parts _ id (split id comma) comma a b c h ∙ join-split id comma

-- Two parts that are not empty and lack the separator make an identifier that is taken apart into
-- them.
pub client_vpn_network_association_parse_id-create_id :
    (a b : Text)
    → a ≢ []
    → b ≢ []
    → Lacks comma a
    → Lacks comma b
    → client_vpn_network_association_parse_id (client_vpn_network_association_create_id a b)
      ≡ ok (a, b)
unfolding client_vpn_network_association_parse_id client_vpn_network_association_create_id
client_vpn_network_association_parse_id-create_id a b ha hb la lb =
    rw (split-join a (b ∷ []) comma la (lb, tt))
      (ground (arith, is_set_of_ne a ha, is_set_of_ne b hb))

-- Whatever identifier is taken apart, its parts make the same identifier again.
pub client_vpn_network_association_create_id-parse_id :
    (id a b : Text)
    → client_vpn_network_association_parse_id id ≡ ok (a, b)
    → client_vpn_network_association_create_id a b ≡ id
unfolding client_vpn_network_association_parse_id client_vpn_network_association_create_id
client_vpn_network_association_create_id-parse_id id a b h =
    join-two_parts _ id (split id comma) comma a b h ∙ join-split id comma

-- Two parts that are not empty and lack the separator make an identifier that is taken apart into
-- them.
pub transit_gateway_prefix_list_reference_parse_id-create_id :
    (a b : Text)
    → a ≢ []
    → b ≢ []
    → Lacks underscore a
    → Lacks underscore b
    → transit_gateway_prefix_list_reference_parse_id
        (transit_gateway_prefix_list_reference_create_id a b)
      ≡ ok (a, b)
unfolding transit_gateway_prefix_list_reference_parse_id
    transit_gateway_prefix_list_reference_create_id
transit_gateway_prefix_list_reference_parse_id-create_id a b ha hb la lb =
    rw (split-join a (b ∷ []) underscore la (lb, tt))
      (ground (arith, is_set_of_ne a ha, is_set_of_ne b hb))

-- Whatever identifier is taken apart, its parts make the same identifier again.
pub transit_gateway_prefix_list_reference_create_id-parse_id :
    (id a b : Text)
    → transit_gateway_prefix_list_reference_parse_id id ≡ ok (a, b)
    → transit_gateway_prefix_list_reference_create_id a b ≡ id
unfolding transit_gateway_prefix_list_reference_parse_id
    transit_gateway_prefix_list_reference_create_id
transit_gateway_prefix_list_reference_create_id-parse_id id a b h =
    join-two_parts _ id (split id underscore) underscore a b h ∙ join-split id underscore

-- Three parts that are not empty and lack a comma are those of an identifier of a route exactly if they make it.
pub client_vpn_route_parse_id_iff :
    (id a b c : Text)
    → a ≢ []
    → b ≢ []
    → c ≢ []
    → Lacks comma a
    → Lacks comma b
    → Lacks comma c
    → (client_vpn_route_parse_id id ≡ ok (a, b, c)) ↔ (client_vpn_route_create_id a b c ≡ id)
client_vpn_route_parse_id_iff id a b c ha hb hc la lb lc = (
  client_vpn_route_create_id-parse_id id a b c,
  λ e. rw (← e) (client_vpn_route_parse_id-create_id a b c ha hb hc la lb lc),
)

-- Two parts that are not empty and lack a comma are those of an identifier of an association exactly if they
-- make it.
pub client_vpn_network_association_parse_id_iff :
    (id a b : Text)
    → a ≢ []
    → b ≢ []
    → Lacks comma a
    → Lacks comma b
    → (client_vpn_network_association_parse_id id ≡ ok (a, b))
      ↔ (client_vpn_network_association_create_id a b ≡ id)
client_vpn_network_association_parse_id_iff id a b ha hb la lb = (
  client_vpn_network_association_create_id-parse_id id a b,
  λ e. rw (← e) (client_vpn_network_association_parse_id-create_id a b ha hb la lb),
)

-- Two parts that are not empty and lack an underscore are those of an identifier of a reference to a prefix list
-- exactly if they make it.
pub transit_gateway_prefix_list_reference_parse_id_iff :
    (id a b : Text)
    → a ≢ []
    → b ≢ []
    → Lacks underscore a
    → Lacks underscore b
    → (transit_gateway_prefix_list_reference_parse_id id ≡ ok (a, b))
      ↔ (transit_gateway_prefix_list_reference_create_id a b ≡ id)
transit_gateway_prefix_list_reference_parse_id_iff id a b ha hb la lb = (
  transit_gateway_prefix_list_reference_create_id-parse_id id a b,
  λ e. rw (← e) (transit_gateway_prefix_list_reference_parse_id-create_id a b ha hb la lb),
)

-- For an endpoint and a network that are not empty, and a group that may be, none with a comma: these are the
-- parts of an identifier exactly if they make it.
pub client_vpn_authorization_rule_parse_id_iff :
    (id endpoint_id cidr group_id : Text)
    → endpoint_id ≢ []
    → cidr ≢ []
    → Lacks comma endpoint_id
    → Lacks comma cidr
    → Lacks comma group_id
    → (client_vpn_authorization_rule_parse_id id ≡ ok (endpoint_id, cidr, group_id))
      ↔ (client_vpn_authorization_rule_create_id endpoint_id cidr group_id ≡ id)
client_vpn_authorization_rule_parse_id_iff id e c g he hc le lc lg = (
  client_vpn_authorization_rule_create_id-parse_id id e c g,
  λ made. rw (← made) (client_vpn_authorization_rule_parse_id-create_id e c g he hc le lc lg),
)
