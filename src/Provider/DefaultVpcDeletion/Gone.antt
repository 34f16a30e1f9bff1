-- ===== src/Provider/DefaultVpcDeletion/Gone.antt =====
-- What a creation of the resource has deleted.
use terraform_provider_awsut.Prelude.{
  ◌≡◌, refl, sym, subst, Bool, false, Option, none, some, [], ◌∷◌, Text, All,
}
use terraform_provider_awsut.Prelude.Error.{Error}
use terraform_provider_awsut.Prelude.Go.{Outcome, ok, check, labelled, >>=-eq-ok}
use terraform_provider_awsut.KeyValueTags.UpdateTags.Sync.{none_of_ok}
use terraform_provider_awsut.Provider.DefaultVpcDeletion.{
  Ec2Conn, Found, vpc_default, internet_gateway_for_vpc, subnets_for_vpc, delete_gateway,
  delete_internet_gateway, subnet_outcome, delete_one_subnet, delete_each_subnet, delete_subnets,
  delete_vpc,
}

pub data Resource : Type 0 where
  gateway : Text → Resource
  subnet : Option Text → Resource
  vpc : Text → Resource

-- The documented behaviour of the service over the resources that exist: a deletion that returns
-- no error has deleted its resource, and no call creates any.
pub record IsLawful {W : Type 0} (conn : Ec2Conn W) (exists : W → Resource → Bool) : Type 0 where
  pub gateway_deleted :
      (id : Text) (w : W)
      → (conn.delete_internet_gateway id w).0 ≡ none
      → exists (conn.delete_internet_gateway id w).1 (gateway id) ≡ false
  pub subnet_deleted :
      (id : Option Text) (w : W)
      → (conn.delete_subnet id w).0 ≡ none
      → exists (conn.delete_subnet id w).1 (subnet id) ≡ false
  pub vpc_deleted :
      (id : Text) (w : W)
      → (conn.delete_vpc id w).0 ≡ none
      → exists (conn.delete_vpc id w).1 (vpc id) ≡ false
  pub describe_default_vpcs_creates :
      (w : W) (r : Resource)
      → exists w r ≡ false
      → exists (conn.describe_default_vpcs w).1 r ≡ false
  pub describe_subnets_creates :
      (id : Text) (w : W) (r : Resource)
      → exists w r ≡ false
      → exists (conn.describe_subnets id w).1 r ≡ false
  pub delete_subnet_creates :
      (id : Option Text) (w : W) (r : Resource)
      → exists w r ≡ false
      → exists (conn.delete_subnet id w).1 r ≡ false
  pub delete_vpc_creates :
      (id : Text) (w : W) (r : Resource)
      → exists w r ≡ false
      → exists (conn.delete_vpc id w).1 r ≡ false

-- The subnets of a list of pointers, of which none is nil, are gone.
abbrev pub SubnetsGone : (Resource → Bool) → Found → Type 0
SubnetsGone there found =
    All (λ s. (id : Option Text) × (s ≡ some id) × (there (subnet id) ≡ false)) found

pub SubnetsGone-mono :
    (before after : Resource → Bool)
    → ((r : Resource) → before r ≡ false → after r ≡ false)
    → (found : Found) → SubnetsGone before found
    → SubnetsGone after found
SubnetsGone-mono before after stay [] h = tt
SubnetsGone-mono before after stay (s ∷ found) ((id, there, gone), h) =
    ((id, there, stay (subnet id) gone), SubnetsGone-mono before after stay found h)

ok_of_subnet : (id : Option Text) (o : Option Error) → subnet_outcome id o ≡ ok tt → o ≡ none
unfolding subnet_outcome
ok_of_subnet id none h = refl
ok_of_subnet none (some e) h = cc
ok_of_subnet (some s) (some e) h = cc

module _ {W : Type 0} (conn : Ec2Conn W) (exists : W → Resource → Bool)
    (lawful : IsLawful conn exists) where
  delete_each_subnet_creates :
      (found : Found) (w : W) (r : Resource)
      → (delete_each_subnet conn found w).0 ≡ ok tt
      → exists w r ≡ false
      → exists (delete_each_subnet conn found w).1 r ≡ false
  unfolding delete_each_subnet
  delete_each_subnet_creates [] w r h gone = gone
  delete_each_subnet_creates (none ∷ rest) w r h gone = cc
  delete_each_subnet_creates (some id ∷ rest) w r h gone =
      let (u, deleted, next) =
        >>=-eq-ok (delete_one_subnet conn id) (λ _. delete_each_subnet conn rest) w h in
      rw next (
        delete_each_subnet_creates rest (conn.delete_subnet id w).1 r (rw next at h)
          (lawful.delete_subnet_creates id w r gone))

  each_subnet_gone :
      (found : Found) (w : W)
      → (delete_each_subnet conn found w).0 ≡ ok tt
      → SubnetsGone (exists (delete_each_subnet conn found w).1) found
  unfolding delete_each_subnet
  each_subnet_gone [] w h = tt
  each_subnet_gone (none ∷ rest) w h = cc
  each_subnet_gone (some id ∷ rest) w h =
      let (u, deleted, next) =
        >>=-eq-ok (delete_one_subnet conn id) (λ _. delete_each_subnet conn rest) w h in
      let w1 : W = (conn.delete_subnet id w).1 in
      subst (λ (x : Outcome (Unit {0}) × W). SubnetsGone (exists x.1) (some id ∷ rest)) (sym next)
        (
          (
            id,
            refl,
            delete_each_subnet_creates rest w1 (subnet id) (rw next at h)
                (lawful.subnet_deleted id w (ok_of_subnet id _ deleted)),
          ),
          each_subnet_gone rest w1 (rw next at h),
        )

  gateway_gone :
      (vpc_id id : Text) (w : W)
      → (delete_gateway conn vpc_id (some (some id)) w).0 ≡ ok tt
      → exists (delete_gateway conn vpc_id (some (some id)) w).1 (gateway id) ≡ false
  unfolding delete_gateway
  gateway_gone vpc_id id w h =
      let (u, detached, next) =
        >>=-eq-ok (check _ (conn.detach_internet_gateway id vpc_id)) _ w h in
      rw next (
        lawful.gateway_deleted id (conn.detach_internet_gateway id vpc_id w).1
          (none_of_ok _ _ (rw next at h)))

  -- What stays gone through the rest of the method.
  pub stays_gone :
      (vpc_id : Text) (r : Resource) (w : W)
      → exists w r ≡ false
      → exists (vpc_default conn (delete_vpc conn vpc_id w).1).1 r ≡ false
  unfolding vpc_default delete_vpc
  stays_gone vpc_id r w gone =
      lawful.describe_default_vpcs_creates _ r (lawful.delete_vpc_creates vpc_id w r gone)

  pub vpc_gone :
      (vpc_id : Text) (w : W)
      → (delete_vpc conn vpc_id w).0 ≡ ok tt
      → exists (vpc_default conn (delete_vpc conn vpc_id w).1).1 (vpc vpc_id) ≡ false
  unfolding vpc_default delete_vpc
  vpc_gone vpc_id w h =
      lawful.describe_default_vpcs_creates _ (vpc vpc_id)
        (lawful.vpc_deleted vpc_id w (none_of_ok _ _ h))

  -- The subnets that are looked up are gone when they have been deleted.
  pub looked_up-SubnetsGone :
      (vpc_id : Text) (w : W) (found : Found)
      → (delete_subnets conn vpc_id w).0 ≡ ok tt
      → (subnets_for_vpc conn vpc_id w).0 ≡ ok found
      → SubnetsGone (exists (delete_subnets conn vpc_id w).1) found
  unfolding delete_subnets
  looked_up-SubnetsGone vpc_id w found h e =
      let next : delete_subnets conn vpc_id w
          ≡ delete_each_subnet conn found (conn.describe_subnets vpc_id w).1 =
        rw e in
      subst (λ (x : Outcome (Unit {0}) × W). SubnetsGone (exists x.1) found) (sym next)
        (each_subnet_gone found (conn.describe_subnets vpc_id w).1 (rw next at h))

  pub subnets_create :
      (vpc_id : Text) (w : W) (r : Resource)
      → (delete_subnets conn vpc_id w).0 ≡ ok tt
      → exists w r ≡ false
      → exists (delete_subnets conn vpc_id w).1 r ≡ false
  unfolding delete_subnets
  subnets_create vpc_id w r h gone =
      let (found, looked_up, next) = >>=-eq-ok (labelled _ (subnets_for_vpc conn vpc_id)) _ w h in
      rw next (
        delete_each_subnet_creates found (conn.describe_subnets vpc_id w).1 r (rw next at h)
          (lawful.describe_subnets_creates vpc_id w r gone))

  pub looked_up_gateway_gone :
      (vpc_id id : Text) (w : W)
      → (delete_internet_gateway conn vpc_id w).0 ≡ ok tt
      → (internet_gateway_for_vpc conn vpc_id w).0 ≡ ok (some (some id))
      → exists (delete_internet_gateway conn vpc_id w).1 (gateway id) ≡ false
  unfolding delete_internet_gateway
  looked_up_gateway_gone vpc_id id w h e =
      let next : delete_internet_gateway conn vpc_id w
          ≡ delete_gateway conn vpc_id (some (some id))
              (conn.describe_internet_gateways vpc_id w).1 =
        rw e in
      rw next (gateway_gone vpc_id id (conn.describe_internet_gateways vpc_id w).1 (rw next at h))
