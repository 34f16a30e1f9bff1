-- ===== src/Provider/DefaultVpcDeletion/Created.antt =====
-- The creation of the resource as a whole.
use terraform_provider_awsut.Prelude.{
  ◌≡◌, refl, sym, subst, ◌∙◌, ap, Bool, true, false, Option, none, some, Text, arith,
}
use terraform_provider_awsut.Prelude.Go.{Outcome, ok, err, continue, >>=-eq-ok}
use terraform_provider_awsut.Provider.DefaultVpcDeletion.{
  Ec2Conn, Found, string_value, no_default_vpc, vpc_default, internet_gateway_for_vpc,
  subnets_for_vpc, delete_internet_gateway, delete_subnets, delete_vpc, Data, on_world, refresh,
  default_vpc_deletion_read, delete_default, default_vpc_deletion_create,
}
use terraform_provider_awsut.Provider.DefaultVpcDeletion.Gone.{
  Resource, gateway, vpc, IsLawful, SubnetsGone, SubnetsGone-mono, stays_gone, vpc_gone,
  subnets_create, looked_up-SubnetsGone, looked_up_gateway_gone,
}

module _ {W : Type 0} (conn : Ec2Conn W) where
  refresh-world : (v : Option (Option Text)) (d : Data) (w : W) → (refresh conn v (d, w)).1.1 ≡ w
  refresh-world v d w = ground arith

  refresh-id :
      (v : Option (Option Text)) (d : Data) (w : W)
      → d.is_new_resource ≡ true
      → (refresh conn v (d, w)).1.0.id ≡ d.id
  refresh-id v d w h = rw h

  after-read :
      (d : Data) (w : W)
      → ((default_vpc_deletion_read conn (d, w)).1.1 ≡ (vpc_default conn w).1)
        × (d.is_new_resource ≡ true → (default_vpc_deletion_read conn (d, w)).1.0.id ≡ d.id)
  unfolding default_vpc_deletion_read
  after-read d w = go (vpc_default conn w).0
    where
      go :
          (o : Outcome (Option (Option Text)))
          → ((continue o (refresh conn) (d, (vpc_default conn w).1)).1.1 ≡ (vpc_default conn w).1)
            × (d.is_new_resource ≡ true
                → (continue o (refresh conn) (d, (vpc_default conn w).1)).1.0.id ≡ d.id)
      go (ok v) = (refresh-world v d _, refresh-id v d _)
      go (err e) = (refl, λ _. refl)
      go Outcome.panic = (refl, λ _. refl)

  -- If there is no default VPC, the creation of a new resource makes no call but two lookups of the
  -- default VPC, and the identifier says that there was none.
  pub default_vpc_deletion_create-none :
      (d : Data) (w : W)
      → (vpc_default conn w).0 ≡ ok none
      → d.is_new_resource ≡ true
      → ((default_vpc_deletion_create conn (d, w)).1.1
          ≡ (vpc_default conn (vpc_default conn w).1).1)
        × ((default_vpc_deletion_create conn (d, w)).1.0.id ≡ no_default_vpc)
  unfolding default_vpc_deletion_create delete_default
  default_vpc_deletion_create-none d w e new =
      let read = after-read (record d { id = no_default_vpc }) (vpc_default conn w).1 in
      rw e (read.0, read.1 new)

module _ {W : Type 0} (conn : Ec2Conn W) (exists : W → Resource → Bool)
    (lawful : IsLawful conn exists) where
  module _ (d : Data) (w : W) where
    abbrev created : Outcome (Unit {0}) × (Data × W)
    created = default_vpc_deletion_create conn (d, w)

    everything-gone :
        (vpc_id : Option Text)
        → (vpc_default conn w).0 ≡ ok (some vpc_id)
        → created.0 ≡ ok tt
        → (exists created.1.1 (vpc (string_value vpc_id)) ≡ false)
          × ((g : Text)
              → (internet_gateway_for_vpc conn (string_value vpc_id) (vpc_default conn w).1).0
                ≡ ok (some (some g))
              → exists created.1.1 (gateway g) ≡ false)
          × ((found : Found)
              → (subnets_for_vpc conn
                  (string_value vpc_id)
                  (delete_internet_gateway conn (string_value vpc_id) (vpc_default conn w).1).1).0
                ≡ ok found
              → SubnetsGone (exists created.1.1) found)
          × (d.is_new_resource ≡ true → created.1.0.id ≡ string_value vpc_id)
    unfolding default_vpc_deletion_create delete_default
    everything-gone vpc_id e h =
        let id = string_value vpc_id in
        let w0 : W = (vpc_default conn w).1 in
        let w1 : W = (delete_internet_gateway conn id w0).1 in
        let w2 : W = (delete_subnets conn id w1).1 in
        let w3 : W = (delete_vpc conn id w2).1 in
        let d3 : Data = record d { id = id } in
        let (u1, p1, r1) =
          >>=-eq-ok (on_world conn (delete_internet_gateway conn id)) _ (d, w0) (rw e at h) in
        let (u2, p2, r2) =
          >>=-eq-ok (on_world conn (delete_subnets conn id)) _ (d, w1) (rw (e, r1) at h) in
        let (u3, p3, r3) =
          >>=-eq-ok (on_world conn (delete_vpc conn id)) _ (d, w2) (rw (e, r1, r2) at h) in
        let whole : created ≡ default_vpc_deletion_read conn (d3, w3) = rw (e, r1, r2, r3) in
        let world : created.1.1 ≡ (vpc_default conn w3).1 =
          ap (λ (x : Outcome (Unit {0}) × (Data × W)). x.1.1) whole ∙ (after-read conn d3 w3).0 in
        (
          rw world (vpc_gone conn exists lawful id w2 p3),
          (λ g looked_up. rw world (
              stays_gone conn exists lawful id (gateway g) w2 (
                subnets_create conn exists lawful id w1 (gateway g) p2
                  (looked_up_gateway_gone conn exists lawful id g w0 p1 looked_up)))),
          (λ found looked_up.
              subst (λ (v : W). SubnetsGone (exists v) found) (sym world)
                (SubnetsGone-mono (exists w2) (exists (vpc_default conn w3).1)
                  (λ r. stays_gone conn exists lawful id r w2) found
                  (looked_up-SubnetsGone conn exists lawful id w1 found p2 looked_up))),
          (λ new.
              ap (λ (x : Outcome (Unit {0}) × (Data × W)). x.1.0.id) whole
              ∙ (after-read conn d3 w3).1 new),
        )

    -- If there is a default VPC and the creation of a new resource returns no error, then the VPC
    -- is gone, and so is each of the subnets that are looked up once the gateway is deleted, of
    -- which none was a nil pointer; the identifier of the resource is that of the VPC.
    pub default_vpc_deletion_create-gone :
        (vpc_id : Option Text) (found : Found)
        → (vpc_default conn w).0 ≡ ok (some vpc_id)
        → (subnets_for_vpc conn
            (string_value vpc_id)
            (delete_internet_gateway conn (string_value vpc_id) (vpc_default conn w).1).1).0
          ≡ ok found
        → d.is_new_resource ≡ true
        → created.0 ≡ ok tt
        → (exists created.1.1 (vpc (string_value vpc_id)) ≡ false)
          × SubnetsGone (exists created.1.1) found
          × (created.1.0.id ≡ string_value vpc_id)
    default_vpc_deletion_create-gone vpc_id found e looked_up new h =
        let all = everything-gone vpc_id e h in (all.0, all.2 found looked_up, all.3 new)

    -- If there is a default VPC with an internet gateway, and the creation returns no error, then
    -- the gateway is gone.
    pub default_vpc_deletion_create-gateway_gone :
        (vpc_id : Option Text) (g : Text)
        → (vpc_default conn w).0 ≡ ok (some vpc_id)
        → (internet_gateway_for_vpc conn (string_value vpc_id) (vpc_default conn w).1).0
          ≡ ok (some (some g))
        → created.0 ≡ ok tt
        → exists created.1.1 (gateway g) ≡ false
    default_vpc_deletion_create-gateway_gone vpc_id g e looked_up h =
        (everything-gone vpc_id e h).1 g looked_up
