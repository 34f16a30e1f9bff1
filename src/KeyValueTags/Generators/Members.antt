-- ===== src/KeyValueTags/Generators/Members.antt =====
-- What a test over a list of names says of each of them.
use terraform_provider_awsut.Prelude.{
  ◌≡◌, Bool, true, ◌&&◌, List, [], ◌∷◌, Text, eq_iff, mem, arith,
}

unfoldable pub every : (Text → Bool) → List Text → Bool
every test [] = true
every test (name ∷ names) = test name && every test names

pub every-mem :
    (test : Text → Bool) (names : List Text) (name : Text)
    → every test names ≡ true
    → mem name names ≡ true
    → test name ≡ true
unfolding every mem
every-mem test [] name all_pass found = cc
every-mem test (first ∷ names) name all_pass found =
    ground (arith, every-mem test names name, eq_iff name first)
