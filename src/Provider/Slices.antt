-- ===== src/Provider/Slices.antt =====
-- internal/provider/structure.go and utils.go: slices of strings. A slice of pointers to strings and a
-- slice of strings are one type here, so ExpandStringSliceofPointers, ExpandStringSet over the list of
-- a set, and the functions that make account identifiers are the identity.
pub mod Laws
use terraform_provider_awsut.Prelude.{
  Bool, true, false, not, List, [], ◌∷◌, ◌++◌, Text, ◌==◌, if◌then◌else◌,
}
use terraform_provider_awsut.Prelude.Value.{Value, string_value, not_a_string}

unfoldable pub contains : List Text → Text → Bool
contains [] str = false
contains (v ∷ s) str = if v == str then true else contains s str

-- The loop of `Diff` over its result.
unfoldable pub diff_loop : List Text → List Text → List Text → List Text
diff_loop [] slice2 diff = diff
diff_loop (s1 ∷ slice1) slice2 diff =
    diff_loop slice1 slice2 (if not (contains slice2 s1) then diff ++ s1 ∷ [] else diff)

-- The elements of `slice1` that are not in `slice2`.
unfoldable pub diff : List Text → List Text → List Text
unfolding diff_loop contains
diff slice1 slice2 = diff_loop slice1 slice2 []

unfoldable pub expand_string_list : List Value → List Text
expand_string_list [] = []
expand_string_list (string_value val ∷ configured) =
    let vs = expand_string_list configured in if val == [] then vs else val ∷ vs
expand_string_list (not_a_string ∷ configured) = expand_string_list configured

append_unique_loop : List Text → Text → Bool
append_unique_loop [] elem = false
append_unique_loop (e ∷ slice) elem = if e == elem then true else append_unique_loop slice elem

unfoldable pub append_unique_string : List Text → Text → List Text
unfolding append_unique_loop
append_unique_string slice elem =
    if append_unique_loop slice elem then slice else slice ++ elem ∷ []
