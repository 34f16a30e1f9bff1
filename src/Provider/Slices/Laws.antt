-- ===== src/Provider/Slices/Laws.antt =====
-- What `Diff`, `appendUniqueString` and the expansion of a set hold.
use terraform_provider_awsut.Prelude.{
  ◌≡◌, refl, ◌∙◌, false, not, ◌&&◌, ◌||◌, List, [], ◌∷◌, Text, eq_iff, mem, mem-append, arith,
}
use terraform_provider_awsut.Prelude.Value.{Value, string_value, not_a_string}
use terraform_provider_awsut.Provider.Slices.{contains, diff_loop, diff, expand_string_list}

pub contains-mem : (s : List Text) (a : Text) → contains s a ≡ mem a s
unfolding contains mem
contains-mem [] a = refl
contains-mem (v ∷ s) a = ground (arith, contains-mem s a, eq_iff v a, eq_iff a v)

mem-diff_loop :
    (slice1 slice2 acc : List Text) (a : Text)
    → mem a (diff_loop slice1 slice2 acc) ≡ (mem a acc || (mem a slice1 && not (mem a slice2)))
unfolding diff_loop mem
mem-diff_loop [] slice2 acc a = ground arith
mem-diff_loop (s ∷ slice1) slice2 acc a =
    mem-diff_loop slice1 slice2 _ a
    ∙ ground (arith, mem-append a acc (s ∷ []), contains-mem slice2 s, eq_iff a s)

-- An element is in the difference exactly when it is in the first slice and not in the second.
pub mem-diff :
    (slice1 slice2 : List Text) (a : Text)
    → mem a (diff slice1 slice2) ≡ (mem a slice1 && not (mem a slice2))
unfolding diff mem
mem-diff slice1 slice2 a = mem-diff_loop slice1 slice2 [] a

-- Expanding a set keeps no empty string.
pub mem-expand_string_list :
    (configured : List Value) → mem [] (expand_string_list configured) ≡ false
unfolding expand_string_list mem
mem-expand_string_list [] = refl
mem-expand_string_list (string_value v ∷ configured) =
    ground (arith, mem-expand_string_list configured, eq_iff v [], eq_iff [] v)
mem-expand_string_list (not_a_string ∷ configured) = mem-expand_string_list configured
