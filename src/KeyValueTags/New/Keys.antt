-- ===== src/KeyValueTags/New/Keys.antt =====
-- `New` builds a map that holds no key twice.
use terraform_provider_awsut.Prelude.{◌≡◌, subst, Option, none, some, List, [], ◌∷◌, Text}
use terraform_provider_awsut.Prelude.Map.{
  Entries, made, entries, NodupKeys, insert, insert-NodupKeys,
}
use terraform_provider_awsut.Prelude.Value.{Value}
use terraform_provider_awsut.KeyValueTags.Data.{TagData, KeyValueTags}
use terraform_provider_awsut.KeyValueTags.New.{
  Source, from_strings, from_pointers, from_interfaces, from_keys, from_any_keys, made_of, new,
}
use terraform_provider_awsut.KeyValueTags.Lookups.{merge-NodupKeys}

from_strings-NodupKeys : (m : Entries Text) → NodupKeys (from_strings m)
unfolding from_strings
from_strings-NodupKeys [] = tt
from_strings-NodupKeys ((k, s) ∷ m) = insert-NodupKeys k _ _ (from_strings-NodupKeys m)

from_pointers-NodupKeys : (m : Entries (Option Text)) → NodupKeys (from_pointers m)
unfolding from_pointers
from_pointers-NodupKeys [] = tt
from_pointers-NodupKeys ((k, s) ∷ m) = insert-NodupKeys k _ _ (from_pointers-NodupKeys m)

from_interfaces-NodupKeys : (m : Entries Value) → NodupKeys (from_interfaces m)
unfolding from_interfaces
from_interfaces-NodupKeys [] = tt
from_interfaces-NodupKeys ((k, s) ∷ m) = insert-NodupKeys k _ _ (from_interfaces-NodupKeys m)

from_keys-NodupKeys :
    (ks : List Text) (m : Entries (Option TagData)) → NodupKeys m → NodupKeys (from_keys ks m)
unfolding from_keys
from_keys-NodupKeys [] m u = u
from_keys-NodupKeys (k ∷ ks) m u =
    from_keys-NodupKeys ks (insert k none m) (insert-NodupKeys k none m u)

abbrev WhenSome : Option (Entries (Option TagData)) → Type 0
WhenSome none = Unit
WhenSome (some m) = NodupKeys m

from_any_keys-NodupKeys :
    (ks : List Value) (m : Entries (Option TagData)) → NodupKeys m → WhenSome (from_any_keys ks m)
unfolding from_any_keys
from_any_keys-NodupKeys [] m u = u
from_any_keys-NodupKeys (Value.string_value k ∷ ks) m u =
    from_any_keys-NodupKeys ks (insert k none m) (insert-NodupKeys k none m u)
from_any_keys-NodupKeys (Value.not_a_string ∷ ks) m u = tt

abbrev Built : Option KeyValueTags → Type 0
Built none = Unit
Built (some t) = NodupKeys (entries t)

made_of-Built : (o : Option (Entries (Option TagData))) → WhenSome o → Built (made_of o)
unfolding made_of
made_of-Built none u = tt
made_of-Built (some m) u = u

built : (s : Source) → Built (new s)
unfolding new
built (Source.key_value_tags v) = unfold new in merge-NodupKeys (made []) v
built (Source.tag_data_map v) = merge-NodupKeys (made []) v
built (Source.string_map v) = from_strings-NodupKeys (entries v)
built (Source.string_pointer_map v) = from_pointers-NodupKeys (entries v)
built (Source.interface_map v) = from_interfaces-NodupKeys (entries v)
built (Source.string_list v) = from_keys-NodupKeys v [] tt
built (Source.interface_list v) =
    made_of-Built (from_any_keys v []) (from_any_keys-NodupKeys v [] tt)
built Source.other = tt

pub new-NodupKeys : (s : Source) {t : KeyValueTags} → new s ≡ some t → NodupKeys (entries t)
new-NodupKeys s h = subst Built h (built s)
