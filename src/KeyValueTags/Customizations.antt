-- ===== src/KeyValueTags/Customizations.antt =====
-- internal/keyvaluetags/service_generation_customizations.go: how the generators treat each service.
pub mod Clients
pub mod Listing
pub mod Tagging
pub mod Types
pub mod Untagging
use terraform_provider_awsut.Prelude.{List, [], ◌∷◌, Text, ◌==◌, if◌then◌else◌}

-- A Go switch over a string, whose cases answer a value.
unfoldable pub switch {ℓ} : {A : Type ℓ} → Text → List (Text × A) → A → A
switch value [] default = default
switch value ((name, answer) ∷ cases) default =
    if value == name then answer else switch value cases default
