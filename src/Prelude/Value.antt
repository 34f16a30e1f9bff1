-- ===== src/Prelude/Value.antt =====
-- A Go value of type `interface{}`, as far as the provider looks at it.
use terraform_provider_awsut.Prelude.Strings.{Text}

pub data Value : Type 0 where
  string_value : Text → Value
  not_a_string : Value
