-- ===== src/Prelude/Error.antt =====
-- Go errors, as far as the provider tells them apart.
use terraform_provider_awsut.Prelude.Strings.{Text}
use mathlib.Core.List.{List}

-- `error`. `formatted` is fmt.Errorf with the cause as text (%s), `wrapped` is fmt.Errorf with %w.
pub data Error : Type 0 where
  aws : Text → Text → Error
  message : Text → List Text → Error
  formatted : Text → List Text → Error → Error
  wrapped : Text → List Text → Error → Error
