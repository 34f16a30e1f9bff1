-- ===== src/EnvVar.antt =====
-- internal/envvar/funcs.go and testing_funcs.go: environment variables that must be set. The
-- parameter `getenv` is os.Getenv.
pub mod FirstSet
use terraform_provider_awsut.Prelude.{Bool, List, [], ◌∷◌, ◌++◌, Text, codes, ◌==◌, if◌then◌else◌}
use terraform_provider_awsut.Prelude.Error.{Error, message, formatted}
use terraform_provider_awsut.Prelude.Go.{Outcome, ok, err}

-- What a test function does: it returns, or fails or skips the test, which ends it, or panics.
pub data Tested (A : Type 0) : Type 0 where
  returned : A → Tested A
  fatal : Error → Tested A
  skipped : Error → Tested A
  panicked : Tested A

abbrev pub must_be_set : Text → Text → Error
must_be_set name usage_message =
    message (codes "environment variable %s must be set. Usage: %s") (name ∷ usage_message ∷ [])

abbrev pub none_is_set : List Text → Text → Error
none_is_set names usage_message =
    message (codes "at least one environment variable of %v must be set. Usage: %s")
      (names ++ usage_message ∷ [])

module _ (getenv : Text → Text) where
  unfoldable pub get_with_default : Text → Text → Text
  get_with_default variable default_value =
      if getenv variable == [] then default_value else getenv variable

  -- The loop over the names, with the error that follows it.
  unfoldable pub first_set : Error → List Text → Outcome (Text × Text)
  first_set e [] = err e
  first_set e (variable ∷ names) =
      if getenv variable == [] then first_set e names else ok (variable, getenv variable)

  unfoldable pub require_one_of : List Text → Text → Outcome (Text × Text)
  unfolding first_set
  require_one_of names usage_message = first_set (none_is_set names usage_message) names

  unfoldable pub require : Text → Text → Outcome Text
  require name usage_message =
      if getenv name == [] then err (must_be_set name usage_message) else ok (getenv name)

  abbrev pub or_stop : {A : Type 0} → (Error → Tested A) → Outcome A → Tested A
  or_stop stop (ok a) = returned a
  or_stop stop (err e) = stop e
  or_stop stop Outcome.panic = panicked

  unfoldable pub test_fail_if_all_empty : List Text → Text → Tested (Text × Text)
  unfolding require_one_of
  test_fail_if_all_empty names usage_message = or_stop fatal (require_one_of names usage_message)

  unfoldable pub test_fail_if_empty : Text → Text → Tested Text
  test_fail_if_empty name usage_message =
      if getenv name == [] then fatal (must_be_set name usage_message) else returned (getenv name)

  unfoldable pub test_skip_if_empty : Text → Text → Tested Text
  test_skip_if_empty name usage_message =
      if getenv name == []
      then skipped (
          message (codes "skipping test; environment variable %s must be set. Usage: %s")
            (name ∷ usage_message ∷ []))
      else returned (getenv name)

  unfoldable pub test_skip_if_all_empty : List Text → Text → Tested (Text × Text)
  unfolding require_one_of
  test_skip_if_all_empty names usage_message =
      or_stop (λ e. skipped (formatted (codes "skipping test because %s.") [] e))
        (require_one_of names usage_message)
