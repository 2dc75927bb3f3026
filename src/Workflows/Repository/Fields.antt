-- ===== src/Workflows/Repository/Fields.antt =====
-- What a SET clause of an update gives a column, for a field that the request may leave out:
-- src/workflows/repository.ts and src/agents/repository.ts.
use virexa_backend.Base.{◌≡◌, refl, arith, Option, none, some, if◌then◌else◌}
use virexa_backend.Base.Text.{Text, trim, is_empty}
use virexa_backend.Workflows.Repository.{or_else, trim_or_null}
use mathlib.Core.Option

-- `field !== undefined ? value : column`, for a field that is given as its value is stored
abbrev pub given_or : {A B : Type 0} → (A → B) → Option A → B → B
given_or f none old = old
given_or f (some x) old = f x

-- the text that a nullable field is stored as: trimmed, and null where nothing is left
abbrev pub nullable_text : Option Text → Option Text
nullable_text none = none
nullable_text (some s) = if is_empty (trim s) then none else some (trim s)

pub plain_field : {A : Type 0} (x : Option A) (old : A) → or_else x old ≡ given_or (λ i. i) x old
plain_field none old = refl
plain_field (some x) old = refl

pub text_field :
    (x : Option Text) (old : Text) → or_else (Option.map trim x) old ≡ given_or trim x old
text_field none old = refl
text_field (some x) old = refl

nullable : (x : Option Text) → trim_or_null x ≡ nullable_text x
nullable none = refl
nullable (some s) = ground arith

pub nullable_field :
    (x : Option (Option Text)) (old : Option Text)
    → or_else (Option.map trim_or_null x) old ≡ given_or nullable_text x old
nullable_field none old = refl
nullable_field (some x) old = nullable x
