-- ===== src/Platform/Concrete.antt =====
-- A platform that satisfies the laws, for the examples: dates and identifiers are printed in
-- simple forms, and a `timestamptz` is cut to milliseconds.
use virexa_backend.Base.{
  ℕ, zero, suc, ◌+◌, ◌-◌, ◌*◌, ◌/◌, ◌≡◌, refl, ap, Option, none, some, [], ◌∷◌, ◌++◌, arith, length,
  ltb, if◌then◌else◌, take,
}
use virexa_backend.Base.Text.{Text, codes}
use virexa_backend.Platform.{Platform, Laws}

abbrev drop : ℕ → Text → Text
drop zero s = s
drop (suc n) [] = []
drop (suc n) (c ∷ s) = drop n s

abbrev only : Text → Option ℕ
only (c ∷ []) = some c
only _ = none

abbrev only_thousand : Text → Option ℕ
only_thousand (c ∷ []) = some (1000 * c)
only_thousand _ = none

abbrev only_digit : Text → Option ℕ
only_digit (c ∷ []) = some (if ltb c 200 then c - 48 else c - 200)
only_digit _ = none

abbrev digit : ℕ → ℕ
digit i = if ltb i 10 then 48 + i else 200 + i

-- 35 characters of a UUID
abbrev uuid_head : Text
uuid_head = codes "00000000-0000-4000-8000-00000000000"

abbrev read_cursor : Text → Option (Option Text × Option Text)
read_cursor [] = none
read_cursor (n ∷ s) = some (some (take n s), some (drop n s))

abbrev pub platform : Platform
platform = record {
  to_date = λ t. t / 1000;
  iso = λ m. m ∷ [];
  date_parse = only;
  timestamptz = only_thousand;
  uuid = λ s. only_digit (drop 35 s);
  uuid_text = λ i. uuid_head ++ digit i ∷ [];
  write_cursor = λ a b. length a ∷ (a ++ b);
  read_cursor = read_cursor;
  to_base64url = λ s. s;
  from_base64url = λ s. s;
}

take-append : (a b : Text) → take (length a) (a ++ b) ≡ a
take-append [] b = refl
take-append (c ∷ a) b = ap (λ s. c ∷ s) (take-append a b)

drop-append : (a b : Text) → drop (length a) (a ++ b) ≡ b
drop-append [] b = refl
drop-append (c ∷ a) b = drop-append a b

pub platform-Laws : Laws platform
platform-Laws = record {
  date_whole = λ m. omega arith;
  parse_iso = λ m. refl;
  cast_iso = λ m. refl;
  cast_uuid = λ i. ground arith;
  read_write = λ a b. ground (arith, take-append a b, drop-append a b);
  read_base64url = λ m i. refl;
  iso_full = λ m. refl;
  uuid_full = λ i. refl;
  uuid_plain = λ i. ground arith;
  cursor_full = λ a b. refl;
  base64url_full = λ c s. refl;
}
