-- ===== src/Base/Text.antt =====
-- JavaScript strings as lists of UTF-16 code units: `===`, `trim` and the UUID pattern of the
-- cursor checks (src/workflows/repository.ts, src/agents/repository.ts).
use Prim.Native.String.{String}
use Prim.Native.Char.{code}
use virexa_backend.Base.{
  ℕ, ◌≡◌, refl, ◌↔◌, Bool, true, false, ◌&&◌, ◌||◌, List, [], ◌∷◌, Option, none, some, arith, ◌==◌,
  leb, if◌then◌else◌, Bool-cases, inl, inr,
}

abbrev pub Text : Type 0
Text = List ℕ

-- a literal
abbrev pub codes : String → Text
codes String.[] = []
codes (String.◌∷◌ c s) = code c ∷ codes s

unfoldable pub text_eq : Text → Text → Bool
text_eq [] [] = true
text_eq (c ∷ s) (d ∷ t) = c == d && text_eq s t
text_eq _ _ = false

pub text_eq_iff : (s t : Text) → (text_eq s t ≡ true) ↔ (s ≡ t)
unfolding text_eq
text_eq_iff [] [] = ((λ _. refl), (λ _. refl))
text_eq_iff [] (d ∷ t) = ((λ h. cc), (λ h. cc))
text_eq_iff (c ∷ s) [] = ((λ h. cc), (λ h. cc))
text_eq_iff (c ∷ s) (d ∷ t) = ground (arith, text_eq_iff s t)

pub text_eq_refl : (s : Text) → text_eq s s ≡ true
text_eq_refl s = (text_eq_iff s s).1 refl

-- WhiteSpace and LineTerminator of ECMAScript
is_space : ℕ → Bool
is_space c =
    (leb 9 c && leb c 13)
    || c == 32
    || c == 160
    || c == 5760
    || (leb 8192 c && leb c 8202)
    || c == 8232
    || c == 8233
    || c == 8239
    || c == 8287
    || c == 12288
    || c == 65279

trim_start : Text → Text
trim_start [] = []
trim_start (c ∷ s) = let rest = trim_start s in if is_space c then rest else c ∷ s

-- the unit stays where something that is no space follows it
close : ℕ → Text → Text
close c [] = if is_space c then [] else c ∷ []
close c (d ∷ s) = c ∷ d ∷ s

trim_end : Text → Text
unfolding close
trim_end [] = []
trim_end (c ∷ s) = close c (trim_end s)

unfoldable pub trim : Text → Text
unfolding trim_start trim_end is_space
trim s = trim_end (trim_start s)

-- `!s`
abbrev pub is_empty : Text → Bool
is_empty [] = true
is_empty (c ∷ s) = false

-- an optional text that is tested by `!value`
abbrev pub present : Option Text → Option Text
present none = none
present (some s) = if is_empty s then none else some s

close_twice : (c : ℕ) (s : Text) → trim_end s ≡ s → trim_end (close c s) ≡ close c s
unfolding trim_end close
close_twice c [] h = ground arith
close_twice c (d ∷ s) h = rw h

trim_end_twice : (s : Text) → trim_end (trim_end s) ≡ trim_end s
unfolding trim_end
trim_end_twice [] = refl
trim_end_twice (c ∷ s) = close_twice c (trim_end s) (trim_end_twice s)

trim_start-close : (c : ℕ) (s : Text) → is_space c ≡ false → trim_start (close c s) ≡ close c s
unfolding trim_start close
trim_start-close c [] h = ground arith
trim_start-close c (d ∷ s) h = ground arith

trim_start-trim_end : (s : Text) → trim_start (trim_end (trim_start s)) ≡ trim_end (trim_start s)
unfolding trim_start trim_end
trim_start-trim_end [] = refl
trim_start-trim_end (c ∷ s) = elim (Bool-cases (is_space c)) [
  | inl space ↦ rw (space) (trim_start-trim_end s)
  | inr other ↦ rw (other) (trim_start-close c (trim_end s) other)
]

-- trimming twice is trimming once
pub trim-trim : (s : Text) → trim (trim s) ≡ trim s
unfolding trim
trim-trim s = rw (trim_start-trim_end s) (trim_end_twice (trim_start s))

in_range : ℕ → ℕ → ℕ → Bool
in_range lo hi c = leb lo c && leb c hi

-- [0-9a-f] under the flag `i`
is_hex : ℕ → Bool
unfolding in_range
is_hex c = in_range 48 57 c || in_range 97 102 c || in_range 65 70 c

-- one test for each unit of the text
matches : List (ℕ → Bool) → Text → Bool
matches [] [] = true
matches (p ∷ ps) (c ∷ s) = p c && matches ps s
matches _ _ = false

repeat : List (ℕ → Bool) → ℕ → List (ℕ → Bool)
repeat rest ℕ.zero = rest
repeat rest (ℕ.suc n) = is_hex ∷ repeat rest n

is_dash : ℕ → Bool
is_dash c = c == 45

-- [1-5]
is_version : ℕ → Bool
unfolding in_range
is_version c = in_range 49 53 c

-- [89ab]
is_variant : ℕ → Bool
is_variant c = c == 56 || c == 57 || c == 97 || c == 98 || c == 65 || c == 66

-- /^[0-9a-f]{8}-[0-9a-f]{4}-[1-5][0-9a-f]{3}-[89ab][0-9a-f]{3}-[0-9a-f]{12}$/i
unfoldable pub is_uuid : Text → Bool
unfolding matches repeat is_hex is_dash is_version is_variant
is_uuid = matches (
    repeat
      (is_dash
        ∷ repeat
            (is_dash
              ∷ is_version
              ∷ repeat (is_dash ∷ is_variant ∷ repeat (is_dash ∷ repeat [] 12) 3) 3)
            4)
      8)

is_uuid_test : is_uuid (codes "3f2504e0-4f89-41d3-9a0c-0305e82c3301") ≡ true
unfolding is_uuid
is_uuid_test = refl

is_uuid_nil : is_uuid (codes "00000000-0000-0000-0000-000000000000") ≡ false
unfolding is_uuid
is_uuid_nil = refl

trim_test : trim (codes "  a b ") ≡ codes "a b"
unfolding trim
trim_test = refl
