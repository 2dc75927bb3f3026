-- ===== src/Auth/Passwords.antt =====
-- Password hashes: src/auth/crypto.ts. Random bytes, scrypt (null where it throws) and base64url are
-- parameters; bytes are numbers.
mod Tests
use virexa_backend.Base.{
  ℕ, ◌+◌, ◌≡◌, refl, ap, ◌∙◌, arith, Bool, true, false, ◌||◌, not, Option, none, some, List, [],
  ◌∷◌, ◌++◌, ◌==◌, any, length, if◌then◌else◌, Option-cases, inl, inr,
}
use virexa_backend.Base.Text.{Text, codes, text_eq, text_eq_refl, is_empty}

abbrev pub Bytes : Type 0
Bytes = List ℕ

pub record Primitives : Type 0 where
  pub scrypt : Text → Bytes → Option Bytes
  pub to_base64url : Bytes → Text
  pub from_base64url : Text → Bytes

-- what is relied on: base64url texts are read back, have no '$', and are empty for no byte only;
-- scrypt derives KEY_LENGTH bytes
pub record IsSound (c : Primitives) : Type 0 where
  pub read_back : (b : Bytes) → c.from_base64url (c.to_base64url b) ≡ b
  pub plain : (b : Bytes) → any (λ u. u == 36) (c.to_base64url b) ≡ false
  pub full : (u : ℕ) (b : Bytes) → is_empty (c.to_base64url (u ∷ b)) ≡ false
  pub key_length : (p : Text) (salt key : Bytes) → c.scrypt p salt ≡ some key → length key ≡ 64

abbrev pub hash_version : Text
hash_version = codes "scrypt-v1"

-- puts a unit in front of the first part
onto_first : ℕ → List Text → List Text
onto_first c [] = (c ∷ []) ∷ []
onto_first c (part ∷ parts) = (c ∷ part) ∷ parts

-- `split('$')`
unfoldable pub split_dollar : Text → List Text
unfolding onto_first
split_dollar [] = [] ∷ []
split_dollar (c ∷ s) = let rest = split_dollar s in if c == 36 then [] ∷ rest else onto_first c rest

module _ (c : Primitives) where
  -- the hash for the random bytes `salt`
  unfoldable pub hash_password : Bytes → Text → Option Text
  hash_password salt password = elim (c.scrypt password salt) [
    | none ↦ none
    | some key ↦
        some (hash_version ++ codes "$" ++ c.to_base64url salt ++ codes "$" ++ c.to_base64url key)
  ]

  -- `timingSafeEqual`, false where it throws for two lengths
  derived : Bytes → Option Bytes → Bool
  derived expected none = false
  derived expected (some actual) = text_eq actual expected

  verify_parts : Text → Text → Text → Bool
  unfolding derived
  verify_parts password salt_value hash_value =
      let salt = c.from_base64url salt_value in
      let expected = c.from_base64url hash_value in
      if not (length salt == 32) || not (length expected == 64)
      then false
      else derived expected (c.scrypt password salt)

  -- the first three parts; a missing one is undefined
  with_parts : Text → List Text → Bool
  unfolding verify_parts
  with_parts password (version ∷ salt_value ∷ hash_value ∷ _) =
      if not (text_eq version hash_version) || is_empty salt_value || is_empty hash_value
      then false
      else verify_parts password salt_value hash_value
  with_parts password _ = false

  unfoldable pub verify_password : Text → Text → Bool
  unfolding with_parts
  verify_password password encoded_hash = with_parts password (split_dollar encoded_hash)

  split_plain : (s : Text) → any (λ u. u == 36) s ≡ false → split_dollar s ≡ s ∷ []
  unfolding split_dollar
  split_plain [] h = refl
  split_plain (u ∷ s) h = ground (arith, split_plain s)

  split_first :
      (s t : Text)
      → any (λ u. u == 36) s ≡ false
      → split_dollar (s ++ codes "$" ++ t) ≡ s ∷ split_dollar t
  unfolding split_dollar
  split_first [] t h = refl
  split_first (u ∷ s) t h = ground (arith, split_first s t)

  filled : (b : Bytes) (n : ℕ) → IsSound c → length b ≡ n + 1 → is_empty (c.to_base64url b) ≡ false
  filled [] n sound h = absurd (ground arith)
  filled (u ∷ b) n sound h = sound.full u b

  -- A password is verified against the hash of another, made with 32 bytes of salt, exactly if scrypt
  -- derives the same key from both: always for the same password.
  pub verify_password-hash_password :
      (salt key : Bytes) (password password' hash : Text)
      → IsSound c
      → length salt ≡ 32
      → c.scrypt password salt ≡ some key
      → hash_password salt password ≡ some hash
      → (verify_password password hash ≡ true)
        × (verify_password password' hash
            ≡ (elim (c.scrypt password' salt) [ none ↦ false | some k ↦ text_eq k key ]))
  unfolding hash_password verify_password
  verify_password-hash_password salt key password password' hash sound salted keyed made =
      let sized = sound.key_length password salt key keyed in
      let split : split_dollar hash ≡ hash_version ∷ c.to_base64url salt ∷ c.to_base64url key ∷ [] =
        let told : hash_version
              ++ codes "$"
              ++ c.to_base64url salt
              ++ codes "$"
              ++ c.to_base64url key
            ≡ hash =
          ground (arith, keyed) in
        rw (← told) (
          split_first hash_version (c.to_base64url salt ++ codes "$" ++ c.to_base64url key) refl
          ∙ ap (◌∷◌ hash_version) (
              split_first (c.to_base64url salt) (c.to_base64url key) (sound.plain salt)
              ∙ ap (◌∷◌ (c.to_base64url salt))
                  (split_plain (c.to_base64url key) (sound.plain key)))) in
      let named = text_eq_refl hash_version in
      let salt_full = filled salt 31 sound salted in
      let key_full = filled key 63 sound sized in
      let read_salt = sound.read_back salt in
      let read_key = sound.read_back key in
      (
        ground (
          arith,
          split,
          named,
          salt_full,
          key_full,
          read_salt,
          read_key,
          salted,
          sized,
          keyed,
          text_eq_refl key,
        ),
        elim (Option-cases (c.scrypt password' salt)) [
          | inl failed ↦
              ground (
                arith, split, named, salt_full, key_full, read_salt, read_key, salted, sized,
                failed,
              )
          | inr (k, other) ↦
              ground (
                arith, split, named, salt_full, key_full, read_salt, read_key, salted, sized, other,
              )
        ],
      )
