-- ===== src/Auth/Passwords/Tests.antt =====
-- The theorem on password hashes at concrete primitives.
use virexa_backend.Base.{ℕ, ◌≡◌, refl, ◌+◌, true, false, some, [], ◌∷◌, arith, ◌==◌, length}
use virexa_backend.Base.Text.{Text, codes, text_eq}
use virexa_backend.Base.{zero, suc, ◌-◌, ◌++◌, any}
use virexa_backend.Auth.Passwords.{
  Bytes, Primitives, IsSound, hash_password, verify_password, verify_password-hash_password,
}

-- as many units of a text, filled up with zeros
pad : ℕ → Text → Bytes
pad zero s = []
pad (suc n) [] = 0 ∷ pad n []
pad (suc n) (c ∷ s) = c ∷ pad n s

length-pad : (n : ℕ) (s : Text) → length (pad n s) ≡ n
unfolding pad
length-pad zero s = refl
length-pad (suc n) [] = omega (arith, length-pad n [])
length-pad (suc n) (c ∷ s) = omega (arith, length-pad n s)

-- a key that is the padded password, and texts that shift each byte
shift_up : Bytes → Text
shift_up [] = []
shift_up (u ∷ b) = (u + 100) ∷ shift_up b

shift_down : Text → Bytes
shift_down [] = []
shift_down (u ∷ b) = (u - 100) ∷ shift_down b

abbrev primitives : Primitives
primitives = record {
  scrypt = λ p salt. some (pad 64 p);
  to_base64url = shift_up;
  from_base64url = shift_down;
}

shift_down-shift_up : (b : Bytes) → shift_down (shift_up b) ≡ b
unfolding shift_up shift_down
shift_down-shift_up [] = refl
shift_down-shift_up (u ∷ b) = ground (arith, shift_down-shift_up b)

shift_up_plain : (b : Bytes) → any (λ u. u == 36) (shift_up b) ≡ false
unfolding shift_up
shift_up_plain [] = refl
shift_up_plain (u ∷ b) = ground (arith, shift_up_plain b)

primitives-IsSound : IsSound primitives
unfolding shift_up
primitives-IsSound = record {
  read_back = shift_down-shift_up;
  plain = shift_up_plain;
  full = λ u b. refl;
  key_length = λ p salt key h. ground (arith, length-pad 64 p);
}

abbrev salt : Bytes
salt = pad 32 (codes "salt")

hash_password_test :
    hash_password primitives salt (codes "correct horse")
    ≡ some (
        codes "scrypt-v1$"
        ++ shift_up salt
        ++ codes "$"
        ++ shift_up (pad 64 (codes "correct horse")))
unfolding hash_password
hash_password_test = refl

verify_password-hash_password_example :
    (verify_password primitives (codes "correct horse") (
        codes "scrypt-v1$"
        ++ shift_up salt
        ++ codes "$"
        ++ shift_up (pad 64 (codes "correct horse")))
      ≡ true)
    × (verify_password primitives (codes "wrong") (
          codes "scrypt-v1$"
          ++ shift_up salt
          ++ codes "$"
          ++ shift_up (pad 64 (codes "correct horse")))
        ≡ text_eq (pad 64 (codes "wrong")) (pad 64 (codes "correct horse")))
verify_password-hash_password_example =
    verify_password-hash_password primitives salt (pad 64 (codes "correct horse"))
      (codes "correct horse") (codes "wrong")
      (codes "scrypt-v1$"
        ++ shift_up salt
        ++ codes "$"
        ++ shift_up (pad 64 (codes "correct horse")))
      primitives-IsSound (length-pad 32 (codes "salt")) refl hash_password_test
