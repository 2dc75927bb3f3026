-- ===== src/Platform.antt =====
-- What the repositories use of the platform: `Date`, `Buffer` and `JSON` of Node.js, the value
-- conversions of the driver `pg`, and the casts of PostgreSQL. None of it is code of the
-- repository, so it is a parameter, with the documented behaviour that the theorems need as laws.
pub mod Concrete
use virexa_backend.Base.{ℕ, ◌*◌, ◌≡◌, false, Option, some, ◌∷◌, ◌++◌, any, ◌==◌}
use virexa_backend.Base.Text.{Text, codes, is_empty}

-- A `timestamptz` is a number of microseconds, a `Date` a number of milliseconds, a `uuid` a number.
pub record Platform : Type 0 where
  -- the driver: the `Date` that stands for a `timestamptz`
  pub to_date : ℕ → ℕ
  -- `date.toISOString()`
  pub iso : ℕ → Text
  -- `Date.parse(text)`, null for NaN
  pub date_parse : Text → Option ℕ
  -- `text::timestamptz` and `text::uuid`, null where the cast raises an error
  pub timestamptz : Text → Option ℕ
  pub uuid : Text → Option ℕ
  -- a `uuid` as the driver returns it
  pub uuid_text : ℕ → Text
  -- `Buffer.from(JSON.stringify({ createdAt, id }), 'utf8').toString('base64url')`
  pub write_cursor : Text → Text → Text
  -- `JSON.parse(Buffer.from(cursor, 'base64url').toString('utf8'))`: the two fields, each null
  -- where it is no string; null where the parse throws
  pub read_cursor : Text → Option (Option Text × Option Text)
  -- `Buffer.from(text, 'utf8').toString('base64url')`, and back
  pub to_base64url : Text → Text
  pub from_base64url : Text → Text

-- Documented behaviour: printed dates, identifiers and cursors are read back, and a `Date` made
-- from a whole number of milliseconds is that number.
pub record Laws (p : Platform) : Type 0 where
  pub date_whole : (m : ℕ) → p.to_date (1000 * m) ≡ m
  pub parse_iso : (m : ℕ) → p.date_parse (p.iso m) ≡ some m
  pub cast_iso : (m : ℕ) → p.timestamptz (p.iso m) ≡ some (1000 * m)
  pub cast_uuid : (i : ℕ) → p.uuid (p.uuid_text i) ≡ some i
  pub read_write : (a b : Text) → p.read_cursor (p.write_cursor a b) ≡ some (some a, some b)
  -- ASCII text is read back from base64url
  pub read_base64url :
      (m i : ℕ)
      → p.from_base64url (p.to_base64url (p.iso m ++ codes "|" ++ p.uuid_text i))
        ≡ p.iso m ++ codes "|" ++ p.uuid_text i
  -- the printed forms are not empty, and an identifier has hexadecimal digits and dashes only
  pub iso_full : (m : ℕ) → is_empty (p.iso m) ≡ false
  pub uuid_full : (i : ℕ) → is_empty (p.uuid_text i) ≡ false
  pub uuid_plain : (i : ℕ) → any (λ c. c == 124) (p.uuid_text i) ≡ false
  -- cursors are not empty: base64url of a text that is not
  pub cursor_full : (a b : Text) → is_empty (p.write_cursor a b) ≡ false
  pub base64url_full : (c : ℕ) (s : Text) → is_empty (p.to_base64url (c ∷ s)) ≡ false
