-- ===== src/Paging/Cursor.antt =====
-- The cursors that are base64url text of JSON with a date and an identifier:
-- src/workflows/repository.ts, src/agents/repository.ts and src/documents/repository.ts.
use virexa_backend.Base.{
  ℕ, ◌*◌, ◌≡◌, Bool, true, ◌&&◌, Option, none, some, arith, is_some, if◌then◌else◌, ok,
}
use virexa_backend.Base.Text.{Text}
use virexa_backend.Platform.{Platform, Laws}
use virexa_backend.Paging.Query.{cursor_position}
use virexa_backend.Paging.Query.Follow.{cast_position-iso}

module _ (p : Platform) where
  unfoldable pub encode_cursor : ℕ → ℕ → Text
  encode_cursor created id = p.write_cursor (p.iso created) (p.uuid_text id)

  -- both fields are strings, the date parses, and the identifier is accepted
  checked_cursor : (Text → Bool) → Option Text × Option Text → Option (Text × Text)
  checked_cursor accepts (some created, some id) =
      if is_some (p.date_parse created) && accepts id then some (created, id) else none
  checked_cursor accepts _ = none

  unfoldable pub decode_cursor : (Text → Bool) → Text → Option (Text × Text)
  unfolding checked_cursor
  decode_cursor accepts cursor = elim (p.read_cursor cursor) [
    | none ↦ none
    | some fields ↦ checked_cursor accepts fields
  ]

  -- a printed cursor stands for its identifier and for its date in whole milliseconds
  pub cursor_position-encode :
      (accepts : Text → Bool) (t i : ℕ)
      → Laws p
      → accepts (p.uuid_text i) ≡ true
      → cursor_position p (decode_cursor accepts) (some (encode_cursor (p.to_date t) i))
        ≡ ok (some (record { stamp = 1000 * p.to_date t; id = i }))
  unfolding cursor_position encode_cursor decode_cursor
  cursor_position-encode accepts t i laws fits = ground (
    arith,
    laws.read_write (p.iso (p.to_date t)) (p.uuid_text i),
    laws.parse_iso (p.to_date t),
    fits,
    cast_position-iso p t i laws,
  )
