-- ===== src/Agents/Repository/Laws.antt =====
-- Creation under a key, optimistic updates and pages of agents.
use virexa_backend.Base.{
  ℕ, suc, ◌+◌, ◌*◌, ◌<◌, ◌≡◌, refl, sym, subst, ap, ◌∙◌, true, Option, none, some, List, arith, map,
  All, All-imp, length, ok, throws, if◌then◌else◌, ◌⊎◌, inl, inr,
}
use virexa_backend.Base.Text.{Text, text_eq, is_uuid, trim-trim}
use virexa_backend.Base.Sql.{select, IsKeyed}
use virexa_backend.Platform.{Platform, Laws}
use virexa_backend.Paging.{order_desc}
use virexa_backend.Paging.Query.Follow.{query_page-follow, cut-whole}
use virexa_backend.Paging.Walk.{follow}
use virexa_backend.Paging.Cursor.{cursor_position-encode}
use virexa_backend.Keyed.{Tables, idempotency_key_reused, Created, create_keyed}
use virexa_backend.Keyed.Laws.{create_keyed-again}
use virexa_backend.Base.{first, ◌≢◌, Option-cases}
use virexa_backend.Base.Text.{trim}
use virexa_backend.Keyed.Version.{update_one_refused}
use virexa_backend.Keyed.{has_id}
use virexa_backend.Keyed.Version.{Assigns, update_one_lem, update_one_stale}
use virexa_backend.Workflows.Repository.Idempotency.{trim_or_null-trim_or_null}
use virexa_backend.Agents.{AgentStatus, AgentProjection, CreateAgentInput, UpdateAgentInput}
use virexa_backend.Agents.Repository.{
  AgentRow, map_agent, normalized_agent_payload, agent_hash, agent_row, columns, assign_agent,
  create_agent_idempotent, get_agent, update_agent, position, in_scope, encode_agent_cursor,
  decode_agent_cursor, list_agents,
}
use mathlib.Core.Option
use virexa_backend.Workflows.Repository.Fields.{
  given_or, nullable_text, plain_field, text_field, nullable_field,
}

normalized_agent_twice :
    (input : CreateAgentInput)
    → normalized_agent_payload (normalized_agent_payload input) ≡ normalized_agent_payload input
unfolding normalized_agent_payload
normalized_agent_twice input = ground (
  arith,
  trim-trim input.name,
  trim-trim input.instructions,
  trim_or_null-trim_or_null input.description,
)

module _ (hash : CreateAgentInput → Text) (to_date : ℕ → ℕ) (organization : ℕ) (key : Text) where
  opened :
      (now fresh user : ℕ) (input : CreateAgentInput) (t : Tables AgentRow)
      → create_agent_idempotent hash to_date now fresh organization user input key t
        ≡ create_keyed
            (columns to_date)
            (agent_row now fresh organization user (normalized_agent_payload input))
            key
            (agent_hash hash input)
            t
  unfolding create_agent_idempotent
  opened now fresh user input t =
      ap
        (λ n.
          create_keyed (columns to_date)
            (agent_row now fresh organization user (normalized_agent_payload input)) key (hash n) t)
        (normalized_agent_twice input)

  -- A second request with the key of a successful one gets its agent again and changes nothing, if
  -- the hash of its payload is that of the first; if not it is refused.
  pub create_agent_idempotent-again :
      (now fresh user now' fresh' user' : ℕ) (input other : CreateAgentInput)
      (t t' : Tables AgentRow) (r : Created AgentProjection)
      → create_agent_idempotent hash to_date now fresh organization user input key t ≡ ok (r, t')
      → create_agent_idempotent hash to_date now' fresh' organization user' other key t' ≡ (
          if text_eq (agent_hash hash input) (agent_hash hash other)
          then ok (record { item = r.item; replayed = true }, t')
          else throws idempotency_key_reused)
  create_agent_idempotent-again now fresh user now' fresh' user' input other t t' r h =
      opened now' fresh' user' other t'
      ∙ create_keyed-again (columns to_date) organization key _ _ (agent_hash hash input)
          (agent_hash hash other) t t' r refl refl (sym (opened now fresh user input t) ∙ h)

assign_agent-Assigns :
    (to_date : ℕ → ℕ) (now : ℕ) (input : UpdateAgentInput)
    → Assigns (columns to_date) (λ a. a.version) (assign_agent now input)
unfolding assign_agent
assign_agent-Assigns to_date now input = record {
  same_id = λ a. refl;
  same_organization = λ a. refl;
  next_version = λ a. refl;
}

module _ (to_date : ℕ → ℕ) (now : ℕ) (input : UpdateAgentInput) where
  -- the reply `w` to an update of the agent that was `old`, field by field
  pub record IsUpdated (old w : AgentProjection) : Type 0 where
    pub version_matches : old.version ≡ input.expected_version
    pub same_id : w.id ≡ old.id
    pub name : w.name ≡ given_or trim input.name old.name
    pub description : w.description ≡ given_or nullable_text input.description old.description
    pub persona : w.persona_id ≡ given_or (λ i. i) input.persona_id old.persona_id
    pub branch : w.branch_id ≡ given_or (λ i. i) input.branch_id old.branch_id
    pub department : w.department_id ≡ given_or (λ i. i) input.department_id old.department_id
    pub instructions : w.instructions ≡ given_or trim input.instructions old.instructions
    pub status : w.status ≡ given_or (λ s. s) input.status old.status
    pub version : w.version ≡ input.expected_version + 1
    pub same_creator : w.created_by_user_id ≡ old.created_by_user_id
    pub same_creation : w.created_at ≡ old.created_at
    pub updated : w.updated_at ≡ to_date now

  assigned-IsUpdated :
      (row : AgentRow)
      → row.version ≡ input.expected_version
      → IsUpdated (map_agent to_date row) (map_agent to_date (assign_agent now input row))
  unfolding assign_agent
  assigned-IsUpdated row same = record {
    version_matches = same;
    same_id = refl;
    name = text_field input.name row.name;
    description = nullable_field input.description row.description;
    persona = plain_field input.persona_id row.persona_id;
    branch = plain_field input.branch_id row.branch_id;
    department = plain_field input.department_id row.department_id;
    instructions = text_field input.instructions row.instructions;
    status = plain_field input.status row.status;
    version = ap (λ v. v + 1) same;
    same_creator = refl;
    same_creation = refl;
    updated = refl;
  }

-- An update of an agent either finds it at the expected version, and then stores and returns it
-- with each given field as the update gives it (texts trimmed, an empty description as null), every
-- other field as it was, the next version and a new update date, and a second update with the same
-- expected version changes nothing; or it changes nothing, and the organization has no such agent or
-- has it at another version.
pub update_agent_lem :
    (to_date : ℕ → ℕ) (organization id now later : ℕ) (rows : List AgentRow)
    (a b : UpdateAgentInput)
    → IsKeyed (λ r. r.id) rows
    → a.expected_version ≡ b.expected_version
    → ((old w : AgentProjection) × (after : List AgentRow) × (update_agent to_date now organization
            id a rows
          ≡ (some w, after))
        × (get_agent to_date organization id rows ≡ some old)
        × (get_agent to_date organization id after ≡ some w)
        × IsUpdated to_date now a old w
        × (update_agent to_date later organization id b after ≡ (none, after)))
      ⊎ ((update_agent to_date now organization id a rows ≡ (none, rows))
          × ((get_agent to_date organization id rows ≡ none)
              ⊎ ((old : AgentProjection) × (get_agent to_date organization id rows ≡ some old)
                  × (old.version ≢ a.expected_version))))
unfolding update_agent get_agent
update_agent_lem to_date organization id now later rows a b keyed same =
    let c = columns to_date in
    let aa = assign_agent-Assigns to_date now a in
    elim (update_one_lem c (λ r. r.version) organization id a.expected_version (λ r. true)
      (assign_agent now a) rows aa keyed) [
        | inr refused ↦ inr (
          refused,
          elim (Option-cases (first (select (has_id c organization id) rows))) [
            | inl missing ↦ inl (ground (arith, missing))
            | inr (row, read) ↦
                let stale =
                  update_one_refused c (λ r. r.version) organization id a.expected_version
                    (λ r. true) (assign_agent now a) rows aa keyed row refused read in
                inr (
                  map_agent to_date row,
                  ap (Option.map (map_agent to_date)) read,
                  ground (arith, stale),
                )
          ],
        )
        | inl (w, after, e, u) ↦ inl (
          map_agent to_date u.row,
          w,
          after,
          e,
          ap (Option.map (map_agent to_date)) u.read,
          ap (Option.map (map_agent to_date)) u.stored ∙ ap some (sym u.result),
          subst (IsUpdated to_date now a (map_agent to_date u.row)) (sym u.result)
              (assigned-IsUpdated to_date now a u.row u.version_matches),
          subst
              (λ v.
                update_agent to_date later organization id (record b { expected_version = v }) after
                ≡ (none, after))
              same
              (update_one_stale c (λ r. r.version) organization id a.expected_version (λ r. true)
                (λ r. true) (assign_agent now a) (assign_agent later b) rows after w aa
                (assign_agent-Assigns to_date later b) keyed e),
        )
      ]

module _ (p : Platform) where
  -- created at a whole millisecond, with an identifier that the cursor check accepts
  abbrev pub IsReadable : AgentRow → Type 0
  IsReadable a = (m : ℕ) × (a.created_at ≡ 1000 * m) × (is_uuid (p.uuid_text a.id) ≡ true)

  module _ (organization n : ℕ) (status : Option AgentStatus) (rows : List AgentRow) where
    -- the agents of the organization with the status, newest first
    abbrev pub listing : List AgentRow
    listing = order_desc position (select (in_scope organization status) rows)

    -- Where every agent was created at a whole millisecond and has an identifier that the cursor
    -- check accepts, a client that follows the cursors reads every agent of its organization with
    -- the requested status, once, newest first, if it makes more requests than there are such
    -- agents.
    pub list_agents-follow :
        (rounds : ℕ)
        → Laws p
        → All IsReadable rows
        → IsKeyed (λ a. a.id) rows
        → length listing < rounds
        → follow
            (λ cursor.
              list_agents p organization
                (record { limit = suc n; status = status; cursor = cursor })
                rows)
            rounds
            none
          ≡ some (map (map_agent p.to_date) listing)
    unfolding list_agents encode_agent_cursor decode_agent_cursor
    list_agents-follow rounds laws readable keyed small =
        query_page-follow p position (map_agent p.to_date) (encode_agent_cursor p)
          (decode_agent_cursor p) (in_scope organization status) n rows rounds
          (All-imp IsReadable _
            (λ a (m, whole, fits).
              cursor_position-encode p is_uuid a.created_at a.id laws fits
              ∙ ap (λ s. ok (some (record { stamp = s; id = a.id })))
                  (cut-whole p a.created_at m laws whole))
            rows readable)
          keyed small
