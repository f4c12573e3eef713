-- ===== src/Snippets.antt =====
-- The command snippets of internal/handlers/api.go: ClassifyCommandPreview, CreateSnippet and
-- DeleteSnippet, on the rows of the table in order of insertion.
pub mod Laws
use syncent.Base.{
  ℕ, String, Bool, true, false, not, ◌&&◌, ◌||◌, Option, none, some, List, [], ◌∷◌, ◌++◌, str_eq,
  codes, if◌then◌else◌,
}
use syncent.External.{External}
use syncent.Http.{Response, Request, Value, text, bool, respond_json, respond_error}
use syncent.Database.{Db, varchar}
use syncent.Tokens.{keep}
use syncent.Classifier.{CommandTier, tier_safe, tier_dangerous, tier_blocked, classify_command}
use syncent.TwoFactor.{get_user_id}
use syncent.Execute.{tier_text}

pub record Snippet : Type 0 where
  pub id : String
  pub name : String
  pub command : String
  pub category : String
  pub is_dangerous : Bool
  pub user_id : Option String

pub record SnippetBody : Type 0 where
  pub name : String
  pub command : String
  pub category : String

abbrev pub is_dangerous_tier : CommandTier → Bool
is_dangerous_tier tier_safe = false
is_dangerous_tier tier_dangerous = true
is_dangerous_tier tier_blocked = false

abbrev pub is_blocked_tier : CommandTier → Bool
is_blocked_tier tier_safe = false
is_blocked_tier tier_dangerous = false
is_blocked_tier tier_blocked = true

unfoldable pub classify_command_preview : String → Response
unfolding respond_json
classify_command_preview cmd =
    let tier = classify_command (codes cmd) in
    respond_json 200 (
      ("command", text cmd)
      ∷ ("tier", text (tier_text tier))
      ∷ ("requires_totp", bool (is_dangerous_tier tier))
      ∷ ("blocked", bool (is_blocked_tier tier))
      ∷ [])

-- the INSERT of `CreateSnippet`, whose error is dropped: it fails where a value does not fit its
-- column and where the user id is no UUID, as the empty one
unfoldable pub insert_snippet :
    String → SnippetBody → String → Bool → String → List Snippet → List Snippet
insert_snippet id body category dangerous user_id snippets =
    if varchar 100 body.name && varchar 50 category && not (str_eq user_id "")
    then snippets
      ++ record {
        id = id;
        name = body.name;
        command = body.command;
        category = category;
        is_dangerous = dangerous;
        user_id = some user_id;
      }
        ∷ []
    else snippets

-- the id of a row that was not inserted is the nil UUID
abbrev nil_uuid : String
nil_uuid = "00000000-0000-0000-0000-000000000000"

module _ (x : External) (r : Request) where
  unfoldable pub create_snippet_with :
      SnippetBody → CommandTier → Db → List Snippet → List Snippet × Response
  create_snippet_with body tier db snippets =
      if is_blocked_tier tier
      then (snippets, respond_error 403 "COMMAND_BLOCKED" "Cannot save blocked command.")
      else (let id = x.uuid (r.random 0) in
          let category = if str_eq body.category "" then "custom" else body.category in
          let user_id = get_user_id r.username db in
          let stored = varchar 100 body.name && varchar 50 category && not (str_eq user_id "") in
          (
            insert_snippet id body category (is_dangerous_tier tier) user_id snippets,
            respond_json 201 (
                ("id", text (if stored then id else nil_uuid))
                ∷ ("name", text body.name)
                ∷ ("tier", text (tier_text tier))
                ∷ ("message", text "Snippet saved.")
                ∷ []),
          ))

  unfoldable pub create_snippet : Option SnippetBody → Db → List Snippet → List Snippet × Response
  create_snippet none db snippets =
      (snippets, respond_error 400 "INVALID_INPUT" "Name and command required.")
  create_snippet (some body) db snippets =
      if str_eq body.name "" || str_eq body.command ""
      then (snippets, respond_error 400 "INVALID_INPUT" "Name and command required.")
      else create_snippet_with body (classify_command (codes body.command)) db snippets

  -- WHERE id=$1 AND (user_id=$2 OR user_id IS NULL), negated
  abbrev pub survives : String → String → Snippet → Bool
  survives id user_id s =
      not (str_eq s.id id && (elim s.user_id [ none ↦ true | some owner ↦ str_eq owner user_id ]))

  -- the DELETE fails where the user id is no UUID
  unfoldable pub delete_snippet : String → Db → List Snippet → List Snippet × Response
  delete_snippet id db snippets =
      let user_id = get_user_id r.username db in
      (
        if str_eq user_id "" then snippets else keep (survives id user_id) snippets,
        respond_json 200 (("message", text "Snippet deleted.") ∷ []),
      )
