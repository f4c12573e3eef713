-- ===== src/Snippets/Laws.antt =====
-- What the stored snippets have in common.
use syncent.Base.{
  String, Bool, false, not, ◌&&◌, ◌||◌, Option, none, some, List, [], ◌∷◌, ◌++◌, All, str_eq, codes,
  ◌≡◌, inl, inr, refl, Bool-cases,
}
use syncent.External.{External}
use syncent.Http.{Request}
use syncent.Database.{Db, varchar}
use syncent.TwoFactor.{get_user_id}
use syncent.Tokens.{keep}
use syncent.Classifier.{classify_command}
use syncent.Snippets.{
  Snippet, SnippetBody, is_dangerous_tier, is_blocked_tier, insert_snippet, create_snippet_with,
  create_snippet, survives, delete_snippet,
}

-- The command is not a blocked one, and the flag says whether it is dangerous.
abbrev pub WellMarked : Snippet → Type 0
WellMarked s =
    (is_blocked_tier (classify_command (codes s.command)) ≡ false)
    × (s.is_dangerous ≡ is_dangerous_tier (classify_command (codes s.command)))

All-append :
    (l : List Snippet) (s : Snippet)
    → All WellMarked l
    → WellMarked s
    → All WellMarked (l ++ s ∷ [])
All-append [] s h k = (k, tt)
All-append (t ∷ l) s (a, h) k = (a, All-append l s h k)

All-keep : (p : Snippet → Bool) (l : List Snippet) → All WellMarked l → All WellMarked (keep p l)
unfolding keep
All-keep p [] h = tt
All-keep p (t ∷ l) (a, h) =
    let ih = All-keep p l h in elim (Bool-cases (p t)) [ inl e ↦ rw e (a, ih) | inr e ↦ rw e ih ]

insert_snippet-WellMarked :
    (id : String) (body : SnippetBody) (category user_id : String) (snippets : List Snippet)
    → is_blocked_tier (classify_command (codes body.command)) ≡ false
    → All WellMarked snippets
    → All WellMarked (
        insert_snippet id body category
          (is_dangerous_tier (classify_command (codes body.command)))
          user_id
          snippets)
unfolding insert_snippet
insert_snippet-WellMarked id body category user_id snippets f h =
    elim (Bool-cases (varchar 100 body.name && varchar 50 category && not (str_eq user_id ""))) [
      | inl e ↦ rw e (All-append snippets _ h (f, refl))
      | inr e ↦ rw e h
    ]

module _ (x : External) (r : Request) where
  -- `CreateSnippet` stores no blocked command, and marks each command that it stores as dangerous
  -- exactly where the classifier finds it so: rows that are marked well stay so.
  pub create_snippet-WellMarked :
      (body : Option SnippetBody) (db : Db) (snippets : List Snippet)
      → All WellMarked snippets
      → All WellMarked (create_snippet x r body db snippets).0
  unfolding create_snippet create_snippet_with insert_snippet
  create_snippet-WellMarked none db snippets h = h
  create_snippet-WellMarked (some body) db snippets h =
      elim (Bool-cases (str_eq body.name "" || str_eq body.command "")) [
        | inl e ↦ rw e h
        | inr e ↦ elim (Bool-cases (is_blocked_tier (classify_command (codes body.command)))) [
          | inl f ↦ rw (e, create_snippet_with, f) h
          | inr f ↦
              rw (e, create_snippet_with, f) (insert_snippet-WellMarked _ body _ _ snippets f h)
        ]
      ]

  -- `DeleteSnippet` keeps the rows well marked.
  pub delete_snippet-WellMarked :
      (id : String) (db : Db) (snippets : List Snippet)
      → All WellMarked snippets
      → All WellMarked (delete_snippet x r id db snippets).0
  unfolding delete_snippet
  delete_snippet-WellMarked id db snippets h =
      elim (Bool-cases (str_eq (get_user_id r.username db) "")) [
        | inl e ↦ rw e h
        | inr e ↦ rw e (All-keep (survives x r id (get_user_id r.username db)) snippets h)
      ]
