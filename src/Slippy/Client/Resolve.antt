-- ===== src/Slippy/Client/Resolve.antt =====
-- slippy/resolve.go: finding the slip of a push, by the ancestry of its commit or by an image tag. The
-- GitHub client (github/, used through slippy/interfaces.go) is an argument.
use Prim.Native.Char.{Char, code}
use Prim.Native.String.{count}
use go_lib_my_carrier.Base.{
  ℕ, Bool, true, ◌&&◌, ◌||◌, Option, none, some, String, ◌==◌, List, [], ◌∷◌, leb, nat_eq, concat,
  Result, ok, err, if◌then◌else◌,
}
use go_lib_my_carrier.Slippy.Errors.{Error, sentinel, wrap, resolve_error, Sentinel}
use go_lib_my_carrier.Slippy.Types.{Slip, SlipWithCommit}
use go_lib_my_carrier.Slippy.Client.Interface.{SlipStore}
use go_lib_my_carrier.Slippy.Client.Base.{Config, or_default}

pub record GitHub : Type 0 where
  pub get_commit_ancestry : String → String → String → ℕ → Result Error (List String)
  pub get_pr_head_commit : String → String → ℕ → Result Error String

pub record ResolveOptions : Type 0 where
  pub repository : String
  pub branch : String
  pub ref : String
  pub image_tag : String
  pub ancestry_depth : ℕ

pub record ResolveResult : Type 0 where
  pub slip : Slip
  pub resolved_by : String
  pub matched_commit : String
  pub warnings : List Error

abbrev cut_here : Char → String → Option (String × String) → Option (String × String)
cut_here c s none = none
cut_here c s (some (before, after)) = some (String.◌∷◌ c before, after)

-- The text before the first occurrence of a code point, and the text after it.
unfoldable pub cut_at : ℕ → String → Option (String × String)
cut_at sep String.[] = none
cut_at sep (String.◌∷◌ c s) =
    let rest = cut_at sep s in if nat_eq (code c) sep then some ("", s) else cut_here c s rest

abbrev pub both_named : Option (String × String) → Option (String × String)
both_named none = none
both_named (some (owner, repo)) = if owner == "" || repo == "" then none else some (owner, repo)

abbrev repository_or_error : String → Option (String × String) → Result Error (String × String)
repository_or_error full_name (some parts) = ok parts
repository_or_error full_name none =
    err (wrap "" (sentinel Sentinel.invalid_repository) (concat (": " ∷ full_name ∷ [])))

-- `parseRepository`.
unfoldable pub parse_repository : String → Result Error (String × String)
unfolding cut_at
parse_repository full_name = repository_or_error full_name (both_named (cut_at b'/' full_name))

-- `tag[strings.LastIndex(tag, ":")+1:]`: what follows the last colon, or the whole tag.
unfoldable pub after_last_colon : String → String → String
after_last_colon kept String.[] = kept
after_last_colon kept (String.◌∷◌ c s) =
    after_last_colon (if nat_eq (code c) b':' then s else kept) s

abbrev is_hex : ℕ → Bool
is_hex c = (leb b'a' c && leb c b'f') || (leb b'0' c && leb c b'9')

unfoldable pub hex_prefix : String → String
hex_prefix String.[] = ""
hex_prefix (String.◌∷◌ c s) =
    let rest = hex_prefix s in if is_hex (code c) then String.◌∷◌ c rest else ""

-- The run of hexadecimal digits ends at a dash or at the end of the text.
unfoldable pub ends_well : String → Bool
ends_well String.[] = true
ends_well (String.◌∷◌ c s) =
    let rest = ends_well s in if is_hex (code c) then rest else nat_eq (code c) b'-'

-- `([a-f0-9]{7,40})(?:$|-)` at the front of a text. A shorter match is followed by a digit, so only
-- the whole run can match.
unfoldable pub match_here : String → Option String
unfolding hex_prefix ends_well
match_here s =
    let run = hex_prefix s in
    if leb 7 (count run) && leb (count run) 40 && ends_well s then some run else none

-- The leftmost match that a colon or a dash precedes.
unfoldable pub match_after : String → Option String
unfolding match_here
match_after String.[] = none
match_after (String.◌∷◌ c s) =
    let later = match_after s in
    if nat_eq (code c) b':' || nat_eq (code c) b'-'
    then elim (match_here s) [ some run ↦ some run | none ↦ later ]
    else later

abbrev found_or_empty : Option String → String
found_or_empty none = ""
found_or_empty (some run) = run

-- `extractCommitFromImageTag`.
unfoldable pub extract_commit_from_image_tag : String → String
unfolding after_last_colon match_here match_after
extract_commit_from_image_tag tag =
    let t = after_last_colon tag tag in
    elim (match_here t) [ some run ↦ run | none ↦ found_or_empty (match_after t) ]

module _ (S : SlipStore) (G : GitHub) (config : Config) where
  open S use {
    State, load_by_commit as store_load_by_commit, find_by_commits as store_find_by_commits,
  }

  -- The end of `ResolveSlip`: the image tag, with the warnings so far.
  abbrev pub tag_loaded :
      ResolveOptions → String → List Error → Result Error Slip → Result Error ResolveResult
  tag_loaded opts commit_sha warnings (err e) =
      err (resolve_error opts.repository opts.ref (sentinel Sentinel.slip_not_found))
  tag_loaded opts commit_sha warnings (ok slip) = ok (record {
    slip = slip;
    resolved_by = "image_tag";
    matched_commit = commit_sha;
    warnings = warnings;
  })

  unfoldable pub resolve_by_tag : ResolveOptions → List Error → State → Result Error ResolveResult
  unfolding extract_commit_from_image_tag
  resolve_by_tag opts warnings s =
      let commit_sha = extract_commit_from_image_tag opts.image_tag in
      if opts.image_tag == "" || commit_sha == ""
      then err (resolve_error opts.repository opts.ref (sentinel Sentinel.slip_not_found))
      else tag_loaded opts commit_sha warnings (store_load_by_commit opts.repository commit_sha s)

  abbrev pub ancestry_found :
      ResolveOptions → State → Result Error SlipWithCommit → Result Error ResolveResult
  ancestry_found opts s (err e) = resolve_by_tag opts [] s
  ancestry_found opts s (ok found) = ok (record {
    slip = found.slip;
    resolved_by = "ancestry";
    matched_commit = found.matched_commit;
    warnings = [];
  })

  -- The three cases of the ancestry lookup.
  abbrev pub resolve_commits :
      ResolveOptions → State → Result Error (List String) → Result Error ResolveResult
  resolve_commits opts s (err e) =
      resolve_by_tag opts (wrap "ancestry resolution failed: " e "" ∷ []) s
  resolve_commits opts s (ok []) = resolve_by_tag opts [] s
  resolve_commits opts s (ok (commit ∷ commits)) =
      ancestry_found opts s (store_find_by_commits opts.repository (commit ∷ commits) s)

  abbrev pub resolve_in :
      ResolveOptions → State → Result Error (String × String) → Result Error ResolveResult
  resolve_in opts s (err e) = err e
  resolve_in opts s (ok (owner, repo)) =
      if opts.ref == ""
      then resolve_by_tag opts [] s
      else resolve_commits opts s (
          G.get_commit_ancestry owner repo opts.ref
            (or_default opts.ancestry_depth config.ancestry_depth))

  -- `ResolveSlip`, which only reads the store.
  unfoldable pub resolve_slip : ResolveOptions → State → Result Error ResolveResult
  unfolding parse_repository resolve_by_tag
  resolve_slip opts s = resolve_in opts s (parse_repository opts.repository)
