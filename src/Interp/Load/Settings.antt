-- ===== src/Interp/Load/Settings.antt =====
-- interp/load_variables.go, interp/load_include.go and interp/load_ihave.go: the loaders of set, include, return, global and error.
use go_sieve.Interp.Load.Actions.{LoadedCmd, load_bare, reason_spec}
use go_sieve.Interp.Execute
use go_sieve.Interp.Include.{Include}
use go_sieve.Interp.Load.Shape.{
  LoadError, Spec, plain_spec, SpecTag, bool_tag, str_arg, first, need, need_if,
}
use go_sieve.Interp.Load.Shape.{conflicting_modifiers, cannot_set, invalid_name}
use go_sieve.Interp.Load.Spec.{Given, load_spec}
use go_sieve.Interp.Pattern.{
  Modifiers, mod_length, mod_quote_wildcard, mod_upper_first, mod_lower_first, percent_encode,
  build_value_modifier,
}
use go_sieve.Interp.Script.{Script, is_var_usable}
use go_sieve.Interp.Text.{to_lower}
use go_sieve.Lexer.Scan.{is_valid_identifier}
use go_sieve.Prelude.{
  ℕ, Bool, true, false, not, ◌&&◌, ◌||◌, List, [], ◌∷◌, ◌++◌, Option, none, some, if◌then◌else◌,
  ◌==◌, Bytes, codes, equal, Result, ok, err, ◌>>=◌,
}

-- The libraries that the modifiers call: `QuoteMeta`, and `ToUpper` and `ToLower` of `strings`.
pub record TextLibrary : Type 0 where
  pub quote_meta : Bytes → Bytes
  pub unicode_upper : Bytes → Bytes
  pub unicode_lower : Bytes → Bytes

-- What the arguments of a `set` leave.
pub record Setting : Type 0 where
  pub name : Bytes
  pub value : Bytes
  pub modifiers : Modifiers
  pub conflicting : Bool

abbrev pub is_taken : Option (Bytes → Bytes) → Bool
is_taken none = false
is_taken (some f) = true

abbrev pub conflict : Option (Bytes → Bytes) → Setting → Setting
conflict old c = record c { conflicting = is_taken old || c.conflicting }

abbrev pub set_40 : (Bytes → Bytes) → Setting → Setting
set_40 f c =
    conflict c.modifiers.at_40 (record c { modifiers = record c.modifiers { at_40 = some f } })

abbrev pub set_30 : (Bytes → Bytes) → Setting → Setting
set_30 f c =
    conflict c.modifiers.at_30 (record c { modifiers = record c.modifiers { at_30 = some f } })

abbrev pub set_20 : (Bytes → Bytes) → Setting → Setting
set_20 f c =
    conflict c.modifiers.at_20 (record c { modifiers = record c.modifiers { at_20 = some f } })

abbrev pub set_15 : (Bytes → Bytes) → Setting → Setting
set_15 f c =
    conflict c.modifiers.at_15 (record c { modifiers = record c.modifiers { at_15 = some f } })

abbrev pub set_10 : (Bytes → Bytes) → Setting → Setting
set_10 f c =
    conflict c.modifiers.at_10 (record c { modifiers = record c.modifiers { at_10 = some f } })

-- `valueModifierTags`
unfoldable pub value_modifier_tags : TextLibrary → List (Bytes × SpecTag Setting)
value_modifier_tags lib =
    (codes "length", bool_tag (set_10 mod_length))
    ∷ (codes "quotewildcard", bool_tag (set_20 mod_quote_wildcard))
    ∷ (codes "quoteregex", bool_tag (set_20 lib.quote_meta))
    ∷ (codes "encodeurl", bool_tag (set_15 percent_encode))
    ∷ (codes "upperfirst", bool_tag (set_30 mod_upper_first))
    ∷ (codes "lowerfirst", bool_tag (set_30 mod_lower_first))
    ∷ (codes "upper", bool_tag (set_40 lib.unicode_upper))
    ∷ (codes "lower", bool_tag (set_40 lib.unicode_lower))
    ∷ []

abbrev pub set_spec : TextLibrary → Spec Setting
set_spec lib = plain_spec (value_modifier_tags lib) (
    str_arg 1 1 (λ l c. record c { name = to_lower (first l) })
    ∷ str_arg 1 1 (λ l c. record c { value = first l })
    ∷ [])

abbrev pub new_setting : Setting
new_setting = record {
  name = [];
  value = [];
  modifiers = record { at_40 = none; at_30 = none; at_20 = none; at_15 = none; at_10 = none };
  conflicting = false;
}

-- The checks of a `set`.
unfoldable pub check_setting : Script → Setting → Result LoadError Unit
check_setting s c =
    if c.conflicting
    then err conflicting_modifiers
    else (need_if (is_taken c.modifiers.at_15) s (codes "enotify") >>= λ _.
        if (is_var_usable s c.name).0 then ok tt else err cannot_set)

-- `loadSet`, but for which of two errors is returned.
unfoldable pub load_set : TextLibrary → Script → Given → LoadedCmd
load_set lib s given = do
  _ ← need s (codes "variables")
  r ← load_spec s (set_spec lib) given new_setting
  _ ← check_setting s r.0
  ok (some (Execute.set (r.0).name (r.0).value (build_value_modifier s.opts (r.0).modifiers)), s)

-- The bytes that no name of a script has.
abbrev pub is_separator : ℕ → Bool
is_separator b = b == 47 || b == 92

unfoldable pub no_separator : Bytes → Bool
no_separator [] = true
no_separator (b ∷ s) = not (is_separator b || b == 0) && no_separator s

-- `splitPath`, `cur` being the part so far.
unfoldable pub split_path : Bytes → Bytes → List Bytes
split_path cur [] = cur ∷ []
split_path cur (b ∷ s) =
    if is_separator b then cur ∷ split_path [] s else split_path (cur ++ b ∷ []) s

unfoldable pub no_dots : List Bytes → Bool
no_dots [] = true
no_dots (part ∷ parts) = not (equal part (codes ".") || equal part (codes "..")) && no_dots parts

-- `isValidIncludeScriptName`
unfoldable pub is_valid_include_script_name : Bytes → Bool
is_valid_include_script_name name =
    not (equal name []) && no_separator name && no_dots (split_path [] name)

abbrev pub include_spec : Spec Include
include_spec =
    plain_spec
      ((codes "personal", bool_tag (λ c. record c { location = codes "personal" }))
        ∷ (codes "global", bool_tag (λ c. record c { location = codes "global" }))
        ∷ (codes "once", bool_tag (λ c. record c { once = true }))
        ∷ (codes "optional", bool_tag (λ c. record c { optional = true }))
        ∷ [])
      (str_arg 1 1 (λ l c. record c { name = first l }) ∷ [])

abbrev pub new_include : Include
new_include = record { location = codes "personal"; once = false; optional = false; name = [] }

-- `loadInclude`
unfoldable pub load_include : Script → Given → Result LoadError Include
load_include s given = do
  _ ← need s (codes "include")
  r ← load_spec s include_spec given new_include
  if is_valid_include_script_name (r.0).name then ok r.0 else err (invalid_name (r.0).name)

-- `loadReturn`
unfoldable pub load_return : Script → Given → LoadedCmd
load_return s given = do _ ← need s (codes "include"); load_bare Execute.return s given

abbrev pub names_spec : Spec (List Bytes)
names_spec = plain_spec [] (str_arg 1 0 (λ l c. l) ∷ [])

unfoldable pub check_names : List Bytes → Result LoadError Unit
check_names [] = ok tt
check_names (n ∷ names) =
    let rest = check_names names in if is_valid_identifier n then rest else err (invalid_name n)

-- `loadGlobal`
unfoldable pub load_global : Script → Given → LoadedCmd
load_global s given = do
  _ ← need s (codes "include")
  _ ← need s (codes "variables")
  r ← load_spec s names_spec given []
  _ ← check_names r.0
  ok (some (Execute.global r.0), s)

-- `loadError`: the message.
unfoldable pub load_error : Script → Given → Result LoadError Bytes
load_error s given = do _ ← need s (codes "ihave"); r ← load_spec s reason_spec given []; ok r.0
