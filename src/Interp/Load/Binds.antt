-- ===== src/Interp/Load/Binds.antt =====
-- On interp/load_generic.go: what one argument, or a tag with its value, does to the loop over the arguments.
use go_sieve.Interp.Load.Print.{
  string_of, tag_of, nowhere, tag_if, flags_args, value_args, IsPlain, IsValue, ArePlain, AreFlags,
}
use go_sieve.Interp.Load.Shape.{Spec, SpecTag, SpecPosArg, match_str, bool_tag, str_tag}
use go_sieve.Interp.Load.Spec.{
  Binding, pass_string, wrong_count, pass_list, pass_tag_list, tag_value, pos_value, tag_named,
  call_bool, bind_tag, bind_pos, bind_free, bind_value, bind_arg, bind_args,
}
use go_sieve.Interp.Flags.{canonical_flags}
use go_sieve.Interp.Runtime.{Flags}
use go_sieve.Interp.Script.{Script}
use go_sieve.Interp.Text.{to_lower}
use go_sieve.Parser.Syntax.{Arg, string_list_arg}
use go_sieve.Prelude.{
  ◌≡◌, refl, ap, ◌∙◌, ℕ, suc, Bool, true, false, List, [], ◌∷◌, ◌++◌, none, some, Bytes, codes,
  length, ltb, arith,
}

-- The loop where no tag waits for its value.
abbrev pub waiting : {S : Type 0} → List (SpecPosArg S) → S → Binding S
waiting rest x = record { last_tag = none; rest = rest; value = x }

wrong_count-least : (least n : ℕ) → ltb 1 least ≡ false → wrong_count least 0 (suc n) ≡ false
unfolding wrong_count
wrong_count-least least n h = ground arith

wrong_count-filled : (n : ℕ) → wrong_count 1 0 (suc n) ≡ false
wrong_count-filled n = wrong_count-least 1 n refl

module _ {S : Type 0} (s : Script) (spec : Spec S) where
  -- A name in lower case that is the name of a tag.
  abbrev pub IsTag : Bytes → SpecTag S → Type 0
  IsTag name t = tag_named (to_lower name) spec.tags ≡ some t

  pub bind_args-bool :
      (name : Bytes) (f : S → S) (args : List Arg) (rest : List (SpecPosArg S)) (x : S)
      → IsTag name (bool_tag f)
      → bind_args s spec (tag_of name ∷ args) (waiting rest x)
        ≡ bind_args s spec args (waiting rest (f x))
  unfolding bind_args bind_arg bind_free bind_tag call_bool
  bind_args-bool name f args rest x e = rw (e, bind_free) refl

  pub bind_args-tag_string :
      (name : Bytes) (least most : ℕ) (f : List Bytes → S → S) (v : Bytes) (args : List Arg)
      (rest : List (SpecPosArg S)) (x : S)
      → IsTag name (str_tag least most f)
      → IsPlain s v
      → bind_args s spec (tag_of name ∷ string_of v ∷ args) (waiting rest x)
        ≡ bind_args s spec args (waiting rest (f (v ∷ []) x))
  unfolding bind_args bind_arg bind_free bind_tag bind_value tag_value pass_string
  bind_args-tag_string name least most f v args rest x e h = rw (e, bind_free) (rw h refl)

  pub bind_args-tag_list :
      (name : Bytes) (f : List Bytes → S → S) (l : List Bytes) (args : List Arg)
      (rest : List (SpecPosArg S)) (x : S)
      → IsTag name (str_tag 1 0 f)
      → ArePlain s l
      → bind_args s spec (tag_of name ∷ string_list_arg l nowhere ∷ args) (waiting rest x)
        ≡ bind_args s spec args (waiting rest (f l x))
  unfolding bind_args bind_arg bind_free bind_tag bind_value tag_value pass_tag_list pass_list
  bind_args-tag_list name f [] args rest x e (h, k) = absurd h
  bind_args-tag_list name f (v ∷ l) args rest x e (h, k) =
      rw (e, bind_free) (rw (wrong_count-filled (length l)) (rw k refl))

  pub bind_args-string :
      (least most : ℕ) (optional : Bool) (f : List Bytes → S → S) (v : Bytes) (args : List Arg)
      (rest : List (SpecPosArg S)) (x : S)
      → ltb 1 least ≡ false
      → IsPlain s v
      → bind_args s spec (string_of v ∷ args) (
          waiting
            (record {
              optional = optional;
              matcher = match_str f;
              min_str_count = least;
              max_str_count = most;
            }
              ∷ rest)
            x)
        ≡ bind_args s spec args (waiting rest (f (v ∷ []) x))
  unfolding bind_args bind_arg bind_free bind_pos pos_value pass_string
  bind_args-string least most optional f v args rest x e h = rw e (rw h refl)

  pub bind_args-list :
      (least : ℕ) (optional : Bool) (f : List Bytes → S → S) (l : List Bytes) (args : List Arg)
      (rest : List (SpecPosArg S)) (x : S)
      → ltb 1 least ≡ false
      → ArePlain s l
      → bind_args s spec (string_list_arg l nowhere ∷ args) (
          waiting
            (record {
              optional = optional;
              matcher = match_str f;
              min_str_count = least;
              max_str_count = 0;
            }
              ∷ rest)
            x)
        ≡ bind_args s spec args (waiting rest (f l x))
  unfolding bind_args bind_arg bind_free bind_pos pos_value pass_list
  bind_args-list least optional f [] args rest x e (h, k) = absurd h
  bind_args-list least optional f (v ∷ l) args rest x e (h, k) =
      rw (wrong_count-least least (length l) e) (rw k refl)

  -- An argument that is given or not, and leaves what `g` makes of it.
  pub bind_args-tag_if :
      (name : Bytes) (f : S → S) (g : Bool → S) (b : Bool) (args : List Arg)
      (rest : List (SpecPosArg S))
      → IsTag name (bool_tag f)
      → f (g false) ≡ g true
      → bind_args s spec (tag_if b name ++ args) (waiting rest (g false))
        ≡ bind_args s spec args (waiting rest (g b))
  bind_args-tag_if name f g true args rest e h =
      bind_args-bool name f args rest (g false) e
      ∙ ap (λ x. bind_args s spec args (waiting rest x)) h
  bind_args-tag_if name f g false args rest e h = refl

  pub bind_args-value :
      (name ext : Bytes) (least most : ℕ) (f : List Bytes → S → S) (g : Bytes → S) (v : Bytes)
      (args : List Arg) (rest : List (SpecPosArg S))
      → IsTag name (str_tag least most f)
      → IsValue s ext v
      → f (v ∷ []) (g []) ≡ g v
      → bind_args s spec (value_args name v ++ args) (waiting rest (g []))
        ≡ bind_args s spec args (waiting rest (g v))
  bind_args-value name ext least most f g [] args rest e p h = refl
  bind_args-value name ext least most f g (b ∷ v) args rest e (p, _) h =
      bind_args-tag_string name least most f (b ∷ v) args rest (g []) e p
      ∙ ap (λ x. bind_args s spec args (waiting rest x)) h

  pub bind_args-flags :
      (f : List Bytes → S → S) (g : Flags → S) (l : Flags) (args : List Arg)
      (rest : List (SpecPosArg S))
      → IsTag (codes "flags") (str_tag 1 0 f)
      → AreFlags s l
      → ((l : List Bytes) → f l (g none) ≡ g (canonical_flags l [] []))
      → bind_args s spec (flags_args l ++ args) (waiting rest (g none))
        ≡ bind_args s spec args (waiting rest (g l))
  bind_args-flags f g none args rest e p h = refl
  bind_args-flags f g (some l) args rest e (p, c, _) h =
      bind_args-tag_list (codes "flags") f l args rest (g none) e p
      ∙ ap (λ x. bind_args s spec args (waiting rest x)) (h l)
      ∙ ap (λ k. bind_args s spec args (waiting rest (g k))) c
