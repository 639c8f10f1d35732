-- ===== src/Correlation/Rules/Load.antt =====
-- internal/correlation/rules.go: LoadRules. Reading the directory and its files, and decoding YAML, are
-- parameters, since the standard library and gopkg.in/yaml.v3 do them.
pub mod Sound
use griefer_security_platfor.Prelude.{
  ℕ, zero, suc, ◌+◌, ◌-◌, ◌≤◌, ◌<◌, String, ◌≡◌, refl, sym, ap, ◌∙◌, ◌≢◌, ◌↔◌, ◌⊎◌, inl, inr, Bool,
  true, false, not, ◌&&◌, ◌||◌, Option, none, some, List, [], ◌∷◌, ◌++◌, map, arith, ◌==◌, eq_iff,
  eq_refl, ltb, leb, if◌then◌else◌, text_lt, Bool-cases, Option-cases, length, take, drop,
  length-append, length-take, length-drop, take-append-drop, leb→le, ltb→lt, All, Any,
  text_eq-false_of_ne, ne_of_text_eq-false,
}
use griefer_security_platfor.Prelude.{All-snoc}
use Prim.Native.String.{◌++◌ as ◌++ₛ◌}
use mathlib.Core.List.{Mem, Perm, Nodup, Nodup-nil, Nodup-cons, perm_middle, append-nil, map-append}
use mathlib.Core.List.Perm
use griefer_security_platfor.Prelude.Dict.{
  lookup, insert, contains, keys, contains-keys-insert, contains-keys-lookup, Mem-contains,
}
use griefer_security_platfor.Prelude.Float.{FloatOps}
use griefer_security_platfor.Prelude.Result.{Result, ok, err}
use griefer_security_platfor.Prelude.Sort.{sort_by, sort_by-All, sort_by-perm, length-sort_by}
use griefer_security_platfor.Prelude.Texts.{contains-append}
use griefer_security_platfor.Correlation.Rules.{Rule}
use griefer_security_platfor.Correlation.Rules.Validate.{
  RuleError, validate, IsSound, validate-IsSound,
}

pub record DirEntry : Type 0 where
  pub name : String
  pub is_dir : Bool

pub data LoadError (E : Type 0) : Type 0 where
  directory_unreadable : E → LoadError E
  unreadable unparsable : String → E → LoadError E
  invalid_rule : String → String → RuleError → LoadError E
  duplicate_id : (id first second : String) → LoadError E
  no_rules : LoadError E

-- strings.HasSuffix
unfoldable pub has_suffix : String → String → Bool
has_suffix String.[] suffix = suffix == ""
has_suffix (String.◌∷◌ c s) suffix =
    let rest = has_suffix s suffix in if String.◌∷◌ c s == suffix then true else rest

-- The file that each rule was found in, and the rules.
pub record Loaded : Type 0 where
  pub seen : List (String × String)
  pub all : List Rule

module _ {E : Type 0} (fl : FloatOps) where
  add_valid : String → Rule → Option String → Loaded → Result (LoadError E) Loaded
  unfolding insert
  add_valid path r (some prev) l = err (duplicate_id r.id prev path)
  add_valid path r none l = ok (record { seen = insert r.id path l.seen; all = l.all ++ r ∷ [] })

  add_rule : String → Rule → Option RuleError → Loaded → Result (LoadError E) Loaded
  unfolding add_valid lookup
  add_rule path r (some e) l = err (invalid_rule path r.id e)
  add_rule path r none l = add_valid path r (lookup r.id l.seen) l

  -- The loop over the rules of a file.
  unfoldable pub add_rules :
      String → List Rule → Result (LoadError E) Loaded → Result (LoadError E) Loaded
  unfolding add_rule validate
  add_rules path [] l = l
  add_rules path (r ∷ rs) (err e) = err e
  add_rules path (r ∷ rs) (ok l) = add_rules path rs (add_rule path r (validate fl r) l)

  decoded_rules : String → Result E (List Rule) → Loaded → Result (LoadError E) Loaded
  unfolding add_rules
  decoded_rules path (err e) l = err (unparsable path e)
  decoded_rules path (ok rules) l = add_rules path rules (ok l)

  module _ (read_file : String → Result E String) (decode : String → Result E (List Rule)) where
    read_pack : String → Result E String → Loaded → Result (LoadError E) Loaded
    unfolding decoded_rules
    read_pack path (err e) l = err (unreadable path e)
    read_pack path (ok raw) l = decoded_rules path (decode raw) l

    load_entry : String → DirEntry → Loaded → Result (LoadError E) Loaded
    unfolding read_pack has_suffix
    load_entry dir entry l =
        let path = dir ++ₛ ("/" ++ₛ entry.name) in
        let loaded = read_pack path (read_file path) l in
        if entry.is_dir || not (has_suffix entry.name ".yaml") then ok l else loaded

    -- The loop over the directory.
    unfoldable pub load_entries :
        String → List DirEntry → Result (LoadError E) Loaded → Result (LoadError E) Loaded
    unfolding load_entry
    load_entries dir [] l = l
    load_entries dir (entry ∷ entries) (err e) = err e
    load_entries dir (entry ∷ entries) (ok l) = load_entries dir entries (load_entry dir entry l)

    in_order : List Rule → Result (LoadError E) (List Rule)
    unfolding sort_by
    in_order [] = err no_rules
    in_order (r ∷ rs) = ok (sort_by (λ a b. text_lt a.id b.id) (r ∷ rs))

    finish : Result (LoadError E) Loaded → Result (LoadError E) (List Rule)
    unfolding in_order
    finish (err e) = err e
    finish (ok l) = in_order l.all

    -- LoadRules
    unfoldable pub load_rules : String → Result E (List DirEntry) → Result (LoadError E) (List Rule)
    unfolding finish load_entries
    load_rules dir (err e) = err (directory_unreadable e)
    load_rules dir (ok entries) =
        finish (load_entries dir entries (ok (record { seen = []; all = [] })))
