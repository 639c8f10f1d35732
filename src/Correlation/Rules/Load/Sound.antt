-- ===== src/Correlation/Rules/Load/Sound.antt =====
-- What LoadRules returns is sound.
use griefer_security_platfor.Prelude.{
  ℕ, suc, String, ◌≡◌, refl, ◌≢◌, inl, inr, Bool, true, not, ◌||◌, Option, none, some, List, [],
  ◌∷◌, map, arith, text_lt, Bool-cases, length, All,
}
use griefer_security_platfor.Prelude.{All-snoc}
use Prim.Native.String.{◌++◌ as ◌++ₛ◌}
use mathlib.Core.List.{Nodup, Nodup-nil, map-append}
use mathlib.Core.List.Perm
use griefer_security_platfor.Prelude.Dict.{
  lookup, contains, keys, contains-keys-insert, contains-keys-lookup,
}
use griefer_security_platfor.Prelude.Float.{FloatOps}
use griefer_security_platfor.Prelude.Result.{Result, ok, err}
use griefer_security_platfor.Prelude.Sort.{sort_by, sort_by-All, sort_by-perm, length-sort_by}
use griefer_security_platfor.Prelude.Texts.{contains-append, Nodup-snoc}
use griefer_security_platfor.Correlation.Rules.{Rule}
use griefer_security_platfor.Correlation.Rules.Validate.{
  RuleError, validate, IsSound, validate-IsSound,
}
use mathlib.Core.Path.{subst}
use griefer_security_platfor.Correlation.Rules.Load.{
  DirEntry, LoadError, Loaded, has_suffix, add_valid, add_rule, add_rules, decoded_rules, read_pack,
  load_entry, load_entries, in_order, finish, load_rules,
}

abbrev pub ids : List Rule → List String
ids rules = map (λ r. r.id) rules

record LoadedSound (l : Loaded) : Type 0 where
  pub sound : All IsSound l.all
  pub distinct : Nodup (ids l.all)
  pub noted : (c : String) → contains (ids l.all) c ≡ true → contains (keys l.seen) c ≡ true

-- What holds of a result that is not an error.
abbrev OnSuccess : {E A : Type 0} → (A → Type 0) → Result (LoadError E) A → Type 0
OnSuccess P (err e) = Unit
OnSuccess P (ok a) = P a

module _ (E : Type 0) (fl : FloatOps) where
  add_valid-LoadedSound :
      (path : String) (r : Rule) (prev : Option String) (l : Loaded)
      → lookup r.id l.seen ≡ prev
      → IsSound r
      → LoadedSound l
      → OnSuccess LoadedSound (add_valid {E = E} fl path r prev l)
  unfolding add_valid
  add_valid-LoadedSound path r (some prev) l found rs ls = tt
  add_valid-LoadedSound path r none l found rs ls =
      let unseen = contains-keys-lookup r.id l.seen found in
      record {
        sound = All-snoc IsSound l.all r ls.sound rs;
        distinct =
            rw (map-append (λ x. x.id) l.all (r ∷ []))
              (Nodup-snoc (ids l.all) r.id ls.distinct (ground (arith, unseen, ls.noted r.id)));
        noted = λ c m.
            unfold contains in
            ground (
              arith,
              contains-append (ids l.all) (r.id ∷ []) c,
              ls.noted c,
              contains-keys-insert r.id path l.seen c,
              map-append (λ x. x.id) l.all (r ∷ []),
            );
      }

  add_rule-LoadedSound :
      (path : String) (r : Rule) (outcome : Option RuleError) (l : Loaded)
      → validate fl r ≡ outcome
      → LoadedSound l
      → OnSuccess LoadedSound (add_rule {E = E} fl path r outcome l)
  unfolding add_rule
  add_rule-LoadedSound path r (some e) l valid ls = tt
  add_rule-LoadedSound path r none l valid ls =
      add_valid-LoadedSound path r (lookup r.id l.seen) l refl (validate-IsSound fl r valid) ls

  add_rules-LoadedSound :
      (path : String) (rs : List Rule) (l : Result (LoadError E) Loaded)
      → OnSuccess LoadedSound l
      → OnSuccess LoadedSound (add_rules fl path rs l)
  unfolding add_rules
  add_rules-LoadedSound path [] l h = h
  add_rules-LoadedSound path (r ∷ rs) (err e) h = tt
  add_rules-LoadedSound path (r ∷ rs) (ok l) h =
      add_rules-LoadedSound path rs (add_rule fl path r (validate fl r) l)
        (add_rule-LoadedSound path r (validate fl r) l refl h)

  decoded_rules-LoadedSound :
      (path : String) (rules : Result E (List Rule)) (l : Loaded)
      → LoadedSound l
      → OnSuccess LoadedSound (decoded_rules fl path rules l)
  unfolding decoded_rules
  decoded_rules-LoadedSound path (err e) l h = tt
  decoded_rules-LoadedSound path (ok rules) l h = add_rules-LoadedSound path rules (ok l) h

  module _ (read_file : String → Result E String) (decode : String → Result E (List Rule)) where
    read_pack-LoadedSound :
        (path : String) (raw : Result E String) (l : Loaded)
        → LoadedSound l
        → OnSuccess LoadedSound (read_pack fl read_file decode path raw l)
    unfolding read_pack
    read_pack-LoadedSound path (err e) l h = tt
    read_pack-LoadedSound path (ok raw) l h = decoded_rules-LoadedSound path (decode raw) l h

    load_entry-LoadedSound :
        (dir : String) (entry : DirEntry) (l : Loaded)
        → LoadedSound l
        → OnSuccess LoadedSound (load_entry fl read_file decode dir entry l)
    unfolding load_entry
    load_entry-LoadedSound dir entry l h =
        elim (Bool-cases (entry.is_dir || not (has_suffix entry.name ".yaml"))) [
          | inl e ↦ rw e h
          | inr e ↦ rw e (
              read_pack-LoadedSound (dir ++ₛ ("/" ++ₛ entry.name))
                (read_file (dir ++ₛ ("/" ++ₛ entry.name))) l h)
        ]

    load_entries-LoadedSound :
        (dir : String) (entries : List DirEntry) (l : Result (LoadError E) Loaded)
        → OnSuccess LoadedSound l
        → OnSuccess LoadedSound (load_entries fl read_file decode dir entries l)
    unfolding load_entries
    load_entries-LoadedSound dir [] l h = h
    load_entries-LoadedSound dir (entry ∷ entries) (err e) h = tt
    load_entries-LoadedSound dir (entry ∷ entries) (ok l) h =
        load_entries-LoadedSound dir entries (load_entry fl read_file decode dir entry l)
          (load_entry-LoadedSound dir entry l h)

-- A list of rules that an engine can run: not empty, every rule sound, no identifier twice.
abbrev pub IsRulePack : List Rule → Type 0
IsRulePack rules = (rules ≢ []) × All IsSound rules × Nodup (ids rules)

nonempty_of_suc {ℓ} : {A : Type ℓ} (xs : List A) (n : ℕ) → length xs ≡ suc n → xs ≢ []
nonempty_of_suc [] n h q = absurd (omega (arith, h))
nonempty_of_suc (x ∷ xs) n h q = cc

abbrev by_id : Rule → Rule → Bool
by_id a b = text_lt a.id b.id

of_success :
    {E A : Type 0} (P : A → Type 0) (x : Result (LoadError E) A) (a : A)
    → OnSuccess P x
    → x ≡ ok a
    → P a
of_success P (err e) a h q = cc
of_success P (ok b) a h q = let same : b ≡ a = cc in subst P same h

module _ {E : Type 0} (fl : FloatOps) (read_file : String → Result E String)
    (decode : String → Result E (List Rule)) where
  in_order-IsRulePack :
      (rules : List Rule)
      → All IsSound rules
      → Nodup (ids rules)
      → OnSuccess IsRulePack (in_order fl read_file decode rules)
  unfolding in_order
  in_order-IsRulePack [] sound distinct = tt
  in_order-IsRulePack (r ∷ rs) sound distinct = (
    nonempty_of_suc (sort_by by_id (r ∷ rs)) (length rs) (length-sort_by by_id (r ∷ rs)),
    sort_by-All by_id IsSound (r ∷ rs) sound,
    Perm.nodup (Perm.map (λ x. x.id) (Perm.symm (sort_by-perm by_id (r ∷ rs)))) distinct,
  )

  finish-IsRulePack :
      (l : Result (LoadError E) Loaded)
      → OnSuccess LoadedSound l
      → OnSuccess IsRulePack (finish fl read_file decode l)
  unfolding finish
  finish-IsRulePack (err e) h = tt
  finish-IsRulePack (ok l) h = in_order-IsRulePack l.all h.sound h.distinct

  load_rules-OnSuccess :
      (dir : String) (listing : Result E (List DirEntry))
      → OnSuccess IsRulePack (load_rules fl read_file decode dir listing)
  unfolding load_rules
  load_rules-OnSuccess dir (err e) = tt
  load_rules-OnSuccess dir (ok entries) =
      finish-IsRulePack
        (load_entries fl read_file decode dir entries (ok (record { seen = []; all = [] })))
        (load_entries-LoadedSound E fl read_file decode dir entries
          (ok (record { seen = []; all = [] }))
          (record { sound = tt; distinct = Nodup-nil; noted = λ c m. m }))

  -- When LoadRules returns rules, there is one at least, no identifier stands twice among them, and
  -- every one has an identifier, a title, a category and a known severity, constrains some field,
  -- tests allowed fields only, each with exactly one operator, has a threshold of at least two events
  -- in a positive window if it has one, and names its techniques.
  pub load_rules-IsRulePack :
      (dir : String) (listing : Result E (List DirEntry)) (rules : List Rule)
      → load_rules fl read_file decode dir listing ≡ ok rules
      → IsRulePack rules
  load_rules-IsRulePack dir listing rules h =
      of_success IsRulePack (load_rules fl read_file decode dir listing) rules
        (load_rules-OnSuccess dir listing) h
