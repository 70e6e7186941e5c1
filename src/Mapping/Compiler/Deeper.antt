-- ===== src/Mapping/Compiler/Deeper.antt =====
-- ecommerce_super/easyecom/field_mapping/compiler.py: compiling again with more depth left, and after fewer
-- mappings seen.
use ecommerce_super.Base.{
  ℕ, zero, suc, ◌≤◌, String, ◌≡◌, refl, sym, ap, ◌∙◌, inl, inr, Bool, true, false, ◌||◌, Option,
  none, some, List, [], ◌∷◌, map, arith, str_eq, if◌then◌else◌, Bool-cases, has, pos, negsuc,
  Result, ok, err, ◌>>=◌, Keeps, keep_chain, keep_after,
}
use ecommerce_super.Payload.{
  Json, null, flag, number, text, array, dict, no_items, item, Entries, no_entries, entry, get,
}
use ecommerce_super.Mapping.{
  Fault, missing_ruleset, Rule, FieldMapping, CompiledRule, CompiledRuleset,
}
use ecommerce_super.Mapping.Sandbox.{Node}
use ecommerce_super.Mapping.Compiler.{
  max_composition_depth, uses_compose, compose_target, check_composition, compile_with,
  compile_rule, with_row, compile_rules, compile_doc, compile_stored, compile_at, compile_ruleset,
  once,
}
use ecommerce_super.Mapping.Compiler.Composition.{Composes, compile_at-step, once_passed}

subset_cons :
    (name x : String) (seen fewer : List String)
    → (has x fewer ≡ true → has x seen ≡ true)
    → has x (name ∷ fewer) ≡ true
    → has x (name ∷ seen) ≡ true
subset_cons name x seen fewer subset met = elim (Bool-cases (str_eq name x)) [
  | inl e ↦ rw e refl
  | inr e ↦ ap (λ b. b || has x seen) e ∙ subset (ap (λ b. b || has x fewer) (sym e) ∙ met)
]

keep_guard :
    {A : Type 0} (b : Bool) (raised : Fault) (call other : Result Fault A)
    → Keeps call other
    → Keeps (if b then err raised else call) (if b then err raised else other)
keep_guard true raised call other keeps value returned = returned
keep_guard false raised call other keeps value returned = keeps value returned

keep_row :
    (c : CompiledRule × List String) (call other : Result Fault (List CompiledRule × List String))
    → Keeps call other
    → Keeps (with_row c call) (with_row c other)
keep_row (c, composed) (err raised) other keeps value returned = cc
keep_row (c, composed) (ok (cs, more)) other keeps value returned =
    ap (with_row (c, composed)) (keeps (cs, more) refl) ∙ returned

module _ (json_loads : String → Option Json) (nodes_of : String → Option (List Node)) where
  module _ (compile other : String → Result Fault CompiledRuleset)
      (keeps : (t : String) → Keeps (compile t) (other t)) where
    keep_target :
        (o : Option Json)
        → Keeps
            (compose_target json_loads nodes_of compile o)
            (compose_target json_loads nodes_of other o)
    keep_target (some (text target)) value returned =
        keep_guard (str_eq target "") missing_ruleset (compile target >>= (λ _. ok (target ∷ [])))
          (other target >>= (λ _. ok (target ∷ [])))
          (keep_chain (compile target) (other target) (λ _. ok (target ∷ []))
            (λ _. ok (target ∷ [])) (keeps target) (λ _ value same. same))
          value returned
    keep_target none value same = same
    keep_target (some null) value same = same
    keep_target (some (flag true)) value same = same
    keep_target (some (flag false)) value same = same
    keep_target (some (number (pos zero))) value same = same
    keep_target (some (number (pos (suc n)))) value same = same
    keep_target (some (number (negsuc n))) value same = same
    keep_target (some (array no_items)) value same = same
    keep_target (some (array (item x xs))) value same = same
    keep_target (some (dict no_entries)) value same = same
    keep_target (some (dict (entry k v es))) value same = same

    keep_composition :
        (b : Bool) (args : Entries)
        → Keeps
            (check_composition json_loads nodes_of compile b args)
            (check_composition json_loads nodes_of other b args)
    keep_composition false args value same = same
    keep_composition true args value returned = keep_target (get "ruleset" args) value returned

    keep_with :
        (names : List String) (r : Rule) (args : Entries)
        → Keeps
            (compile_with json_loads nodes_of compile names r args)
            (compile_with json_loads nodes_of other names r args)
    unfolding compile_with
    keep_with names r args =
        keep_chain _ _ _ _ (keep_after _ _ _ (λ _. keep_composition (uses_compose r) args))
          (λ composed value same. same)

    keep_rules :
        (names : List String) (rs : List Rule)
        → Keeps
            (compile_rules json_loads nodes_of compile names rs)
            (compile_rules json_loads nodes_of other names rs)
    unfolding compile_rules compile_rule
    keep_rules names [] value same = same
    keep_rules names (r ∷ rs) value returned =
        keep_chain _ _ _ _ (keep_after _ _ _ (keep_with names r))
          (λ c. keep_row c _ _ (keep_rules names rs)) value returned

    keep_stored :
        (o : Option FieldMapping)
        → Keeps
            (compile_stored json_loads nodes_of compile o)
            (compile_stored json_loads nodes_of other o)
    unfolding compile_stored compile_doc
    keep_stored none value same = same
    keep_stored (some doc) value returned =
        keep_after _ _ _
          (λ computed.
            keep_chain _ _ _ _ (keep_rules (map (λ c. c.field_name) computed) (doc.rules))
              (λ rules value same. same))
          value returned

  module _ (docs : String → Option FieldMapping) where
    -- More depth and fewer mappings seen change nothing for what compiles.
    pub compile_at-Keeps :
        (left more : ℕ) (seen fewer : List String) (name : String)
        → left ≤ more
        → ((x : String) → has x fewer ≡ true → has x seen ≡ true)
        → Keeps
            (compile_at json_loads nodes_of docs left seen name)
            (compile_at json_loads nodes_of docs more fewer name)
    unfolding compile_at
    compile_at-Keeps zero more seen fewer name deeper subset value returned = cc
    compile_at-Keeps (suc left) zero seen fewer name deeper subset value returned = grind arith
    compile_at-Keeps (suc left) (suc more) seen fewer name deeper subset value returned =
        let (new, opened) = once_passed (has name seen) _ returned in
        let again =
          keep_stored (compile_at json_loads nodes_of docs left (name ∷ seen))
            (compile_at json_loads nodes_of docs more (name ∷ fewer))
            (λ t.
              compile_at-Keeps left more (name ∷ seen) (name ∷ fewer) t (omega (arith, deeper))
                (λ x. subset_cons name x seen fewer (subset x)))
            (docs name) value opened in
        elim (Bool-cases (has name fewer)) [
          | inl e ↦ let met = subset name e in cc
          | inr e ↦
              ap
                (λ b. once b (
                  compile_stored json_loads nodes_of
                    (compile_at json_loads nodes_of docs more (name ∷ fewer)) (docs name)))
                e
              ∙ again
        ]

    -- When a mapping compiles, each mapping that one of its rules composes compiles on its own.
    pub compile_ruleset-composed :
        (name target : String) {out : CompiledRuleset}
        → Composes json_loads nodes_of docs name target
        → compile_ruleset json_loads nodes_of docs name ≡ ok out
        → (c : CompiledRuleset) × (compile_ruleset json_loads nodes_of docs target ≡ ok c)
    unfolding compile_ruleset
    compile_ruleset-composed name target composes returned =
        let (c, compiled) =
          compile_at-step json_loads nodes_of docs max_composition_depth [] name target composes
            returned in
        (
          c,
          compile_at-Keeps max_composition_depth (suc max_composition_depth) (name ∷ []) [] target
              (omega arith) (λ x none_seen. cc) c compiled,
        )
