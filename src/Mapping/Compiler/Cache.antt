-- ===== src/Mapping/Compiler/Cache.antt =====
-- ecommerce_super/easyecom/field_mapping/compiler.py: the cache of compiled rulesets in front of the compiler.
-- Redis hands back what was put there.
use ecommerce_super.Base.{
  String, ◌≡◌, ◌⊎◌, refl, sym, ap, ◌∙◌, inl, inr, Option, none, some, List, [], ◌∷◌, eq_iff, str_eq,
  if◌then◌else◌, Bool-cases, true, false, lookup, lookup_hit, lookup_miss, Result, ok, err,
}
use ecommerce_super.Payload.{Json}
use ecommerce_super.Mapping.{Fault, FieldMapping, CompiledRuleset}
use ecommerce_super.Mapping.Sandbox.{Node}
use ecommerce_super.Mapping.Compiler.{compile_ruleset}

some_injective : {a b : CompiledRuleset} → some a ≡ some b → a ≡ b
some_injective e = cc

abbrev pub Cached : Type 0
Cached = List (String × CompiledRuleset)

-- `_cache_set`
unfoldable pub cache_set : String → Result Fault CompiledRuleset → Cached → Cached
cache_set name (err raised) cache = cache
cache_set name (ok compiled) cache = (name, compiled) ∷ cache

-- `invalidate_compiled_cache`
unfoldable pub invalidate : String → Cached → Cached
invalidate name [] = []
invalidate name ((n, compiled) ∷ cache) =
    let rest = invalidate name cache in if str_eq n name then rest else (n, compiled) ∷ rest

-- `invalidate_all`, over the names of the documents.
unfoldable pub invalidate_all : List String → Cached → Cached
unfolding invalidate
invalidate_all [] cache = cache
invalidate_all (n ∷ names) cache = invalidate_all names (invalidate n cache)

lookup-invalidated : (name : String) (cache : Cached) → lookup name (invalidate name cache) ≡ none
unfolding invalidate
lookup-invalidated name [] = refl
lookup-invalidated name ((n, c) ∷ cache) = elim (Bool-cases (str_eq n name)) [
  | inl e ↦ rw e (lookup-invalidated name cache)
  | inr e ↦ rw e (lookup_miss name n c (invalidate name cache) e ∙ lookup-invalidated name cache)
]

lookup-invalidate :
    (saved name : String) (cache : Cached)
    → str_eq saved name ≡ false
    → lookup name (invalidate saved cache) ≡ lookup name cache
unfolding invalidate
lookup-invalidate saved name [] other = refl
lookup-invalidate saved name ((n, c) ∷ cache) other =
    by_tests (Bool-cases (str_eq n saved)) (Bool-cases (str_eq n name))
      (lookup-invalidate saved name cache other)
  where
    by_tests :
        (str_eq n saved ≡ true) ⊎ (str_eq n saved ≡ false)
        → (str_eq n name ≡ true) ⊎ (str_eq n name ≡ false)
        → lookup name (invalidate saved cache) ≡ lookup name cache
        → lookup name (invalidate saved ((n, c) ∷ cache)) ≡ lookup name ((n, c) ∷ cache)
    by_tests (inl e) (inl same) later =
        let saved_is_name : str_eq saved name ≡ true =
          ap (λ x. str_eq x name) (sym ((eq_iff n saved).0 e)) ∙ same in
        cc
    by_tests (inl e) (inr differs) later = rw e (later ∙ sym (lookup_miss name n c cache differs))
    by_tests (inr e) (inl same) later =
        rw e
          (lookup_hit name n c (invalidate saved cache) same ∙ sym (lookup_hit name n c cache same))
    by_tests (inr e) (inr differs) later = rw e (
        lookup_miss name n c (invalidate saved cache) differs
        ∙ (later ∙ sym (lookup_miss name n c cache differs)))

module _ (json_loads : String → Option Json) (nodes_of : String → Option (List Node))
    (docs : String → Option FieldMapping) where
  abbrev pub after_lookup :
      String → Option CompiledRuleset → Cached → Result Fault CompiledRuleset × Cached
  after_lookup name (some compiled) cache = (ok compiled, cache)
  after_lookup name none cache =
      let compiled = compile_ruleset json_loads nodes_of docs name in
      (compiled, cache_set name compiled cache)

  -- `compile_ruleset` at depth 0.
  unfoldable pub compile_cached : String → Cached → Result Fault CompiledRuleset × Cached
  unfolding cache_set
  compile_cached name cache = after_lookup name (lookup name cache) cache

  after_lookup-hit :
      (name : String) (cache : Cached) (o : Option CompiledRuleset) {compiled : CompiledRuleset}
      → o ≡ some compiled
      → (after_lookup name o cache).0 ≡ ok compiled
  after_lookup-hit name cache none found = cc
  after_lookup-hit name cache (some c) found = ap ok (some_injective found)

  after_lookup-miss :
      (name : String) (cache : Cached) (o : Option CompiledRuleset)
      → o ≡ none
      → (after_lookup name o cache).0 ≡ compile_ruleset json_loads nodes_of docs name
  after_lookup-miss name cache none found = refl
  after_lookup-miss name cache (some c) found = cc

  -- What the save of a ruleset does to the cache, whatever the documents say by then: once its own entry
  -- is dropped, the ruleset compiles to what the compiler makes of the documents, whatever the cache held;
  -- and a ruleset of another name that is in the cache is still answered with what was stored, also one that
  -- composes the saved one and would no longer compile.
  pub compile_cached-invalidate :
      (saved name : String) (cache : Cached) {compiled : CompiledRuleset}
      → str_eq saved name ≡ false
      → lookup name cache ≡ some compiled
      → ((compile_cached saved (invalidate saved cache)).0
          ≡ compile_ruleset json_loads nodes_of docs saved)
        × ((compile_cached name (invalidate saved cache)).0 ≡ ok compiled)
  unfolding compile_cached
  compile_cached-invalidate saved name cache other found = (
    after_lookup-miss saved (invalidate saved cache) _ (lookup-invalidated saved cache),
    after_lookup-hit name (invalidate saved cache) _
        (lookup-invalidate saved name cache other ∙ found),
  )
