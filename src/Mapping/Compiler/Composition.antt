-- ===== src/Mapping/Compiler/Composition.antt =====
-- ecommerce_super/easyecom/field_mapping/compiler.py: mappings that compose mappings, over any depth.
use ecommerce_super.Base.{
  ℕ, zero, suc, ◌+◌, ◌≤◌, ◌<◌, String, ◌≡◌, refl, sym, ap, ◌∙◌, Bool, true, false, Option, some,
  List, [], ◌∷◌, arith, has, Result, ok,
}
use ecommerce_super.Payload.{Json}
use ecommerce_super.Mapping.{Fault, Rule, FieldMapping, CompiledRuleset}
use ecommerce_super.Mapping.Sandbox.{Node}
use ecommerce_super.Mapping.Compiler.{
  max_composition_depth, compile_at, compile_ruleset, compile_stored, once,
}
use ecommerce_super.Mapping.Compiler.Accepted.{Row, Composing, doc_compiled}

pub once_passed :
    (b : Bool) (call : Result Fault CompiledRuleset) {out : CompiledRuleset}
    → once b call ≡ ok out
    → (b ≡ false) × (call ≡ ok out)
once_passed true call returned = cc
once_passed false call returned = (refl, returned)

module _ (json_loads : String → Option Json) (nodes_of : String → Option (List Node))
    (docs : String → Option FieldMapping) where
  -- A rule of the document `name` composes `target`.
  pub record Composes (name target : String) : Type 0 where
    pub doc : FieldMapping
    pub stored : docs name ≡ some doc
    pub rule : Rule
    pub row : Row rule (doc.rules)
    pub composing : Composing json_loads nodes_of rule target

  -- Compositions one after the other, counted.
  pub data Chain : ℕ → String → String → Type 0 where
    here : (name : String) → Chain 0 name name
    through : {n : ℕ} {a b c : String} → Composes a b → Chain n b c → Chain (suc n) a c

  -- What compiles at a depth compiles each mapping that it composes one deeper.
  pub compile_at-step :
      (left : ℕ) (seen : List String) (name target : String) {out : CompiledRuleset}
      → Composes name target
      → compile_at json_loads nodes_of docs (suc left) seen name ≡ ok out
      → (c : CompiledRuleset) × (compile_at json_loads nodes_of docs left (name ∷ seen) target
          ≡ ok c)
  unfolding compile_at compile_stored
  compile_at-step left seen name target composes returned =
      let (_, opened) = once_passed (has name seen) _ returned in
      let stored =
        sym (
          ap
            (compile_stored json_loads nodes_of
              (compile_at json_loads nodes_of docs left (name ∷ seen)))
            (composes.stored))
        ∙ opened in
      doc_compiled json_loads nodes_of (compile_at json_loads nodes_of docs left (name ∷ seen))
        (composes.doc) (composes.rule) target (composes.row) (composes.composing) stored

  -- The chains from a mapping that compiles end before the depth does.
  pub compile_at-bounded :
      (left : ℕ) (seen : List String) (name : String) {n : ℕ} {last : String}
      {out : CompiledRuleset}
      → Chain n name last
      → compile_at json_loads nodes_of docs left seen name ≡ ok out
      → n < left
  unfolding compile_at compile_stored
  compile_at-bounded zero seen name chain returned = cc
  compile_at-bounded (suc left) seen _ (here _) returned = omega arith
  compile_at-bounded (suc left) seen name (through step chain) returned =
      let (c, compiled) = compile_at-step left seen name _ step returned in
      omega (arith, compile_at-bounded left (name ∷ seen) _ chain compiled)

  -- Chains that meet make one as long as both.
  append_chain :
      {n m : ℕ} {a b c : String} → Chain n a b → Chain m b c → (k : ℕ) × (k ≡ n + m) × Chain k a c
  append_chain {n} {m} (here a) more = (m, omega arith, more)
  append_chain {n} {m} (through step chain) more =
      let (k, size, joined) = append_chain chain more in
      (suc k, omega (arith, size), through step joined)

  -- A cycle, some times round.
  turns : (times : ℕ) {m : ℕ} {b : String} → Chain (suc m) b b → (k : ℕ) × (times ≤ k) × Chain k b b
  turns zero cycle = (0, omega arith, here _)
  turns (suc times) {m} cycle =
      let (k, long, rest) = turns times cycle in
      let (j, whole, joined) = append_chain cycle rest in (j, omega (arith, whole, long), joined)

  -- When a mapping compiles, no chain of mappings that compose one another from it on is longer
  -- than the maximum depth, whatever documents the chain goes through.
  pub compile_ruleset-bounded :
      (name : String) {n : ℕ} {last : String} {out : CompiledRuleset}
      → Chain n name last
      → compile_ruleset json_loads nodes_of docs name ≡ ok out
      → n ≤ max_composition_depth
  unfolding compile_ruleset
  compile_ruleset-bounded name chain returned =
      omega (arith, compile_at-bounded (suc max_composition_depth) [] name chain returned)

  -- When a mapping compiles, no mapping that it reaches comes back to itself: a chain from such a
  -- mapping to itself has no step.
  pub compile_ruleset-acyclic :
      (name : String) {n m : ℕ} {met : String} {out : CompiledRuleset}
      → Chain n name met
      → Chain m met met
      → compile_ruleset json_loads nodes_of docs name ≡ ok out
      → m ≡ 0
  compile_ruleset-acyclic name {m = zero} chain cycle returned = refl
  compile_ruleset-acyclic name {m = suc m} chain cycle returned =
      let (k, long, rounds) = turns 6 cycle in
      let (j, whole, joined) = append_chain chain rounds in
      omega (arith, long, whole, compile_ruleset-bounded name joined returned)
