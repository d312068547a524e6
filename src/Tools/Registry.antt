-- ===== src/Tools/Registry.antt =====
-- Registry of pkg/tools/registry.go.
use syntor.Common.{
  ℕ, String, str_append, str_eq, ◌≡◌, inl, inr, refl, sym, ap, subst, ◌∙◌, false, List, [], ◌∷◌,
  map, Option, none, some, if◌then◌else◌, length, arith, Bool-cases, Option-cases, eq_iff,
}
use syntor.Common.Dict.{Dict, lookup, insert, lookup-insert}
use syntor.Tools.{Tool, ToolDefinition}

pub record Registry (Params Output World : Type 0) : Type 0 where
  pub tools : Dict (Tool Params Output World)
  pub definitions : Dict ToolDefinition

-- NewRegistry
unfoldable pub new_registry : (Params Output World : Type 0) → Registry Params Output World
new_registry Params Output World = record { tools = []; definitions = [] }

-- `if def != nil { r.definitions[name] = def }`
unfoldable pub set_definition :
    String → Option ToolDefinition → Dict ToolDefinition → Dict ToolDefinition
set_definition name none defs = defs
set_definition name (some def) defs = insert name def defs

lookup-set_definition :
    (key : String) (def : Option ToolDefinition) (m : Dict ToolDefinition) (name : String)
    → lookup key m ≡ none
    → lookup name (set_definition key def m) ≡ (if str_eq key name then def else lookup name m)
unfolding set_definition
lookup-set_definition key (some def) m name e = lookup-insert m key def name
lookup-set_definition key none m name e = elim (Bool-cases (str_eq key name)) [
  | inl same ↦
      let k : key ≡ name = ground (arith, eq_iff key name) in
      rw same (subst (λ k. lookup k m ≡ none) k e)
  | inr other ↦ rw other refl
]

module _ {Params : Type 0} {Output : Type 0} {World : Type 0} where
  -- Register, with its error
  unfoldable pub register :
      Tool Params Output World
      → Option ToolDefinition
      → Registry Params Output World
      → Option String × Registry Params Output World
  register tool def r = elim (lookup tool.tool_name r.tools) [
    | some old ↦ (some (str_append "tool already registered: " tool.tool_name), r)
    | none ↦ (
      none,
      record {
        tools = insert tool.tool_name tool r.tools;
        definitions = set_definition tool.tool_name def r.definitions;
      },
    )
  ]

  -- Get
  unfoldable pub get_tool :
      String → Registry Params Output World → Option (Tool Params Output World)
  get_tool name r = lookup name r.tools

  -- GetDefinition
  unfoldable pub get_definition : String → Registry Params Output World → Option ToolDefinition
  get_definition name r = lookup name r.definitions

  -- List, in one of the orders of the map
  unfoldable pub list_names : Registry Params Output World → List String
  list_names r = map (λ e. e.0) r.tools

  -- GetToolsForNames
  unfoldable pub get_tools_for_names :
      List String → Registry Params Output World → List (Tool Params Output World)
  get_tools_for_names [] r = []
  get_tools_for_names (name ∷ names) r =
      let rest = get_tools_for_names names r in
      elim (lookup name r.tools) [ none ↦ rest | some tool ↦ tool ∷ rest ]

  -- Count
  unfoldable pub count : Registry Params Output World → ℕ
  count r = length r.tools

  -- Tools with their definitions, registered one after another; errors are passed over.
  unfoldable pub register_all :
      List (Tool Params Output World × Option ToolDefinition)
      → Registry Params Output World
      → Registry Params Output World
  register_all [] r = r
  register_all (t ∷ ts) r = register_all ts (register t.0 t.1 r).1

  -- The first of the name.
  unfoldable pub first_named :
      String
      → List (Tool Params Output World × Option ToolDefinition)
      → Option (Tool Params Output World × Option ToolDefinition)
  first_named name [] = none
  first_named name (t ∷ ts) =
      let later = first_named name ts in if str_eq t.0.tool_name name then some t else later

  -- A definition is there only with its tool.
  abbrev Paired : Registry Params Output World → Type 0
  Paired r = (name : String) → lookup name r.tools ≡ none → lookup name r.definitions ≡ none

  -- What the registry has of the name.
  abbrev pub Has :
      String
      → Registry Params Output World
      → Option (Tool Params Output World × Option ToolDefinition)
      → Type 0
  Has name r none = (get_tool name r ≡ none) × (get_definition name r ≡ none)
  Has name r (some (tool, def)) = (get_tool name r ≡ some tool) × (get_definition name r ≡ def)

  register_old :
      (tool old : Tool Params Output World) (def : Option ToolDefinition)
      (r : Registry Params Output World)
      → lookup tool.tool_name r.tools ≡ some old
      → (register tool def r).1 ≡ r
  unfolding register
  register_old tool old def r e = rw (register, e) refl

  register_new :
      (tool : Tool Params Output World) (def : Option ToolDefinition)
      (r : Registry Params Output World)
      → lookup tool.tool_name r.tools ≡ none
      → (register tool def r).1 ≡ record {
        tools = insert tool.tool_name tool r.tools;
        definitions = set_definition tool.tool_name def r.definitions;
      }
  unfolding register
  register_new tool def r e = rw (register, e) refl

  register-Paired :
      (tool : Tool Params Output World) (def : Option ToolDefinition)
      (r : Registry Params Output World)
      → Paired r
      → Paired (register tool def r).1
  register-Paired tool def r h = elim (Option-cases (lookup tool.tool_name r.tools)) [
    | inr (old, e) ↦ subst Paired (sym (register_old tool old def r e)) h
    | inl e ↦ subst Paired (sym (register_new tool def r e)) (λ name gone.
        let t = lookup-insert r.tools tool.tool_name tool name in
        let d = lookup-set_definition tool.tool_name def r.definitions name (h tool.tool_name e) in
        let other : str_eq tool.tool_name name ≡ false = ground (arith, t, gone) in
        let old : lookup name r.tools ≡ none = ground (arith, t, gone) in d ∙ rw other (h name old))
  ]

  apart :
      (key name : String) (r : Registry Params Output World)
      → lookup key r.tools ≡ none
      → ¬ (lookup name r.tools ≡ none)
      → str_eq key name ≡ false
  apart key name r e found = elim (Bool-cases (str_eq key name)) [
    | inr other ↦ other
    | inl same ↦
        let k : key ≡ name = ground (arith, eq_iff key name) in
        absurd (found (ap (λ n. lookup n r.tools) (sym k) ∙ e))
  ]

  register_other :
      (name : String) (tool : Tool Params Output World) (def : Option ToolDefinition)
      (r : Registry Params Output World)
      → str_eq tool.tool_name name ≡ false
      → lookup name r.tools ≡ none
      → lookup name (register tool def r).1.tools ≡ none
  register_other name tool def r other gone = elim (Option-cases (lookup tool.tool_name r.tools)) [
    | inr (old, e) ↦ ap (λ s. lookup name s.tools) (register_old tool old def r e) ∙ gone
    | inl e ↦
        ap (λ s. lookup name s.tools) (register_new tool def r e)
        ∙ lookup-insert r.tools tool.tool_name tool name
        ∙ rw other gone
  ]

  register_keeps :
      (name : String) (tool kept : Tool Params Output World) (def : Option ToolDefinition)
      (r : Registry Params Output World)
      → Paired r
      → lookup name r.tools ≡ some kept
      → (lookup name (register tool def r).1.tools ≡ some kept)
        × (lookup name (register tool def r).1.definitions ≡ lookup name r.definitions)
  register_keeps name tool kept def r h found =
      elim (Option-cases (lookup tool.tool_name r.tools)) [
        | inr (old, e) ↦
            subst
              (λ s.
                (lookup name s.tools ≡ some kept)
                × (lookup name s.definitions ≡ lookup name r.definitions))
              (sym (register_old tool old def r e)) (found, refl)
        | inl e ↦
            let t = lookup-insert r.tools tool.tool_name tool name in
            let d =
              lookup-set_definition tool.tool_name def r.definitions name (h tool.tool_name e) in
            let differs : str_eq tool.tool_name name ≡ false =
              apart tool.tool_name name r e (λ gone. absurd (ground (arith, found, gone))) in
            subst
              (λ s.
                (lookup name s.tools ≡ some kept)
                × (lookup name s.definitions ≡ lookup name r.definitions))
              (sym (register_new tool def r e)) (t ∙ rw differs found, d ∙ rw differs refl)
      ]

  register_all_keeps :
      (name : String) (kept : Tool Params Output World)
      (ts : List (Tool Params Output World × Option ToolDefinition))
      (r : Registry Params Output World)
      → Paired r
      → lookup name r.tools ≡ some kept
      → (lookup name (register_all ts r).tools ≡ some kept)
        × (lookup name (register_all ts r).definitions ≡ lookup name r.definitions)
  unfolding register_all
  register_all_keeps name kept [] r h found = (found, refl)
  register_all_keeps name kept (t ∷ ts) r h found =
      let (k, d) = register_keeps name t.0 kept t.1 r h found in
      let (l, all) =
        register_all_keeps name kept ts (register t.0 t.1 r).1 (register-Paired t.0 t.1 r h) k in
      (l, all ∙ d)

  register_all-Has :
      (name : String) (ts : List (Tool Params Output World × Option ToolDefinition))
      (r : Registry Params Output World)
      → Paired r
      → lookup name r.tools ≡ none
      → Has name (register_all ts r) (first_named name ts)
  unfolding register_all first_named get_tool get_definition
  register_all-Has name [] r h gone = (gone, h name gone)
  register_all-Has name ((tool, def) ∷ ts) r h gone =
      elim (Bool-cases (str_eq tool.tool_name name)) [
        | inl same ↦
            let k : tool.tool_name ≡ name = ground (arith, eq_iff tool.tool_name name) in
            let e : lookup tool.tool_name r.tools ≡ none = ap (λ n. lookup n r.tools) k ∙ gone in
            let new = register_new tool def r e in
            let t : lookup name (register tool def r).1.tools ≡ some tool =
              ap (λ s. lookup name s.tools) new
              ∙ lookup-insert r.tools tool.tool_name tool name
              ∙ rw same refl in
            let d : lookup name (register tool def r).1.definitions ≡ def =
              ap (λ s. lookup name s.definitions) new
              ∙ lookup-set_definition tool.tool_name def r.definitions name (h tool.tool_name e)
              ∙ rw same refl in
            let (l, all) =
              register_all_keeps name tool ts (register tool def r).1 (register-Paired tool def r h)
                t in
            rw same (l, all ∙ d)
        | inr other ↦
            let still = register_other name tool def r other gone in
            rw other (
              register_all-Has name ts (register tool def r).1 (register-Paired tool def r h) still)
      ]

  -- After any registrations in a new registry, failed ones included, a name has the tool and the
  -- definition of the first registration under that name, and neither when there was none.
  pub register_all-new_registry :
      (name : String) (ts : List (Tool Params Output World × Option ToolDefinition))
      → Has name (register_all ts (new_registry Params Output World)) (first_named name ts)
  unfolding new_registry lookup
  register_all-new_registry name ts =
      register_all-Has name ts (new_registry Params Output World) (λ name gone. refl) refl
