-- ===== src/Webhook/Pipeline/Hooks/Sound.antt =====
-- Well formed hooks and `validateHooks` of
-- api/kubernetes/v1alpha1/projectpipelineruntime_webhook.go.
use Prim.Native.String.{String}
use mathlib.Core.Path.{◌≡◌, refl, sym}
use mathlib.Core.Logic.{◌⊎◌, ◌↔◌, inl, inr}
use mathlib.Core.Bool.{Bool, true, false, ◌||◌}
use mathlib.Core.Option.{some}
use mathlib.Core.List.{List, [], ◌∷◌, ◌++◌, map}
use native.Mathlib.Omega.{arith}
use nautes.Common.Tests.{is_some, is_empty, Option-cases}
use nautes.Common.Result.{ok, is_ok, is_ok-wrap, Result-cases}
use nautes.Common.Lists.{All, has, insert, set_of, difference, has-insert, has-set_of}
use nautes.Common.Distinct.{
  Distinct, Fresh, Fresh-insert_iff, Fresh-nil, Distinct-append_iff, Fresh-congr,
}
use nautes.Common.Maps.{Map, lookup}
use nautes.Resource.Cluster.{Cluster}
use nautes.Resource.Pipeline.{Hook, Hooks, HookMetadata}
use nautes.Webhook.Pipeline.Hooks.{
  get_hook_name, is_hook_support_event_source_types, convert_metadata_array_to_map,
  validate_hook_general, validate_hook_list, validate_hooks,
}

difference-is_empty_iff :
    (s t : List String) → (is_empty (difference s t) ≡ true) ↔ All (λ x. has t x ≡ true) s
unfolding difference
difference-is_empty_iff [] t = ((λ h. tt), λ h. refl)
difference-is_empty_iff (x ∷ s) t =
    let ih = difference-is_empty_iff s t in ((λ h. ground (arith, ih)), λ h. ground (arith, ih))

-- The rule supports every event source type of the runtime; an empty list supports all.
abbrev pub Supports : (supported types : List String) → Type 0
Supports supported types =
    (is_empty supported ≡ true) ⊎ All (λ x. has supported x ≡ true) (set_of types)

abbrev SupportsAll : (supported s : List String) → Type 0
SupportsAll supported s = All (λ x. has supported x ≡ true) s

SupportsAll-set_of_iff :
    (supported s : List String)
    → All (λ x. has (set_of supported) x ≡ true) s ↔ SupportsAll supported s
SupportsAll-set_of_iff supported [] = ((λ h. tt), λ h. tt)
SupportsAll-set_of_iff supported (x ∷ s) =
    let ih = SupportsAll-set_of_iff supported s in
    let same = has-set_of supported x in
    ((λ h. ground (arith, ih, same)), λ h. ground (arith, ih, same))

support_iff :
    (supported types : List String)
    → (is_ok (is_hook_support_event_source_types supported types) ≡ true) ↔ Supports supported types
unfolding is_hook_support_event_source_types
support_iff supported types =
    let empty = difference-is_empty_iff (set_of types) (set_of supported) in
    let same = SupportsAll-set_of_iff supported (set_of types) in
    ((λ h. ground (arith, empty, same)), λ h. ground (arith, empty, same))

validate_hook_general_iff :
    (hook : Hook) (rule : HookMetadata) (types hook_types hook_names : List String)
    → (is_ok (validate_hook_general hook rule types hook_types hook_names) ≡ true) ↔ (
        (has hook_types hook.name ≡ false)
        × (has hook_names (get_hook_name hook) ≡ false)
        × Supports rule.support_event_source_types types)
unfolding validate_hook_general
validate_hook_general_iff hook rule types hook_types hook_names =
    let inner = is_hook_support_event_source_types rule.support_event_source_types types in
    let wrapped = is_ok-wrap "hook %s verify failed: %w" inner in
    let supports = support_iff rule.support_event_source_types types in
    ((λ h. ground (arith, wrapped, supports)), λ h. ground (arith, wrapped, supports))

-- A hook that the rules know, that its stage allows and that supports the event sources.
pub record Fits (allowed : HookMetadata → Bool) (rules : Map HookMetadata) (types : List String)
    (hook : Hook) : Type 0 where
  pub rule : HookMetadata
  pub known : lookup hook.name rules ≡ some rule
  pub stage : allowed rule ≡ true
  pub supports : Supports rule.support_event_source_types types

abbrev pub hook_types_of : List Hook → List String
hook_types_of hooks = map (λ (hook : Hook). hook.name) hooks

module _ (message : String) (allowed : HookMetadata → Bool) (rules : Map HookMetadata)
    (types : List String) where
  -- What a stage asks of its hooks, after the stages before it.
  abbrev Passes : List Hook → (hook_types hook_names : List String) → Type 0
  Passes hooks hook_types hook_names =
      All (Fits allowed rules types) hooks
      × (Fresh hook_types (hook_types_of hooks) × Distinct (hook_types_of hooks))
      × (Fresh hook_names (map get_hook_name hooks) × Distinct (map get_hook_name hooks))

  validate_hook_list_iff :
      (hooks : List Hook) (hook_types hook_names : List String)
      → (is_ok (validate_hook_list message allowed rules types hooks hook_types hook_names) ≡ true)
        ↔ Passes hooks hook_types hook_names
  unfolding validate_hook_list
  validate_hook_list_iff [] hook_types hook_names = ((λ h. (tt, (tt, tt), (tt, tt))), λ h. refl)
  validate_hook_list_iff (hook ∷ hooks) hook_types hook_names =
      let alias = get_hook_name hook in
      let ih =
        validate_hook_list_iff hooks (insert hook.name hook_types) (insert alias hook_names) in
      let types_fresh = Fresh-insert_iff hook.name hook_types (hook_types_of hooks) in
      let names_fresh = Fresh-insert_iff alias hook_names (map get_hook_name hooks) in
      elim (Option-cases (lookup hook.name rules)) [
        | inl e ↦ ((λ h. ground (arith, e)), λ h. ground (arith, e))
        | inr (rule, e) ↦
            let general = validate_hook_general_iff hook rule types hook_types hook_names in
            let fits : is_ok (
                    validate_hook_list message allowed rules types (hook ∷ hooks) hook_types
                      hook_names)
                  ≡ true
                → Fits allowed rules types hook =
              λ h. record {
                rule = rule;
                known = e;
                stage = ground (arith, e);
                supports = ground (arith, e, general);
              } in
            (
              (λ h. (
                (fits h, ground (arith, e, ih)),
                ground (arith, e, general, ih, types_fresh),
                ground (arith, e, general, ih, names_fresh),
              )),
              λ h. ground (arith, e, general, ih, types_fresh, names_fresh),
            )
      ]

  -- The names that a stage hands on hold its aliases and those of the stages before it.
  validate_hook_list-names :
      (hooks : List Hook) (hook_types hook_names out : List String) (a : String)
      → validate_hook_list message allowed rules types hooks hook_types hook_names ≡ ok out
      → has out a ≡ (has hook_names a || has (map get_hook_name hooks) a)
  unfolding validate_hook_list has
  validate_hook_list-names [] hook_types hook_names out a h = ground arith
  validate_hook_list-names (hook ∷ hooks) hook_types hook_names out a h =
      let alias = get_hook_name hook in
      let ih =
        validate_hook_list-names hooks (insert hook.name hook_types) (insert alias hook_names) out
          a in
      ground (arith, ih, has-insert alias a hook_names)

-- Well formed hooks for the rules of a cluster's pipeline component and for the event sources.
pub record IsWellFormed (hooks : Hooks) (rules : Map HookMetadata) (types : List String)
    : Type 0 where
  pub pre_fit : All (Fits (λ rule. rule.is_pre_hook) rules types) hooks.pre_hooks
  pub post_fit : All (Fits (λ rule. rule.is_post_hook) rules types) hooks.post_hooks
  pub pre_types : Distinct (hook_types_of hooks.pre_hooks)
  pub post_types : Distinct (hook_types_of hooks.post_hooks)
  pub names : Distinct (map get_hook_name hooks.pre_hooks ++ map get_hook_name hooks.post_hooks)

-- On a cluster with an event listener the hooks are accepted exactly if the rules know each hook,
-- allow it at its stage and support every event source type, no hook occurs twice in a stage, and
-- the aliases are distinct over both stages.
pub validate_hooks_iff :
    (hooks : Hooks) (types : List String) (cluster : Cluster) (rules : List HookMetadata)
    → is_some cluster.spec.components_list.event_listener ≡ true
    → (validate_hooks (some hooks) types cluster rules ≡ ok tt)
      ↔ IsWellFormed hooks (convert_metadata_array_to_map [] rules) types
unfolding validate_hooks has
validate_hooks_iff hooks types cluster rules listener =
    let rule_map = convert_metadata_array_to_map [] rules in
    let pre_message : String = "hook %s can not be a pre hook" in
    let post_message : String = "hook %s can not be a post hook" in
    let pre_allowed = λ (rule : HookMetadata). rule.is_pre_hook in
    let post_allowed = λ (rule : HookMetadata). rule.is_post_hook in
    let pre_names = map get_hook_name hooks.pre_hooks in
    let post_names = map get_hook_name hooks.post_hooks in
    let pre = validate_hook_list_iff pre_message pre_allowed rule_map types hooks.pre_hooks [] [] in
    let together = Distinct-append_iff pre_names post_names in
    elim (Result-cases
      (validate_hook_list pre_message pre_allowed rule_map types hooks.pre_hooks [] [])) [
        | inr (e, p) ↦ (
          (λ h. ground (arith, p)),
          λ h. ground (
            arith,
            p,
            pre,
            together,
            Fresh-nil (hook_types_of hooks.pre_hooks),
            Fresh-nil pre_names,
          ),
        )
        | inl (names, p) ↦
            let same = λ (a : String).
              validate_hook_list-names pre_message pre_allowed rule_map types hooks.pre_hooks [] []
                names a p in
            let post =
              validate_hook_list_iff post_message post_allowed rule_map types hooks.post_hooks []
                names in
            let to = Fresh-congr names pre_names post_names same in
            let from = Fresh-congr pre_names names post_names (λ a. sym (same a)) in
            (
              (λ h. ground (arith, p, pre, post, together, to)),
              λ h.
                  ground (
                    arith,
                    p,
                    pre,
                    post,
                    together,
                    from,
                    Fresh-nil (hook_types_of hooks.post_hooks),
                  ),
            )
      ]
