-- ===== src/Routing/Ordered/Plans.antt =====
-- How a plan orders the accounts, when it sends once only, and when it blocks.
use openai_auth.Prelude.{
  ℕ, ◌≤◌, ◌≡◌, refl, ◌↔◌, String, Bool, true, false, ◌||◌, not, Option, none, some, List, [], ◌∷◌,
  ◌++◌, if◌then◌else◌, string_eq, keep_if, includes, All, All-imp, All-keep_if_test, includes_self,
  subst, arith, if_intro,
}
use openai_auth.Prelude.JsMap.{JsMap}
use openai_auth.Routing.{PoolInput, OrderedPlacement, main_first, RoutingLibrary}
use openai_auth.Routing.Ordered.{
  OrderedPlan, send, block, PoolBlock, MainId, main_of, Candidates, candidates, first_of_tiers,
  send_to, plan_once, plan_tiers, is_nil, rest_of, plan_ordered, route_block,
}

-- The tier of an account in one request: free quota, prepaid credits, or neither.
abbrev pub rank : Candidates → String → ℕ
rank c id = if includes c.free id then 0 else if includes c.credits id then 1 else 2

-- Ranks never fall along the list, from `low` on.
abbrev pub RisesFrom : Candidates → ℕ → List String → Type 0
RisesFrom c low [] = Unit {0}
RisesFrom c low (id ∷ ids) = (low ≤ rank c id) × RisesFrom c (rank c id) ids

-- Accounts of one rank after accounts of no higher rank.
RisesFrom-same :
    (c : Candidates) (low n : ℕ) (ids : List String)
    → low ≤ n
    → All (λ id. rank c id ≡ n) ids
    → RisesFrom c low ids
RisesFrom-same c low n [] h a = tt
RisesFrom-same c low n (id ∷ ids) h a =
    (omega (arith, a.0), RisesFrom-same c (rank c id) n ids (omega (arith, a.0)) a.1)

RisesFrom-append :
    (c : Candidates) (low n m : ℕ) (ids rest : List String)
    → low ≤ n
    → n ≤ m
    → All (λ id. rank c id ≡ n) ids
    → All (λ id. rank c id ≡ m) rest
    → RisesFrom c low (ids ++ rest)
RisesFrom-append c low n m [] rest h k a b = RisesFrom-same c low m rest (omega arith) b
RisesFrom-append c low n m (id ∷ ids) rest h k a b =
    (omega (arith, a.0), RisesFrom-append c (rank c id) n m ids rest (omega (arith, a.0)) k a.1 b)

-- A plan of the replayable kind: tiers in order, free quota alone if there is any, and the
-- last-path mark only where no row of a better kind is.
abbrev pub IsTiered : Candidates → List String → Bool → Type 0
IsTiered c order last_path =
    RisesFrom c 0 order
    × (is_nil c.free ≡ false → All (λ id. rank c id ≡ 0) order)
    × (last_path ≡ true → (c.order ≡ []) × (c.credits ≡ []))

abbrev Tiered : Candidates → OrderedPlan → Type 0
Tiered c (send order last_path) = IsTiered c order last_path
Tiered c (block b) = Unit

eq_nil : (ids : List String) → not (is_nil ids) ≡ false → ids ≡ []
eq_nil [] h = refl
eq_nil (id ∷ ids) h = absurd (cc)

module _ (c : Candidates) where
  free-rank : All (λ id. rank c id ≡ 0) c.free
  free-rank = All-imp _ _ c.free (λ id h. ground (arith, h)) (includes_self c.free)

  credits-rank : c.free ≡ [] → All (λ id. rank c id ≡ 1) c.credits
  credits-rank none_free =
      All-imp _ _ c.credits (λ id h. rw none_free (rw h)) (includes_self c.credits)

  others-rank :
      (ids : List String)
      → c.free ≡ []
      → All (λ id. rank c id ≡ 2) (keep_if (λ id. not (includes c.credits id)) ids)
  others-rank ids none_free = All-keep_if_test _ _ ids λ id h. rw none_free (ground arith)

  plain-rank : (ids : List String) → c.free ≡ [] → c.credits ≡ [] → All (λ id. rank c id ≡ 2) ids
  plain-rank [] none_free no_credits = tt
  plain-rank (id ∷ ids) none_free no_credits =
      (rw (none_free, no_credits) refl, plain-rank ids none_free no_credits)

  plan_tiers-Tiered : (verdicts : JsMap String Bool) → Tiered c (plan_tiers c verdicts)
  unfolding plan_tiers
  plan_tiers-Tiered verdicts =
      if_intro (Tiered c) (not (is_nil c.free)) _ _
        (λ _.
          (RisesFrom-same c 0 0 c.free (omega arith) free-rank, λ _. free-rank, λ e. absurd (cc)))
        λ f.
          let none_free = eq_nil c.free f in
          if_intro (Tiered c) (not (is_nil c.credits)) _ _
            (λ _. (
              RisesFrom-append c 0 1 2 c.credits _ (omega arith) (omega arith)
                  (credits-rank none_free) (others-rank (rest_of c) none_free),
              λ some_free. absurd (ground arith),
              λ e. absurd (cc),
            ))
            λ k.
              let no_credits = eq_nil c.credits k in
              if_intro (Tiered c) (not (is_nil c.order)) _ _
                (λ _. (
                  RisesFrom-same c 0 2 c.order (omega arith)
                      (plain-rank c.order none_free no_credits),
                  λ some_free. absurd (ground arith),
                  λ e. absurd (cc),
                ))
                λ o.
                  if_intro (Tiered c) (not (is_nil c.last_path)) _ _
                    (λ _. (
                      RisesFrom-same c 0 2 c.last_path (omega arith)
                          (plain-rank c.last_path none_free no_credits),
                      λ some_free. absurd (ground arith),
                      λ _. (eq_nil c.order o, no_credits),
                    ))
                    λ _. tt

Tiered-eq :
    (c : Candidates) (plan : OrderedPlan) (order : List String) (last_path : Bool)
    → Tiered c plan
    → plan ≡ send order last_path
    → IsTiered c order last_path
Tiered-eq c plan order last_path t e = subst (Tiered c) e t

-- A plan for a request that can be sent twice lists accounts with free quota, then accounts with
-- usable prepaid credits, then the others, and lists only accounts with free quota if one has any.
-- It is marked as a last path only if the library routes to no account and none has credits.
pub plan_ordered-IsTiered :
    (lib : RoutingLibrary) (input : PoolInput lib.Quota) (placement : OrderedPlacement)
    (main : MainId) (order : List String) (last_path : Bool)
    → plan_ordered lib input placement main true ≡ send order last_path
    → IsTiered (candidates lib input placement (main_of main)) order last_path
unfolding plan_ordered
plan_ordered-IsTiered lib input placement main order last_path e =
    Tiered-eq (candidates lib input placement (main_of main)) _ order last_path
      (plan_tiers-Tiered (candidates lib input placement (main_of main)) input.killswitch) e

module _ (c : Candidates) (verdicts : JsMap String Bool) where
  abbrev IsEmpty : Type 0
  IsEmpty = (c.order ≡ []) × (c.credits ≡ []) × (c.last_path ≡ [])

  abbrev Blocks : OrderedPlan → Type 0
  Blocks plan = (b : PoolBlock) × (plan ≡ block b)

  sends-not_Blocks :
      (order : List String) (last_path : Bool) → Blocks (send order last_path) → IsEmpty
  sends-not_Blocks order last_path (b, e) = absurd (cc)

  IsEmpty-of_Blocks : Blocks (plan_tiers c verdicts) → IsEmpty
  unfolding plan_tiers
  IsEmpty-of_Blocks =
      if_intro (λ p. Blocks p → IsEmpty) (not (is_nil c.free)) _ _ (λ _. sends-not_Blocks _ _)
        λ _.
          if_intro (λ p. Blocks p → IsEmpty) (not (is_nil c.credits)) _ _
            (λ _. sends-not_Blocks _ _)
            λ k.
              if_intro (λ p. Blocks p → IsEmpty) (not (is_nil c.order)) _ _
                (λ _. sends-not_Blocks _ _)
                λ o.
                  if_intro (λ p. Blocks p → IsEmpty) (not (is_nil c.last_path)) _ _
                    (λ _. sends-not_Blocks _ _)
                    λ l _. (eq_nil c.order o, eq_nil c.credits k, eq_nil c.last_path l)

  Blocks-of_IsEmpty : c.free ≡ [] → IsEmpty → Blocks (plan_tiers c verdicts)
  unfolding plan_tiers
  Blocks-of_IsEmpty f (o, k, l) = (route_block c.ids c.admission verdicts, rw (f, k, o, l) refl)

-- A request that can be sent twice is blocked exactly when the library routes to no account, no
-- account has usable credits, and none is left that is confirmed to be used up.
pub plan_ordered_blocks :
    (lib : RoutingLibrary) (input : PoolInput lib.Quota) (placement : OrderedPlacement)
    (main : MainId)
    → let c = candidates lib input placement (main_of main) in
      ((b : PoolBlock) × (plan_ordered lib input placement main true ≡ block b))
      ↔ ((c.order ≡ []) × (c.credits ≡ []) × (c.last_path ≡ []))
unfolding plan_ordered candidates
plan_ordered_blocks lib input placement main = (
  IsEmpty-of_Blocks c input.killswitch,
  λ empty. Blocks-of_IsEmpty c input.killswitch (rw (empty.0)) empty,
)
  where
    c : Candidates
    c = candidates lib input placement (main_of main)

module _ (c : Candidates) where
  -- What a plan for one account is.
  abbrev Single : OrderedPlan → Option String → Type 0
  Single (send order last_path) target = (t : String) × (target ≡ some t) × (order ≡ t ∷ [])
  Single (block b) target = Unit

  send_to-Single : (b : PoolBlock) (target : Option String) → Single (send_to c b target) target
  send_to-Single b none = tt
  send_to-Single b (some t) =
      if_intro (λ p. Single p (some t)) (includes c.order t || includes c.credits t) _ _
        (λ _. (t, refl, refl))
        λ _.
          if_intro (λ p. Single p (some t)) (includes c.confirmed_ids t) _ _ (λ _. (t, refl, refl))
            λ _. tt

  abbrev Once : String → OrderedPlan → Type 0
  Once main_id (send order last_path) =
      (t : String) × (order ≡ t ∷ []) × ((includes c.ids main_id ≡ true) → t ≡ main_id)
  Once main_id (block b) = Unit

  Once-of_Single :
      (main_id : String) (plan : OrderedPlan) (target : Option String)
      → ((t : String) → target ≡ some t → (includes c.ids main_id ≡ true) → t ≡ main_id)
      → Single plan target
      → Once main_id plan
  Once-of_Single main_id (send order last_path) target f (t, at, only) = (t, only, f t at)
  Once-of_Single main_id (block b) target f s = tt

  plan_once-Once :
      (main_id : String) (verdicts : JsMap String Bool)
      → Once main_id (plan_once c main_id verdicts)
  unfolding plan_once
  plan_once-Once main_id verdicts =
      if_intro (Once main_id) (includes c.ids main_id) _ _
        (λ _.
          Once-of_Single main_id _ (some main_id) (λ t e _. cc) (send_to-Single _ (some main_id)))
        λ absent.
          Once-of_Single main_id _ (first_of_tiers c) (λ t e present. absurd (cc))
            (send_to-Single _ (first_of_tiers c))

-- A request that cannot be sent twice goes to one account at most, and to main if main is a row.
pub plan_ordered_once :
    (lib : RoutingLibrary) (input : PoolInput lib.Quota) (placement : OrderedPlacement)
    (main : MainId) (order : List String) (last_path : Bool)
    → plan_ordered lib input placement main false ≡ send order last_path
    → (target : String) × (order ≡ target ∷ [])
      × ((includes (candidates lib input main_first (main_of main)).ids (main_of main) ≡ true)
          → target ≡ main_of main)
unfolding plan_ordered
plan_ordered_once lib input placement main order last_path e =
    subst (Once (candidates lib input main_first (main_of main)) (main_of main)) e (
      plan_once-Once (candidates lib input main_first (main_of main)) (main_of main)
        input.killswitch)
