-- ===== src/Routing/Ordered/Sendable.antt =====
-- No plan spends on an account below its killswitch floor, or on one whose quota is unknown.
use openai_auth.Prelude.{
  ◌≡◌, ◌⊎◌, inl, inr, String, Bool, true, false, ◌||◌, not, Option, none, some, List, [], ◌∷◌, map,
  if◌then◌else◌, ◌==◌, string_eq, keep_if, includes, All, All-keep_if_test, All-keep_if_of_All,
  All-append, All-includes, All-map, subst, All-both, All-of_includes, ap, arith, if_intro,
  Bool-cases, eq_of_==,
}
use openai_auth.Prelude.JsMap.{JsMap, get, set, get-set}
use openai_auth.Routing.{
  Row, PoolInput, Refusal, AdmittedRow, Admission, OrderedPlacement, main_first, RoutingLibrary,
  passes,
}
use openai_auth.Routing.Credits.{refusal_map, refused_exhausted, on_credits, credits_tiers}
use openai_auth.Routing.Ordered.{
  OrderedPlan, send, block, PoolBlock, MainId, main_of, confirmed, Candidates, candidates,
  first_of_tiers, send_to, plan_once, plan_tiers, is_nil, rest_of, plan_ordered,
}

-- A plan that sends sends only to what `P` holds of.
abbrev Sends {ℓ} : (String → Type ℓ) → OrderedPlan → Type ℓ
Sends P (send order last_path) = All P order
Sends P (block b) = Unit

-- `P` holds of all that a plan is made from.
record Offers {ℓ} (P : String → Type ℓ) (c : Candidates) : Type ℓ where
  order : All P c.order
  credits : All P c.credits
  confirmed_ids : All P c.confirmed_ids
  free : All P c.free
  last_path : All P c.last_path

module _ {ℓ} (P : String → Type ℓ) (c : Candidates) (offers : Offers P c) where
  send_to-Sends : (b : PoolBlock) (target : Option String) → Sends P (send_to c b target)
  send_to-Sends b none = tt
  send_to-Sends b (some target) =
      if_intro (Sends P) (includes c.order target || includes c.credits target) _ _
        (λ h. (either h, tt))
        λ _.
          if_intro (Sends P) (includes c.confirmed_ids target) _ _
            (λ h. (All-includes P c.confirmed_ids target offers.confirmed_ids h, tt)) λ _. tt
    where
      either : (includes c.order target || includes c.credits target) ≡ true → P target
      either h = elim (Bool-cases (includes c.order target)) [
        | inl here ↦ All-includes P c.order target offers.order here
        | inr there ↦ All-includes P c.credits target offers.credits (ground arith)
      ]

  plan_once-Sends :
      (main_id : String) (verdicts : JsMap String Bool) → Sends P (plan_once c main_id verdicts)
  unfolding plan_once
  plan_once-Sends main_id verdicts =
      if_intro (Sends P) (includes c.ids main_id) _ _ (λ _. send_to-Sends _ (some main_id))
        λ _. send_to-Sends _ (first_of_tiers c)

  rest-All : All P (rest_of c)
  rest-All = if_intro (All P) (not (is_nil c.order)) _ _ (λ _. offers.order) λ _. offers.last_path

  plan_tiers-Sends : (verdicts : JsMap String Bool) → Sends P (plan_tiers c verdicts)
  unfolding plan_tiers
  plan_tiers-Sends verdicts =
      if_intro (Sends P) (not (is_nil c.free)) _ _ (λ _. offers.free)
        λ _.
          if_intro (Sends P) (not (is_nil c.credits)) _ _
            (λ _.
              All-append P c.credits _ offers.credits (All-keep_if_of_All P _ (rest_of c) rest-All))
            λ _.
              if_intro (Sends P) (not (is_nil c.order)) _ _ (λ _. offers.order)
                λ _.
                  if_intro (Sends P) (not (is_nil c.last_path)) _ _ (λ _. offers.last_path) λ _. tt

-- Rows refused for confirmed exhaustion that their killswitch allows.
abbrev pub confirmed_refusals : JsMap String Bool → Admission → List String
confirmed_refusals verdicts admission =
    map (λ (r : Refusal). r.id) (keep_if (confirmed verdicts) admission.refused)

module _ (verdicts : JsMap String Bool) (id : String) (allowed : passes verdicts id ≡ true) where
  head_or_before :
      (r : Refusal) (before : JsMap String Refusal)
      → refused_exhausted (get id (set r.id r before)) ≡ true
      → (refused_exhausted (get id before) ≡ true)
        ⊎ ((confirmed verdicts r ≡ true) × ((r.id == id) ≡ true))
  head_or_before r before h = elim (Bool-cases (r.id == id)) [
    | inl same ↦ inr (
      ground (
        arith,
        get-set id r.id r before,
        same,
        allowed,
        ap (passes verdicts) (eq_of_== r.id id same),
      ),
      same,
    )
    | inr other ↦ inl (ground (arith, get-set id r.id r before, other))
  ]

  -- The last refusal of a row decides, and it is one of the refusals.
  refusal_map-confirmed :
      (rs : List Refusal) (before : JsMap String Refusal)
      → refused_exhausted (get id (refusal_map rs before)) ≡ true
      → (refused_exhausted (get id before) ≡ true)
        ⊎ (includes (map (λ (r : Refusal). r.id) (keep_if (confirmed verdicts) rs)) id ≡ true)
  refusal_map-confirmed [] before h = inl h
  refusal_map-confirmed (r ∷ rs) before h = joined (refusal_map-confirmed rs (set r.id r before) h)
    where
      joined :
          (refused_exhausted (get id (set r.id r before)) ≡ true)
            ⊎ (includes (map (λ (q : Refusal). q.id) (keep_if (confirmed verdicts) rs)) id ≡ true)
          → (refused_exhausted (get id before) ≡ true)
            ⊎ (includes (map (λ (q : Refusal). q.id) (keep_if (confirmed verdicts) (r ∷ rs))) id
                ≡ true)
      joined (inr later) = inr (ground (arith, later))
      joined (inl now_or_before) = elim (head_or_before r before now_or_before) [
        | inl earlier ↦ inl earlier
        | inr (hit, same) ↦ inr (rw hit (rw same))
      ]

-- What the code relies on in the routing library for one request: the order holds admitted rows
-- that no killswitch verdict excludes.
pub record RoutesAdmitted (lib : RoutingLibrary) (input : PoolInput lib.Quota)
    (placement : OrderedPlacement) (main_id : String) : Type 0 where
  pub admitted :
      All
        (λ id.
          includes
            (map
              (λ (r : AdmittedRow). r.id)
              (lib.route_ordered input placement main_id).admission.admitted)
            id
          ≡ true)
        (lib.route_ordered input placement main_id).order
  pub allowed :
      All
        (λ id. passes input.killswitch id ≡ true)
        (lib.route_ordered input placement main_id).order

-- An account that may be sent to: above its killswitch floor, and admitted or known to be used up.
abbrev pub IsSendable : JsMap String Bool → Admission → String → Type 0
IsSendable verdicts admission id =
    (passes verdicts id ≡ true)
    × ((includes (map (λ (r : AdmittedRow). r.id) admission.admitted) id ≡ true)
        ⊎ (includes (confirmed_refusals verdicts admission) id ≡ true))

module _ (lib : RoutingLibrary) (input : PoolInput lib.Quota) (placement : OrderedPlacement)
    (main_id : String) (routed : RoutesAdmitted lib input placement main_id) where
  admission : Admission
  admission = (lib.route_ordered input placement main_id).admission

  P : String → Type 0
  P = IsSendable input.killswitch (lib.route_ordered input placement main_id).admission

  order-P : All P (lib.route_ordered input placement main_id).order
  unfolding P
  order-P =
      All-both _ (λ id. passes input.killswitch id ≡ true) P
        (lib.route_ordered input placement main_id).order (λ id a k. (k, inl a)) routed.admitted
        routed.allowed

  confirmed-P : All P (confirmed_refusals input.killswitch admission)
  unfolding P admission
  confirmed-P = All-of_includes P _ λ id inside. (
    All-includes (λ i. passes input.killswitch i ≡ true)
        (confirmed_refusals input.killswitch admission) id
        (All-map (λ i. passes input.killswitch i ≡ true) (λ (r : Refusal). r.id)
          (keep_if (confirmed input.killswitch) admission.refused)
          (All-keep_if_test (λ (r : Refusal). passes input.killswitch r.id ≡ true)
            (confirmed input.killswitch) admission.refused (λ r h. ground arith)))
        inside,
    inr inside,
  )

  tier-P : All P (credits_tiers lib input.rows input admission).credits
  unfolding P admission credits_tiers on_credits get
  tier-P =
      All-map P (λ (r : Row lib.Quota). r.id) _
        (All-keep_if_test (λ (r : Row lib.Quota). P r.id)
          (on_credits lib input (refusal_map admission.refused [])) input.rows
          λ r h. (ground arith, inr (used_up r.id (ground arith) (ground arith))))
    where
      used_up :
          (id : String)
          → passes input.killswitch id ≡ true
          → refused_exhausted (get id (refusal_map admission.refused [])) ≡ true
          → includes (confirmed_refusals input.killswitch admission) id ≡ true
      used_up id k h = last (refusal_map-confirmed input.killswitch id k admission.refused [] h)
        where
          last :
              (refused_exhausted (get id []) ≡ true)
                ⊎ (includes (confirmed_refusals input.killswitch admission) id ≡ true)
              → includes (confirmed_refusals input.killswitch admission) id ≡ true
          last (inl never) = absurd (ground arith)
          last (inr found) = found

  candidates-Offers : Offers P (candidates lib input placement main_id)
  unfolding candidates admission
  candidates-Offers = record {
    order = order-P;
    credits =
        All-keep_if_test P (includes (credits_tiers lib input.rows input admission).credits) _
          λ id h. All-includes P _ id tier-P h;
    confirmed_ids = confirmed-P;
    free = All-keep_if_of_All P _ _ order-P;
    last_path =
        All-keep_if_test P (includes (confirmed_refusals input.killswitch admission)) _
          λ id h. All-includes P _ id confirmed-P h;
  }

-- The placement that a request is routed with: one that cannot be replayed goes main first.
abbrev pub gated : Bool → OrderedPlacement → OrderedPlacement
gated replayable placement = if replayable then placement else main_first

Sends-eq :
    (P : String → Type 0) (plan : OrderedPlan) (order : List String) (last_path : Bool)
    → Sends P plan
    → plan ≡ send order last_path
    → All P order
Sends-eq P plan order last_path s e = subst (Sends P) e s

-- If the library's ordered route lists only accounts that it admitted and that pass their
-- killswitch verdict, then every account that a plan sends to passes its verdict, and was admitted
-- or refused for confirmed exhaustion: none below its killswitch floor, and none that was refused
-- only for want of a quota reading.
pub plan_ordered-IsSendable :
    (lib : RoutingLibrary) (input : PoolInput lib.Quota) (placement : OrderedPlacement)
    (main : MainId) (replayable : Bool) (order : List String) (last_path : Bool)
    → RoutesAdmitted lib input (gated replayable placement) (main_of main)
    → plan_ordered lib input placement main replayable ≡ send order last_path
    → All
        (IsSendable input.killswitch
          (lib.route_ordered input (gated replayable placement) (main_of main)).admission)
        order
unfolding plan_ordered P
plan_ordered-IsSendable lib input placement main true order last_path routed e =
    Sends-eq _ _ order last_path
      (plan_tiers-Sends _ _ (candidates-Offers lib input placement (main_of main) routed)
        input.killswitch)
      e
plan_ordered-IsSendable lib input placement main false order last_path routed e =
    Sends-eq _ _ order last_path
      (plan_once-Sends _ _ (candidates-Offers lib input main_first (main_of main) routed)
        (main_of main) input.killswitch)
      e
