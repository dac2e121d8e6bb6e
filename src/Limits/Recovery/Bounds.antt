-- ===== src/Limits/Recovery/Bounds.antt =====
-- The invariant of the recovery latch, under every call: its bounds, and that nothing staged was
-- consumed before.
use openai_auth.Prelude.{
  ℕ, ◌+◌, ◌≤◌, ◌≡◌, refl, ◌⊎◌, inl, inr, Bool, true, false, ◌||◌, [], ◌∷◌, ltb, nat_eq, string_eq,
  triple_eq, option_eq, All, arith, if_intro, ==_comm,
}
use openai_auth.Prelude.JsMap.{
  size, has, set, delete, size-set, size-set-has, size-delete, All-set, All-delete, All-delete_ne,
  get-set,
}
use openai_auth.Limits.Accounts.{limit_account_id}
use openai_auth.Limits.Recovery.{
  remembered_bound, staged_bound, consumed_bound, Evidence, RecoveryEvidence, EvidenceId,
  evidence_id, EvidenceMap, Latch, new_latch, stageable, stage, move_all, of_account, consumable,
  consume,
}

-- Staged evidence stands under its own id, which was never consumed.
abbrev pub IsFresh : EvidenceMap → EvidenceId × Evidence → Type 0
IsFresh consumed (id, e) = (id ≡ evidence_id e) × (has id consumed ≡ false)

pub record IsSound (latch : Latch) : Type 0 where
  pub remembered_fits : size latch.remembered ≤ remembered_bound
  pub staged_fits : size latch.staged ≤ staged_bound
  pub consumed_fits : size latch.consumed ≤ consumed_bound
  pub closed : (latch.exhausted ≡ false) ⊎ (latch.staged ≡ [])
  pub fresh : All (IsFresh latch.consumed) latch.staged

pub new_latch-IsSound : IsSound new_latch
unfolding new_latch
new_latch-IsSound = record {
  remembered_fits = omega arith;
  staged_fits = omega arith;
  consumed_fits = omega arith;
  closed = inl refl;
  fresh = tt;
}

-- A `set` that is guarded by the map's bound keeps the bound.
pub size-set_guarded :
    (bound : ℕ) (id : EvidenceId) (e : Evidence) (m : EvidenceMap)
    → size m ≤ bound
    → (has id m || ltb (size m) bound) ≡ true
    → size (set id e m) ≤ bound
size-set_guarded bound id e m fits guard = ground (arith, size-set id e m, size-set-has id e m)

pub stage-IsSound : (e : Evidence) (latch : Latch) → IsSound latch → IsSound (stage e latch)
unfolding stage stageable
stage-IsSound e latch v = if_intro IsSound (stageable e latch) _ _ staged λ _. v
  where
    staged :
        stageable e latch ≡ true
        → IsSound (record latch { staged = set (evidence_id e) e latch.staged })
    staged ok = record {
      remembered_fits = v.remembered_fits;
      staged_fits =
          size-set_guarded staged_bound (evidence_id e) e latch.staged v.staged_fits (ground arith);
      consumed_fits = v.consumed_fits;
      closed = inl (ground arith);
      fresh =
          All-set (IsFresh latch.consumed) (evidence_id e) e latch.staged (refl, ground arith)
            v.fresh;
    }

pub forget_remembered-IsSound :
    (id : EvidenceId) (latch : Latch)
    → IsSound latch
    → IsSound (record latch { remembered = delete id latch.remembered })
forget_remembered-IsSound id latch v = record {
  remembered_fits = omega (arith, size-delete id latch.remembered, v.remembered_fits);
  staged_fits = v.staged_fits;
  consumed_fits = v.consumed_fits;
  closed = v.closed;
  fresh = v.fresh;
}

delete_closed :
    (id : EvidenceId) (exhausted : Bool) (m : EvidenceMap)
    → (exhausted ≡ false) ⊎ (m ≡ [])
    → (exhausted ≡ false) ⊎ (delete id m ≡ [])
unfolding delete
delete_closed id exhausted m (inl open_latch) = inl open_latch
delete_closed id exhausted m (inr empty) = inr (rw empty refl)

pub forget_staged-IsSound :
    (id : EvidenceId) (latch : Latch)
    → IsSound latch
    → IsSound (record latch { staged = delete id latch.staged })
forget_staged-IsSound id latch v = record {
  remembered_fits = v.remembered_fits;
  staged_fits = omega (arith, size-delete id latch.staged, v.staged_fits);
  consumed_fits = v.consumed_fits;
  closed = delete_closed id latch.exhausted latch.staged v.closed;
  fresh = All-delete (IsFresh latch.consumed) id latch.staged v.fresh;
}

move_all-IsSound :
    (m : EvidenceMap) (latch : Latch)
    → latch.exhausted ≡ false
    → size latch.consumed + size m ≤ consumed_bound
    → IsSound latch
    → IsSound (move_all m latch)
unfolding move_all
move_all-IsSound [] latch open_latch room v = v
move_all-IsSound ((key, e) ∷ m) latch open_latch room v =
    move_all-IsSound m
      (record latch { consumed = set key e latch.consumed; staged = delete key latch.staged })
      open_latch (omega (arith, size-set key e latch.consumed))
      (record {
        remembered_fits = v.remembered_fits;
        staged_fits = omega (arith, size-delete key latch.staged, v.staged_fits);
        consumed_fits = omega (arith, size-set key e latch.consumed);
        closed = inl open_latch;
        fresh =
            All-delete_ne (IsFresh latch.consumed) (IsFresh (set key e latch.consumed)) key
              latch.staged
              (λ p f other.
                (f.0, ground (arith, get-set p.0 key e latch.consumed, ==_comm p.0 key, f.1)))
              v.fresh;
      })

pub consume-IsSound :
    (r : RecoveryEvidence) (latch : Latch) → IsSound latch → IsSound (consume r latch).1
unfolding consume
consume-IsSound r latch v =
    if_intro (λ (p : Bool × Latch). IsSound p.1) (consumable r latch) _ _
      (λ ok.
        if_intro (λ (p : Bool × Latch). IsSound p.1)
          (ltb consumed_bound (size latch.consumed + size same)) _ _ (λ _. filled)
          λ room. move_all-IsSound same latch (ground arith) (ground arith) v)
      λ _. v
  where
    same : EvidenceMap
    same = of_account (limit_account_id r.evidence.account) latch.staged

    filled : IsSound (record latch { exhausted = true; staged = []; logged = latch.logged + 1 })
    filled = record {
      remembered_fits = v.remembered_fits;
      staged_fits = omega arith;
      consumed_fits = v.consumed_fits;
      closed = inr refl;
      fresh = tt;
    }
