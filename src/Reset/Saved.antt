-- ===== src/Reset/Saved.antt =====
-- packages/core/src/reset-credits.ts: when a saved pair is read back as it was written.
use openai_auth.Prelude.{
  ℕ, ◌≤◌, ◌<◌, ◌≡◌, refl, inl, inr, String, true, false, Option, none, some, arith, subst, ◌==◌,
  string_eq, Bool-cases, Option-cases, finite, infinity, nan,
}
use mathlib.Core.Option.{some-injective}
use openai_auth.Reset.{
  Field, absent, text, number, other, RawPair, SavedResetPair, text_of, time_of, recorded_account,
  recorded_refusal, answers_of, read_pair, valid_in_flight, to_raw, text_field, number_field,
  is_definite_refusal, max_safe_integer, ResetAccountState, pair_of,
}

abbrev pub Named : Option String → Type 0
Named none = Unit {0}
Named (some account) = (account == "") ≡ false

abbrev pub Refuses : Option ℕ → Type 0
Refuses none = Unit {0}
Refuses (some status) = is_definite_refusal status ≡ true

abbrev pub Counts : Option ℕ → Type 0
Counts none = Unit {0}
Counts (some n) = (0 < n) × (n ≤ max_safe_integer)

-- What the reader takes: texts with a character, a definite refusal, and a count that JavaScript's
-- numbers hold. A write does not check it: a pair with an empty text is saved, and not read back.
pub record IsReadable (pair : SavedResetPair) : Type 0 where
  pub request_named : (pair.redeem_request_id == "") ≡ false
  pub credit_named : (pair.credit_id == "") ≡ false
  pub account_named : Named pair.chatgpt_account_id
  pub refused : Refuses pair.rejected_status
  pub counted : Counts pair.unknown_answers

text_of-text : (s : String) → (s == "") ≡ false → text_of (text s) ≡ some s
text_of-text s h = rw h refl

text_of-some : (f : Field) (s : String) → text_of f ≡ some s → (s == "") ≡ false
text_of-some absent s h = absurd (cc)
text_of-some (number n) s h = absurd (cc)
text_of-some other s h = absurd (cc)
text_of-some (text t) s h = elim (Bool-cases (t == "")) [
  | inl e ↦ absurd (ground (arith, h, e))
  | inr e ↦ let at : t ≡ s = ground (arith, h, e) in rw (← at) e
]

recorded_refusal-some : (f : Field) → Refuses (recorded_refusal f)
recorded_refusal-some absent = tt
recorded_refusal-some (text s) = tt
recorded_refusal-some other = tt
recorded_refusal-some (number infinity) = tt
recorded_refusal-some (number nan) = tt
recorded_refusal-some (number (finite s)) = elim (Bool-cases (is_definite_refusal s)) [
  | inl e ↦ rw e e
  | inr e ↦ rw e tt
]

answers_of-some : (f : Field) → Counts (answers_of f)
answers_of-some absent = tt
answers_of-some (text s) = tt
answers_of-some other = tt
answers_of-some (number infinity) = tt
answers_of-some (number nan) = tt
answers_of-some (number (finite n)) = ground arith

recorded_account-some :
    (f : Field) (account : Option String) → recorded_account f ≡ some account → Named account
recorded_account-some absent account h = let at : none ≡ account = cc in rw (← at) tt
recorded_account-some (number n) account h = absurd (cc)
recorded_account-some other account h = absurd (cc)
recorded_account-some (text t) account h = elim (Bool-cases (t == "")) [
  | inl e ↦ absurd (ground (arith, h, e))
  | inr e ↦ let at : some t ≡ account = ground (arith, h, e) in rw (← at) e
]

reads_back :
    (request credit : Option String) (started : Option ℕ) (account : Option (Option String))
    (rejected answers : Field) (pair : SavedResetPair)
    → read_pair request credit started account rejected answers ≡ some pair
    → ((s : String) → request ≡ some s → (s == "") ≡ false)
    → ((s : String) → credit ≡ some s → (s == "") ≡ false)
    → ((a : Option String) → account ≡ some a → Named a)
    → IsReadable pair
reads_back none credit started account rejected answers pair h f g k = absurd (cc)
reads_back (some r) none started account rejected answers pair h f g k = absurd (cc)
reads_back (some r) (some c) none account rejected answers pair h f g k = absurd (cc)
reads_back (some r) (some c) (some t) none rejected answers pair h f g k = absurd (cc)
reads_back (some r) (some c) (some t) (some a) rejected answers pair h f g k =
    subst IsReadable (some-injective _ _ h) (record {
      request_named = f r refl;
      credit_named = g c refl;
      account_named = k a refl;
      refused = recorded_refusal-some rejected;
      counted = answers_of-some answers;
    })

-- Whatever was stored, a pair that is read is one that the reader takes.
pub valid_in_flight-IsReadable :
    (raw : RawPair) (pair : SavedResetPair) → valid_in_flight raw ≡ some pair → IsReadable pair
unfolding valid_in_flight
valid_in_flight-IsReadable raw pair h =
    reads_back (text_of raw.redeem_request_id) (text_of raw.credit_id) (time_of raw.started_at)
      (recorded_account raw.chatgpt_account_id) raw.rejected_status raw.unknown_answers pair h
      (text_of-some raw.redeem_request_id) (text_of-some raw.credit_id)
      (recorded_account-some raw.chatgpt_account_id)

account_back :
    (account : Option String) → Named account → recorded_account (text_field account) ≡ some account
account_back none h = refl
account_back (some a) h = rw h refl

refusal_back :
    (status : Option ℕ) → Refuses status → recorded_refusal (number_field status) ≡ status
refusal_back none h = refl
refusal_back (some s) h = rw h refl

answers_back : (count : Option ℕ) → Counts count → answers_of (number_field count) ≡ count
answers_back none h = refl
answers_back (some n) h = ground arith

-- Such a pair is read back from what is stored for it: the same request, credit, time, account,
-- refusal and count.
valid_in_flight-to_raw :
    (pair : SavedResetPair) → IsReadable pair → valid_in_flight (to_raw pair) ≡ some pair
unfolding valid_in_flight
valid_in_flight-to_raw pair w =
    rw
      (
        w.request_named,
        w.credit_named,
        account_back pair.chatgpt_account_id w.account_named,
        refusal_back pair.rejected_status w.refused,
        answers_back pair.unknown_answers w.counted,
      )
      refl

pub pair_of-to_raw :
    (state : ResetAccountState) (pair : SavedResetPair)
    → IsReadable pair
    → pair_of (some (record state { in_flight = some (to_raw pair) })) ≡ some pair
unfolding pair_of
pair_of-to_raw state pair w = valid_in_flight-to_raw pair w

-- Whatever state an account has, the pair that is read of it is one that the reader takes.
pub pair_of-IsReadable :
    (state : Option ResetAccountState) (pair : SavedResetPair)
    → pair_of state ≡ some pair
    → IsReadable pair
unfolding pair_of
pair_of-IsReadable none pair h = absurd (cc)
pair_of-IsReadable (some state) pair h = elim (Option-cases state.in_flight) [
  | inl e ↦ absurd (ground (arith, h, e))
  | inr (raw, e) ↦ valid_in_flight-IsReadable raw pair (ground (arith, h, e))
]
