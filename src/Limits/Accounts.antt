-- ===== src/Limits/Accounts.antt =====
-- packages/core/src/limit-identity.ts (`limitAccountId`), and the records of
-- `@cortexkit/common-auth/limits` whose fields the limits code reads.
use openai_auth.Prelude.{ℕ, String, Bool, ◌&&◌, Option, List, ◌==◌, string_eq, triple_eq}

pub record AccountKey : Type 0 where
  pub namespace : String
  pub account_id : String
  pub incarnation : String

pub record IdentityBinding : Type 0 where
  pub account : AccountKey
  pub credential_epoch : Option String
  pub identity : Option String

-- `JSON.stringify([namespace, accountId, incarnation])`, kept as the array that it spells: the
-- text of an array of three strings determines the strings.
abbrev pub AccountId : Type 0
AccountId = String × String × String

abbrev pub limit_account_id : AccountKey → AccountId
limit_account_id account = (account.namespace, account.account_id, account.incarnation)

-- The library's `sameAccount`: the three fields agree.
abbrev pub same_account : AccountKey → AccountKey → Bool
same_account a b = limit_account_id a == limit_account_id b

-- The `kind` of a mark's scope.
pub data Scope : Type 0 where
  pool : Scope
  model : String → Scope

abbrev pub is_pool : Scope → Bool
is_pool pool = Bool.true
is_pool (model name) = Bool.false

pub record MarkKey : Type 0 where
  pub account : AccountKey
  pub window : String
  pub scope : Scope

-- One cause of a mark. The registry writes times that `Number.isFinite` accepts.
pub record MarkEntry : Type 0 where
  pub cause : String
  pub until : ℕ
  pub evidence_at : ℕ
  pub committed_revision : ℕ

pub record Mark : Type 0 where
  pub key : MarkKey
  pub entries : List MarkEntry

-- A clear that the registry remembers. No cause clears all causes.
pub record Tombstone : Type 0 where
  pub key : MarkKey
  pub revision : ℕ
  pub cause : Option String

-- The committed snapshot of one namespace (`LimitsNamespace`).
pub record Snapshot : Type 0 where
  pub namespace : String
  pub generation : String
  pub revision : ℕ
  pub marks : List Mark
  pub tombstones : List Tombstone

-- `key.window === 'account' && key.scope.kind === 'pool'`
abbrev pub is_pool_account : MarkKey → Bool
is_pool_account key = key.window == "account" && is_pool key.scope
