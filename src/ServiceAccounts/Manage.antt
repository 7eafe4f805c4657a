-- ===== src/ServiceAccounts/Manage.antt =====
-- server/services/serviceAccounts.ts: accounts are created, disabled and enabled, and their secrets
-- issued and revoked.
use opencoi.Base.{
  ◌≡◌, Option-cases, inl, inr, arith, ℕ, Bool, not, ◌&&◌, ◌||◌, Option, none, some, List, ◌∷◌, ◌++◌,
  ltb, ◌==◌, if◌then◌else◌, ◌>>=◌, Text, text_eq, codes, any, length, take, trim, truthy, is_some,
  update_where,
}
use opencoi.Security.{Digest, pepper_or_none, hash_opaque_token}
use opencoi.ServiceAccounts.{
  ServiceAccountRow, ServiceAccountSecretRow, Accounts, AccountStatus, active, is_account,
  normalized_scopes,
}
use opencoi.ServiceAccounts.Token.{secret_prefix}

-- The input, with the random id and token. An expiration is a text that is a date, if it is one; an empty
-- one is none.
pub record IssueInput : Type 0 where
  pub organization_id : Text
  pub service_account_id : Text
  pub created_by_user_id : Option Text
  pub expires_at : Option (Option ℕ)
  pub token_pepper : Option Text
  pub at : ℕ
  pub new_id : Text
  pub random_token : Text

pub record IssuedServiceAccountSecret : Type 0 where
  pub id : Text
  pub token : Text
  pub token_prefix : Text
  pub expires_at : Option ℕ
  pub created_at : ℕ

-- `ocoi_sk_${id}.${randomToken()}`
unfoldable pub token_of : IssueInput → Text
token_of input = secret_prefix ++ (input.new_id ++ (codes "." ++ input.random_token))

-- `none` where the text is no date.
abbrev pub normalized_expiration : Option (Option ℕ) → Option (Option ℕ)
normalized_expiration none = some none
normalized_expiration (some none) = none
normalized_expiration (some (some t)) = some (some t)

unfoldable pub new_secret : IssueInput → Option ℕ → Text → ServiceAccountSecretRow
new_secret input expires_at token_hash = record {
  id = input.new_id;
  organization_id = input.organization_id;
  service_account_id = input.service_account_id;
  token_hash = token_hash;
  token_prefix = take 24 (token_of input);
  expires_at = expires_at;
  last_used_at = none;
  revoked_at = none;
  created_by_user_id = input.created_by_user_id;
  created_at = input.at;
}

-- A row of the table with a key of a new one, or a hash that its `CHECK` refuses.
unfoldable pub refuses_secret : ServiceAccountSecretRow → List ServiceAccountSecretRow → Bool
refuses_secret new secrets =
    any
      (λ (s : ServiceAccountSecretRow). text_eq s.id new.id || text_eq s.token_hash new.token_hash)
      secrets
    || not (length new.token_hash == 64)

unfoldable pub insert_secret : ServiceAccountSecretRow → Accounts → Option Accounts
insert_secret new db =
    if refuses_secret new db.service_account_secrets
    then none
    else some (record db { service_account_secrets = new ∷ db.service_account_secrets })

unfoldable pub issue_secret :
    Digest → IssueInput → Accounts → Option (Accounts × IssuedServiceAccountSecret)
issue_secret digest input db = normalized_expiration input.expires_at >>= λ expires_at.
    hash_opaque_token digest (token_of input) input.token_pepper >>= λ token_hash.
    insert_secret (new_secret input expires_at token_hash) db >>= λ after. some (
      after,
      record {
        id = input.new_id;
        token = token_of input;
        token_prefix = take 24 (token_of input);
        expires_at = expires_at;
        created_at = input.at;
      },
    )

pub record CreateInput : Type 0 where
  pub name : Text
  pub description : Option Text
  pub scopes : List Text
  pub secret : IssueInput

-- `description?.trim() || null`
abbrev pub description_or_null : Option Text → Option Text
description_or_null none = none
description_or_null (some s) = if truthy (trim s) then some (trim s) else none

-- The id of the account is that of its secret's input.
unfoldable pub new_account : CreateInput → List Text → ServiceAccountRow
new_account input scopes = record {
  id = input.secret.service_account_id;
  organization_id = input.secret.organization_id;
  name = trim input.name;
  description = description_or_null input.description;
  scopes = scopes;
  status = active;
  created_by_user_id = input.secret.created_by_user_id;
  last_used_at = none;
  created_at = input.secret.at;
  updated_at = input.secret.at;
}

unfoldable pub insert_account : ServiceAccountRow → Accounts → Option Accounts
insert_account new db =
    if any
      (λ (a : ServiceAccountRow).
        text_eq a.id new.id
        || text_eq a.organization_id new.organization_id && text_eq a.name new.name)
      db.service_accounts
    then none
    else some (record db { service_accounts = new ∷ db.service_accounts })

-- A throw rolls the transaction back.
unfoldable pub create_service_account :
    Digest
    → CreateInput
    → Accounts
    → Option (Accounts × ServiceAccountRow × IssuedServiceAccountSecret)
create_service_account digest input db =
    if not (truthy (trim input.name)) || ltb 120 (length (trim input.name))
    then none
    else normalized_scopes input.scopes >>= λ scopes.
        insert_account (new_account input scopes) db >>= λ with_account.
        issue_secret digest input.secret with_account >>= λ issued.
        some (issued.0, new_account input scopes, issued.1)

unfoldable pub rotate_service_account_secret :
    Digest → IssueInput → Accounts → Option (Accounts × IssuedServiceAccountSecret)
rotate_service_account_secret digest input db =
    if any (is_account input.organization_id input.service_account_id) db.service_accounts
    then issue_secret digest input db
    else none

abbrev pub is_revocable : Text → Text → Text → ServiceAccountSecretRow → Bool
is_revocable organization_id service_account_id secret_id s =
    text_eq s.organization_id organization_id
    && text_eq s.service_account_id service_account_id
    && text_eq s.id secret_id
    && not (is_some s.revoked_at)

abbrev pub revoked_row : ℕ → ServiceAccountSecretRow → ServiceAccountSecretRow
revoked_row at s = record s { revoked_at = some at }

unfoldable pub revoke_service_account_secret : Text → Text → Text → ℕ → Accounts → Accounts × Bool
revoke_service_account_secret organization_id service_account_id secret_id at db =
    let changed =
      update_where (is_revocable organization_id service_account_id secret_id) (revoked_row at)
        db.service_account_secrets in
    (record db { service_account_secrets = changed.0 }, length changed.1 == 1)

abbrev pub account_with_status : AccountStatus → ℕ → ServiceAccountRow → ServiceAccountRow
account_with_status status at a = record a { status = status; updated_at = at }

unfoldable pub set_service_account_status :
    Text → Text → AccountStatus → ℕ → Accounts → Accounts × Bool
set_service_account_status organization_id service_account_id status at db =
    let changed =
      update_where (is_account organization_id service_account_id) (account_with_status status at)
        db.service_accounts in
    (record db { service_accounts = changed.0 }, length changed.1 == 1)

-- How a secret is issued: its expiration is a date, and its row, with the hash of the token, is inserted.
pub record IsIssued (digest : Digest) (input : IssueInput) (before after : Accounts)
    (issued : IssuedServiceAccountSecret) : Type 0 where
  pub expiration : normalized_expiration input.expires_at ≡ some issued.expires_at
  pub id : issued.id ≡ input.new_id
  pub token : issued.token ≡ token_of input
  pub inserted :
      insert_secret
        (new_secret input issued.expires_at
          (digest (pepper_or_none input.token_pepper) (token_of input)))
        before
      ≡ some after

pub issue_secret-IsIssued :
    (digest : Digest) (input : IssueInput) (before after : Accounts)
    (issued : IssuedServiceAccountSecret)
    → issue_secret digest input before ≡ some (after, issued)
    → IsIssued digest input before after issued
unfolding issue_secret hash_opaque_token token_of
issue_secret-IsIssued digest input before after issued e = ground arith

-- How an account is created: it is inserted, and then its first secret is issued.
pub record IsCreated (digest : Digest) (input : CreateInput) (before after : Accounts)
    (account : ServiceAccountRow) (issued : IssuedServiceAccountSecret) : Type 0 where
  pub between : Accounts
  pub scopes : normalized_scopes input.scopes ≡ some account.scopes
  pub account_is : account ≡ new_account input account.scopes
  pub inserted : insert_account account before ≡ some between
  pub issues : issue_secret digest input.secret between ≡ some (after, issued)

pub create_service_account-IsCreated :
    (digest : Digest) (input : CreateInput) (before after : Accounts) (account : ServiceAccountRow)
    (issued : IssuedServiceAccountSecret)
    → create_service_account digest input before ≡ some (after, account, issued)
    → IsCreated digest input before after account issued
unfolding create_service_account
create_service_account-IsCreated digest input before after account issued e =
    elim (Option-cases (normalized_scopes input.scopes)) [
      | inl q ↦ ground (arith, q)
      | inr (scopes, q) ↦ elim (Option-cases (insert_account (new_account input scopes) before)) [
        | inl r ↦ ground (arith, q, r)
        | inr (between, r) ↦ record {
          between = between;
          scopes = unfold new_account in (ground (arith, q, r));
          account_is = unfold new_account in (ground (arith, q, r));
          inserted = ground (arith, q, r);
          issues = ground (arith, q, r);
        }
      ]
    ]
