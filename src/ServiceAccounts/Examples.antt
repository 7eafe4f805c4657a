-- ===== src/ServiceAccounts/Examples.antt =====
-- A secret that is issued, used and revoked.
use mathlib.Core.List.{Memᴰ}
use opencoi.Base.{
  ◌≡◌, ◌≢◌, ◌↔◌, refl, true, none, some, [], ◌∷◌, ◌++◌, codes, Text, text_eq, any, filter, is_digit,
  take,
}
use opencoi.Base.Sort.{sort, insert_sorted, compare_texts, unique_texts, sorted_set}
use opencoi.Security.{Digest, is_hash, is_hex, hash_opaque_token}
use opencoi.ServiceAccounts.{
  ServiceAccountRow, ServiceAccountSecretRow, Accounts, active, disabled, scopes_for,
  normalized_scopes, is_allowed_scope,
}
use opencoi.ServiceAccounts.Token.{repeated, match_classes, is_url_safe, secret_id_from_token}
use opencoi.ServiceAccounts.Manage.{
  IssueInput, IssuedServiceAccountSecret, issue_secret, new_secret, insert_secret, refuses_secret,
  token_of, set_service_account_status,
}
use opencoi.ServiceAccounts.Authenticate.{
  AuthenticatedServiceAccount, authenticate_service_account, authenticated,
}
use opencoi.ServiceAccounts.Lookup.{IsAuthentic, IsKeyed}
use opencoi.ServiceAccounts.Authentic.{authenticate_service_account_iff}
use opencoi.ServiceAccounts.Steps.{done, after_step, sets_status}
use opencoi.ServiceAccounts.Revoked.{Steps-stays_revoked}
use opencoi.ServiceAccounts.Issued.{IsRandom, issue_secret-authenticates}

-- A digest of 64 zeros.
abbrev digest : Digest
digest pepper token = repeated 64 48

abbrev account : ServiceAccountRow
account = record {
  id = codes "a1";
  organization_id = codes "o1";
  name = codes "reader";
  description = none;
  scopes = codes "vendors:read" ∷ [];
  status = active;
  created_by_user_id = none;
  last_used_at = none;
  created_at = 0;
  updated_at = 0;
}

abbrev input : IssueInput
input = record {
  organization_id = codes "o1";
  service_account_id = codes "a1";
  created_by_user_id = none;
  expires_at = some (some 1000);
  token_pepper = none;
  at = 10;
  new_id = codes "123e4567-e89b-4234-9abc-123456789abc";
  random_token = repeated 43 97;
}

abbrev before : Accounts
before = record { service_accounts = account ∷ []; service_account_secrets = [] }

abbrev token : Text
token = codes "ocoi_sk_123e4567-e89b-4234-9abc-123456789abc." ++ repeated 43 97

abbrev secret : ServiceAccountSecretRow
secret = record {
  id = codes "123e4567-e89b-4234-9abc-123456789abc";
  organization_id = codes "o1";
  service_account_id = codes "a1";
  token_hash = repeated 64 48;
  token_prefix = codes "ocoi_sk_123e4567-e89b-42";
  expires_at = some 1000;
  last_used_at = none;
  revoked_at = none;
  created_by_user_id = none;
  created_at = 10;
}

abbrev after : Accounts
after = record { service_accounts = account ∷ []; service_account_secrets = secret ∷ [] }

abbrev issued : IssuedServiceAccountSecret
issued = record {
  id = codes "123e4567-e89b-4234-9abc-123456789abc";
  token = token;
  token_prefix = codes "ocoi_sk_123e4567-e89b-42";
  expires_at = some 1000;
  created_at = 10;
}

issuance : issue_secret digest input before ≡ some (after, issued)
unfolding issue_secret hash_opaque_token token_of new_secret insert_secret refuses_secret any
    text_eq take
issuance = refl

random : IsRandom input
unfolding match_classes is_hex is_digit is_url_safe
random = record { id = refl; token = refl }

hex_digest : is_hash (repeated 64 48) ≡ true
unfolding is_hash is_hex is_digit any
hex_digest = refl

before-IsKeyed : IsKeyed before
before-IsKeyed = record { secrets = λ id. tt; accounts = λ o id. ((λ q. tt), tt) }

issue_secret-authenticates_example :
    (db : Accounts) × (r : AuthenticatedServiceAccount) × (authenticate_service_account digest token
        none 500 after
      ≡ some (db, some r))
    × (r.id ≡ codes "a1")
    × (r.secret_id ≡ issued.id)
    × (r.scopes ≡ codes "vendors:read" ∷ [])
unfolding scopes_for normalized_scopes sorted_set sort insert_sorted compare_texts unique_texts
    filter is_allowed_scope any text_eq
issue_secret-authenticates_example =
    issue_secret-authenticates digest input before after issued account 500 (λ p t. hex_digest)
      random before-IsKeyed (Memᴰ.head refl) refl refl issuance refl

after-IsKeyed : IsKeyed after
after-IsKeyed = record { secrets = λ id. ((λ q. tt), tt); accounts = λ o id. ((λ q. tt), tt) }

authenticate_service_account_iff_example :
    ((db : Accounts) × (authenticate_service_account digest token none 500 after
        ≡ some (db, some (authenticated secret account))))
    ↔ ((s : ServiceAccountSecretRow) × (a : ServiceAccountRow) × IsAuthentic digest token none 500
          after s a
        × (authenticated secret account ≡ authenticated s a))
authenticate_service_account_iff_example =
    authenticate_service_account_iff digest token none 500 after (authenticated secret account)
      after-IsKeyed

abbrev revoked : ServiceAccountSecretRow
revoked = record secret { revoked_at = some 20 }

abbrev after_revocation : Accounts
after_revocation = record after { service_account_secrets = revoked ∷ [] }

-- The account is disabled and enabled meanwhile.
Steps-stays_revoked_example :
    authenticate_service_account digest token none 500
      (set_service_account_status (codes "o1") (codes "a1") disabled 30 after_revocation).0
    ≢ some (after, some (authenticated secret account))
unfolding secret_id_from_token match_classes is_hex is_digit is_url_safe
Steps-stays_revoked_example =
    Steps-stays_revoked digest after_revocation _ revoked token none 500 after
      (authenticated secret account)
      (record { secrets = λ id. ((λ q. tt), tt); accounts = λ o id. ((λ q. tt), tt) })
      (Memᴰ.head refl) refl
      (after_step (sets_status (codes "o1") (codes "a1") disabled 30 after_revocation) done) refl
