-- ===== src/ServiceAccounts/Lookup.antt =====
-- server/services/serviceAccounts.ts: what is looked up for a token.
use opencoi.Base.{
  ℕ, ◌≡◌, refl, sym, subst, ap, ◌∙◌, true, false, Option, none, some, [], ◌∷◌, arith, Text, text_eq,
  text_eq_sound, inl, inr, Option-cases, >>=-eq-some, some-inj, find, find-eq-some, truthy, is_some,
  AtMostOne,
}
use mathlib.Core.List.{Memᴰ}
use opencoi.Security.{Digest, pepper_or_none, hash_opaque_token, verify_opaque_token, is_hash}
use opencoi.ServiceAccounts.{
  ServiceAccountRow, ServiceAccountSecretRow, Accounts, active, is_account,
}
use opencoi.ServiceAccounts.Token.{secret_id_from_token, match_classes}
use opencoi.ServiceAccounts.Authenticate.{
  AuthenticatedServiceAccount, authenticate_service_account, authentication_row, is_usable,
  expires_after, check_row, record_use, authenticated, token_or_invalid,
}

-- A token is that of a secret which can be used, of an account that is active.
pub record IsAuthentic (digest : Digest) (token : Text) (pepper : Option Text) (at : ℕ)
    (db : Accounts) (s : ServiceAccountSecretRow) (a : ServiceAccountRow) : Type 0 where
  pub secret_there : Memᴰ s db.service_account_secrets
  pub account_there : Memᴰ a db.service_accounts
  pub secret_id : secret_id_from_token token ≡ some s.id
  pub account_is : is_account s.organization_id s.service_account_id a ≡ true
  pub unrevoked : s.revoked_at ≡ none
  pub unexpired : expires_after s.expires_at at ≡ true
  pub enabled : a.status ≡ active
  pub hash : s.token_hash ≡ digest (pepper_or_none pepper) token
  pub hash_form : is_hash s.token_hash ≡ true

-- The primary keys of the tables.
pub record IsKeyed (db : Accounts) : Type 0 where
  pub secrets :
      (id : Text)
      → AtMostOne (λ (s : ServiceAccountSecretRow). text_eq s.id id) db.service_account_secrets
  pub accounts : (o id : Text) → AtMostOne (is_account o id) db.service_accounts

pub token_truthy : (token id : Text) → secret_id_from_token token ≡ some id → truthy token ≡ true
unfolding secret_id_from_token match_classes
token_truthy [] id h = ground arith
token_truthy (c ∷ token) id h = refl

pub check_row-IsAuthentic :
    (digest : Digest) (token : Text) (pepper : Option Text) (at : ℕ) (candidate : Text)
    (s : ServiceAccountSecretRow) (a : ServiceAccountRow) (db : Accounts) (db' : Accounts)
    (r : AuthenticatedServiceAccount)
    → check_row digest token pepper at candidate s a db ≡ some (db', some r)
    → (a.status ≡ active)
      × (candidate ≡ s.token_hash)
      × (is_hash s.token_hash ≡ true)
      × (db' ≡ record_use s at db)
      × (r ≡ authenticated s a)
unfolding check_row verify_opaque_token
check_row-IsAuthentic digest token pepper at candidate s a db db' r h =
    ground (arith, text_eq_sound candidate s.token_hash)

-- What a row that is found has.
pub authentication_row-found :
    (id : Text) (at : ℕ) (db : Accounts) (s : ServiceAccountSecretRow) (a : ServiceAccountRow)
    → authentication_row id at db ≡ some (s, a)
    → Memᴰ s db.service_account_secrets
      × Memᴰ a db.service_accounts
      × (s.id ≡ id)
      × (s.revoked_at ≡ none)
      × (expires_after s.expires_at at ≡ true)
      × (is_account s.organization_id s.service_account_id a ≡ true)
unfolding authentication_row is_usable
authentication_row-found id at db s a h =
    let (s', p, h') = >>=-eq-some _ _ h in
    let (a', q, h'') = >>=-eq-some _ _ h' in
    let s_is : s' ≡ s = ap (λ x. x.0) (some-inj h'') in
    let a_is : a' ≡ a = ap (λ x. x.1) (some-inj h'') in
    let (sm, st) = find-eq-some _ _ (p ∙ ap some s_is) in
    let (am, at') = find-eq-some (is_account s.organization_id s.service_account_id) _ (
      subst
        (λ x. find (is_account x.organization_id x.service_account_id) db.service_accounts ≡ some a)
        s_is (q ∙ ap some a_is)) in
    (
      sm,
      am,
      text_eq_sound s.id id (ground arith),
      no_revocation s (ground arith),
      ground arith,
      at',
    )
  where
    no_revocation :
        (s : ServiceAccountSecretRow) → is_some s.revoked_at ≡ false → s.revoked_at ≡ none
    no_revocation s k = ground arith

hash_candidate :
    (digest : Digest) (token : Text) (pepper : Option Text)
    → truthy token ≡ true
    → hash_opaque_token digest (token_or_invalid token) pepper
      ≡ some (digest (pepper_or_none pepper) token)
unfolding hash_opaque_token
hash_candidate digest [] pepper h = ground arith
hash_candidate digest (c ∷ token) pepper h = refl

abbrev pub after_lookup :
    Digest
    → Text
    → Option Text
    → ℕ
    → Accounts
    → Option (ServiceAccountSecretRow × ServiceAccountRow)
    → Option (Accounts × Option AuthenticatedServiceAccount)
after_lookup digest token pepper at db none = some (db, none)
after_lookup digest token pepper at db (some (s, a)) =
    check_row digest token pepper at (digest (pepper_or_none pepper) token) s a db

-- The authentication of a token with the id of a secret.
pub authenticate-lookup :
    (digest : Digest) (token : Text) (pepper : Option Text) (at : ℕ) (db : Accounts) (id : Text)
    → secret_id_from_token token ≡ some id
    → authenticate_service_account digest token pepper at db
      ≡ after_lookup digest token pepper at db (authentication_row id at db)
unfolding authenticate_service_account
authenticate-lookup digest token pepper at db id h =
    rw (hash_candidate digest token pepper (token_truthy token id h), h)
      (by_row (authentication_row id at db))
  where
    by_row :
        (x : Option (ServiceAccountSecretRow × ServiceAccountRow))
        → elim x [
          | none ↦ some (db, none)
          | some found ↦
              check_row digest token pepper at
                (digest (pepper_or_none pepper) token)
                found.0
                found.1
                db
        ]
          ≡ after_lookup digest token pepper at db x
    by_row none = refl
    by_row (some x) = refl

-- A token without the form of a token authenticates no account.
pub authenticate-malformed :
    (digest : Digest) (token : Text) (pepper : Option Text) (at : ℕ) (db : Accounts)
    → secret_id_from_token token ≡ none
    → authenticate_service_account digest token pepper at db ≡ some (db, none)
unfolding authenticate_service_account hash_opaque_token
authenticate-malformed digest [] pepper at db h = rw h refl
authenticate-malformed digest (c ∷ token) pepper at db h = rw h refl

check_row-refused :
    (digest : Digest) (token : Text) (pepper : Option Text) (at : ℕ) (candidate : Text)
    (s : ServiceAccountSecretRow) (a : ServiceAccountRow) (db db' : Accounts)
    → check_row digest token pepper at candidate s a db ≡ some (db', none)
    → db' ≡ db
unfolding check_row verify_opaque_token
check_row-refused digest token pepper at candidate s a db db' h = ground arith

after_lookup-refused :
    (digest : Digest) (token : Text) (pepper : Option Text) (at : ℕ) (db db' : Accounts)
    (x : Option (ServiceAccountSecretRow × ServiceAccountRow))
    → after_lookup digest token pepper at db x ≡ some (db', none)
    → db' ≡ db
after_lookup-refused digest token pepper at db db' none h = ground arith
after_lookup-refused digest token pepper at db db' (some (s, a)) h =
    check_row-refused digest token pepper at _ s a db db' h

-- An authentication that gives no account changes nothing.
pub authenticate-refused :
    (digest : Digest) (token : Text) (pepper : Option Text) (at : ℕ) (db db' : Accounts)
    → authenticate_service_account digest token pepper at db ≡ some (db', none)
    → db' ≡ db
authenticate-refused digest token pepper at db db' h =
    elim (Option-cases (secret_id_from_token token)) [
      | inl e ↦ ground (arith, authenticate-malformed digest token pepper at db e)
      | inr (id, e) ↦
          after_lookup-refused digest token pepper at db db' (authentication_row id at db)
            (sym (authenticate-lookup digest token pepper at db id e) ∙ h)
    ]
