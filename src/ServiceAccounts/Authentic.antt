-- ===== src/ServiceAccounts/Authentic.antt =====
-- server/services/serviceAccounts.ts: which tokens authenticate.
use opencoi.Base.{
  ℕ, ◌≡◌, ◌↔◌, refl, sym, ap, ◌∙◌, true, Option, none, some, arith, Text, text_eq, text_eq_refl,
  All-Memᴰ, inl, inr, Option-cases, find-eq-some, find_of_Memᴰ, AtMostOne-only,
}
use opencoi.Security.{Digest, pepper_or_none, hash_opaque_token, verify_opaque_token, from_hex}
use opencoi.ServiceAccounts.{ServiceAccountRow, ServiceAccountSecretRow, Accounts, is_account}
use opencoi.ServiceAccounts.Token.{secret_id_from_token}
use opencoi.ServiceAccounts.Authenticate.{
  AuthenticatedServiceAccount, authenticate_service_account, authentication_row, is_usable,
  check_row, record_use, authenticated,
}
use opencoi.ServiceAccounts.Lookup.{
  IsAuthentic, IsKeyed, check_row-IsAuthentic, authentication_row-found, authenticate-lookup,
  authenticate-malformed, token_truthy, after_lookup,
}

pub authenticate_sound :
    (digest : Digest) (token : Text) (pepper : Option Text) (at : ℕ) (db db' : Accounts)
    (r : AuthenticatedServiceAccount)
    → authenticate_service_account digest token pepper at db ≡ some (db', some r)
    → (s : ServiceAccountSecretRow) × (a : ServiceAccountRow) × IsAuthentic digest token pepper at
        db s a
      × (db' ≡ record_use s at db)
      × (r ≡ authenticated s a)
authenticate_sound digest token pepper at db db' r h =
    elim (Option-cases (secret_id_from_token token)) [
      | inl e ↦ absurd (not_some _ (authenticate-malformed digest token pepper at db e) h)
      | inr (id, e) ↦ elim (Option-cases (authentication_row id at db)) [
        | inl q ↦ absurd (
            not_some _
              (authenticate-lookup digest token pepper at db id e
                ∙ ap (after_lookup digest token pepper at db) q)
              h)
        | inr ((s, a), q) ↦
            let (enabled, hash, form, db_is, r_is) =
              check_row-IsAuthentic digest token pepper at (digest (pepper_or_none pepper) token) s
                a db db' r
                (ap (after_lookup digest token pepper at db) (sym q)
                  ∙ sym (authenticate-lookup digest token pepper at db id e)
                  ∙ h) in
            let (sm, am, i, unrevoked, unexpired, account_is) =
              authentication_row-found id at db s a q in
            (
              s,
              a,
              record {
                secret_there = sm;
                account_there = am;
                secret_id = e ∙ ap some (sym i);
                account_is = account_is;
                unrevoked = unrevoked;
                unexpired = unexpired;
                enabled = enabled;
                hash = sym hash;
                hash_form = form;
              },
              db_is,
              r_is,
            )
      ]
    ]
  where
    not_some :
        (x : Option (Accounts × Option AuthenticatedServiceAccount))
        → x ≡ some (db, none)
        → x ≡ some (db', some r)
        → ⊥
    not_some x p q = ground arith

-- What is looked up for an authentic token is its secret and its account.
authentication_row-IsAuthentic :
    (digest : Digest) (token : Text) (pepper : Option Text) (at : ℕ) (db : Accounts)
    (s : ServiceAccountSecretRow) (a : ServiceAccountRow)
    → IsKeyed db
    → IsAuthentic digest token pepper at db s a
    → authentication_row s.id at db ≡ some (s, a)
unfolding authentication_row is_usable
authentication_row-IsAuthentic digest token pepper at db s a k h =
    let (s', p) =
      find_of_Memᴰ (is_usable s.id at) db.service_account_secrets h.secret_there
        (ground (arith, text_eq_refl s.id, h.unrevoked, h.unexpired)) in
    let (sm, sq) = find-eq-some _ _ p in
    let s_is : s' ≡ s =
      All-Memᴰ (λ x. text_eq x.id s.id ≡ true → x ≡ s) _
        (AtMostOne-only _ _ s (k.secrets s.id) h.secret_there (text_eq_refl s.id)) sm
        (ground arith) in
    let (a', q) =
      find_of_Memᴰ (is_account s.organization_id s.service_account_id) db.service_accounts
        h.account_there h.account_is in
    let (am, aq) = find-eq-some _ _ q in
    let a_is : a' ≡ a =
      All-Memᴰ (λ x. is_account s.organization_id s.service_account_id x ≡ true → x ≡ a) _
        (AtMostOne-only _ _ a (k.accounts s.organization_id s.service_account_id) h.account_there
          h.account_is)
        am aq in
    rw (p, s_is, q, a_is) refl

pub authenticate_complete :
    (digest : Digest) (token : Text) (pepper : Option Text) (at : ℕ) (db : Accounts)
    (s : ServiceAccountSecretRow) (a : ServiceAccountRow)
    → IsKeyed db
    → IsAuthentic digest token pepper at db s a
    → authenticate_service_account digest token pepper at db
      ≡ some (record_use s at db, some (authenticated s a))
unfolding check_row verify_opaque_token hash_opaque_token
authenticate_complete digest token pepper at db s a k h =
    authenticate-lookup digest token pepper at db s.id h.secret_id
    ∙ ap (after_lookup digest token pepper at db)
        (authentication_row-IsAuthentic digest token pepper at db s a k h)
    ∙ rw
        (
          token_truthy token s.id h.secret_id,
          h.enabled,
          h.hash_form,
          ← h.hash,
          text_eq_refl s.token_hash,
          text_eq_refl (from_hex s.token_hash),
        )
        refl

-- Where the keys of the tables hold, a token authenticates an account exactly when it has the form of a
-- token and names a secret that is neither revoked nor expired, whose hash is that of the token, and whose
-- account is active; what it gives then is that account with its allowed scopes.
pub authenticate_service_account_iff :
    (digest : Digest) (token : Text) (pepper : Option Text) (at : ℕ) (db : Accounts)
    (r : AuthenticatedServiceAccount)
    → IsKeyed db
    → ((db' : Accounts) × (authenticate_service_account digest token pepper at db
          ≡ some (db', some r)))
      ↔ ((s : ServiceAccountSecretRow) × (a : ServiceAccountRow) × IsAuthentic digest token pepper
            at db s a
          × (r ≡ authenticated s a))
authenticate_service_account_iff digest token pepper at db r k = (
  λ (db', h).
      let (s, a, q, _, r_is) = authenticate_sound digest token pepper at db db' r h in
      (s, a, q, r_is),
  λ (s, a, q, r_is). (
    record_use s at db,
    authenticate_complete digest token pepper at db s a k q
        ∙ ap (λ x. some (record_use s at db, some x)) (sym r_is),
  ),
)
