-- ===== src/Webhooks/Target.antt =====
-- server/services/webhooks.ts: what a resolved webhook target is.
use opencoi.Base.{
  ℕ, ◌+◌, ◌^◌, ◌≤◌, ◌<◌, ◌≡◌, ◌≢◌, ◌↔◌, refl, Bool, true, false, none, some, List, [], ◌∷◌, arith,
  any, Text, truthy, All, All-of_any, All-imp, Bool-cases, inl, inr, some-inj, subst,
}
use opencoi.Webhooks.{
  Address, groups, ipv6_prefix, is_disallowed_ipv6, is_public_webhook_address, Url, LookupAddress,
  PublicWebhookTarget, is_permitted, addresses_of, is_refused, select_target,
  resolve_public_webhook_target,
}

-- The numbers from `low` on, `size` of them.
abbrev pub In : ℕ → ℕ → ℕ → Type 0
In low size n = (low ≤ n) × (n < low + size)

-- An address of 128 bits is allowed exactly when it stands in 2000::/3 and in none of 2001::/23,
-- 2001:db8::/32, 2002::/16, 2620:4f:8000::/48 and 3fff::/20.
pub is_disallowed_ipv6-ranges :
    (n : ℕ)
    → (is_disallowed_ipv6 n ≡ false) ↔ (
        In (2 ^ 125) (2 ^ 125) n
        × (¬ In (groups 0x2001 0 0) (2 ^ 105) n)
        × (¬ In (groups 0x2001 0xdb8 0) (2 ^ 96) n)
        × (¬ In (groups 0x2002 0 0) (2 ^ 112) n)
        × (¬ In (groups 0x2620 0x4f 0x8000) (2 ^ 80) n)
        × (¬ In (groups 0x3fff 0 0) (2 ^ 108) n))
unfolding is_disallowed_ipv6 ipv6_prefix
is_disallowed_ipv6-ranges n = (λ h. ground arith, λ h. ground arith)

not_refused :
    (l : LookupAddress) → is_refused l ≡ false → is_public_webhook_address l.address ≡ true
unfolding is_refused
not_refused l h = ground arith

select_target-public :
    (url : Url) (ls : List LookupAddress) (t : PublicWebhookTarget)
    → select_target url ls ≡ some t
    → (t.url ≡ url)
      × (is_public_webhook_address t.address ≡ true)
      × All (λ l. is_public_webhook_address l.address ≡ true) ls
unfolding select_target
select_target-public url [] t h = ground arith
select_target-public url (l ∷ ls) t h = elim (Bool-cases (any is_refused (l ∷ ls))) [
  | inl e ↦ absurd (none_some (rw e at h))
  | inr e ↦
      let all_public =
        All-imp _ (λ l. is_public_webhook_address l.address ≡ true) not_refused (l ∷ ls)
          (All-of_any is_refused (l ∷ ls) e) in
      subst
        (λ x.
          (x.url ≡ url)
          × (is_public_webhook_address x.address ≡ true)
          × All (λ l. is_public_webhook_address l.address ≡ true) (l ∷ ls))
        (some-inj (rw e at h)) (refl, all_public.0, all_public)
]
  where
    none_some : {x : PublicWebhookTarget} → none ≡ some x → ⊥
    none_some q = ground arith

not_truthy : (s : Text) → truthy s ≡ false → s ≡ []
not_truthy [] h = refl
not_truthy (c ∷ s) h = ground arith

-- A target that is resolved has a permitted protocol, no credentials and no fragment, its address is
-- public, and every address of its host is: the ones that the lookup gave, or the host itself where it
-- is an address.
pub resolve_public_webhook_target-public :
    (allow_http : Bool) (url : Url) (host : Address) (answers : List LookupAddress)
    (t : PublicWebhookTarget)
    → resolve_public_webhook_target allow_http url host answers ≡ some t
    → (t.url ≡ url)
      × (is_permitted allow_http url.protocol ≡ true)
      × ((url.username ≡ []) × (url.password ≡ []) × (url.hash ≡ []) × (url.hostname ≢ []))
      × (is_public_webhook_address t.address ≡ true)
      × All (λ l. is_public_webhook_address l.address ≡ true) (addresses_of host answers)
unfolding resolve_public_webhook_target
resolve_public_webhook_target-public allow_http url host answers t h =
    let (u, a, all_public) =
      select_target-public url (addresses_of host answers) t (ground arith) in
    (
      u,
      ground arith,
      (
        not_truthy url.username (ground arith),
        not_truthy url.password (ground arith),
        not_truthy url.hash (ground arith),
        λ q. ground arith,
      ),
      a,
      all_public,
    )
