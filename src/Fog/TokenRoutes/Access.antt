-- ===== src/Fog/TokenRoutes/Access.antt =====
-- What an ALLOW of /tokens/access rests on.
use blockchain_io_t_a.Common.Crypto.{Crypto}
use blockchain_io_t_a.Fog.Context.{FogContext, done}
use blockchain_io_t_a.Fog.Revocation.{is_device_revoked}
use blockchain_io_t_a.Fog.TokenRoutes.{
  TokenAccessRequest, access_decision, access_with_nonce, allow, policy_allows, scope_allows,
  scope_and_policy, tokens_access,
}
use blockchain_io_t_a.Ledger.{item}
use blockchain_io_t_a.Policy.{check_policy, provisional_allowed, provisional_operations}
use blockchain_io_t_a.Prelude.{
  Option, Result-cases, ap, arith, false, inl, inr, mem, nat_eq, ok, refl, some, text_beq_iff,
  text_eq, true, ℕ, ◌∙◌, ◌≡◌,
}
use blockchain_io_t_a.Prelude.Dict.{insert, lookup, lookup-insert_self}
use blockchain_io_t_a.Prelude.Json.{Value, str}
use blockchain_io_t_a.Prelude.Text.{Str, codes}
use blockchain_io_t_a.Storage.{DeviceStore}
use blockchain_io_t_a.Tokens.Nonces.{
  NonceBook, NonceEntry, NonceStatus, TokenState, consume, is_revoked, nonce_ok,
}
use blockchain_io_t_a.Tokens.Nonces.Once.{IsFresh, consume-ok}
use blockchain_io_t_a.Tokens.Token.{
  access_signature_valid, text_item, token_expired, token_nonce_purpose, token_signature_valid,
}

-- All that has held when a request is allowed; `e` is the entry of its nonce.
pub record IsGranted (c : Crypto) (float_of : Str → Option ℕ) (ctx : FogContext)
    (body : TokenAccessRequest) (now now' : ℕ) (tid did own_type role : Str) (e : NonceEntry)
    : Type 0 where
  pub signed_by_fog : token_signature_valid c body.token ctx.signing_key ≡ true
  pub token_id : text_item (codes "token_id") body.token ≡ ok tid
  pub token_did : text_item (codes "did") body.token ≡ ok did
  pub not_expired : token_expired float_of body.token now ≡ false
  pub fresh : IsFresh ctx.token_state.nonces token_nonce_purpose tid body.nonce now' e
  pub token_not_revoked : is_revoked ctx.token_state tid ≡ false
  pub device_not_revoked : is_device_revoked ctx.devices did ≡ false
  pub signed_by_device :
      access_signature_valid c body.token body.nonce body.resource body.operation body.signature
      ≡ true
  pub type_item : item (codes "device_type") body.token ≡ ok (str own_type)
  pub role_item : item (codes "role") body.token ≡ ok (str role)
  pub own_resource : body.resource ≡ own_type
  pub provisional : mem body.operation provisional_operations ≡ true
  pub permitted : check_policy body.resource body.operation role ≡ true

scope_allows-true :
    (v : Value) (resource operation : Str)
    → scope_allows v resource operation ≡ true
    → (own : Str) × (v ≡ str own) × (resource ≡ own) × (mem operation provisional_operations ≡ true)
unfolding scope_allows provisional_allowed
scope_allows-true (str own) resource operation h =
    (own, refl, ground (arith, text_beq_iff resource own), ground arith)
scope_allows-true v resource operation h = cc

policy_allows-true :
    (resource operation : Str) (v : Value)
    → policy_allows resource operation v ≡ true
    → (role : Str) × (v ≡ str role) × (check_policy resource operation role ≡ true)
unfolding policy_allows
policy_allows-true resource operation (str role) h = (role, refl, h)
policy_allows-true resource operation v h = cc

scope_and_policy-allow :
    (body : TokenAccessRequest)
    → scope_and_policy body ≡ ok allow
    → (own role : Str) × (item (codes "device_type") body.token ≡ ok (str own))
      × (item (codes "role") body.token ≡ ok (str role))
      × (body.resource ≡ own)
      × (mem body.operation provisional_operations ≡ true)
      × (check_policy body.resource body.operation role ≡ true)
unfolding scope_and_policy
scope_and_policy-allow body h = elim (Result-cases (item (codes "device_type") body.token)) [
  | inr (x, raised) ↦ absurd (ground arith)
  | inl (v, there) ↦ elim (Result-cases (item (codes "role") body.token)) [
    | inr (x, raised) ↦ absurd (ground arith)
    | inl (w, there') ↦
        let scope : scope_allows v body.resource body.operation ≡ true = ground arith in
        let policy : policy_allows body.resource body.operation w ≡ true = ground arith in
        let (own, is_own, same, op) = scope_allows-true v body.resource body.operation scope in
        let (role, is_role, permitted) = policy_allows-true body.resource body.operation w policy in
        (own, role, rw (← is_own) there, rw (← is_role) there', same, op, permitted)
  ]
]

module _ (c : Crypto) (ctx ctx' : FogContext) (body : TokenAccessRequest) where
  access_decision-allow :
      (ts : TokenState) (devices : DeviceStore) (tid did : Str)
      → access_decision c ts devices body tid did ≡ ok allow
      → (is_revoked ts tid ≡ false)
        × (is_device_revoked devices did ≡ false)
        × (access_signature_valid c body.token body.nonce body.resource body.operation
              body.signature
            ≡ true)
        × (scope_and_policy body ≡ ok allow)
  unfolding access_decision
  access_decision-allow ts devices tid did h = ground arith

  access_with_nonce-allow :
      (tid did : Str) (now : ℕ)
      → access_with_nonce c body tid did now ctx ≡ (done allow, ctx')
      → (book : NonceBook) × (consume ctx.token_state.nonces token_nonce_purpose tid body.nonce now
          ≡ (nonce_ok, book))
        × (access_decision c (record ctx.token_state { nonces = book }) ctx.devices body tid did
            ≡ ok allow)
        × (ctx' ≡ record ctx { token_state = record ctx.token_state { nonces = book } })
  unfolding access_with_nonce
  access_with_nonce-allow tid did now h =
      go (consume ctx.token_state.nonces token_nonce_purpose tid body.nonce now).0
        (consume ctx.token_state.nonces token_nonce_purpose tid body.nonce now).1 refl
    where
      go :
          (status : NonceStatus) (book : NonceBook)
          → consume ctx.token_state.nonces token_nonce_purpose tid body.nonce now ≡ (status, book)
          → (book : NonceBook) × (consume ctx.token_state.nonces token_nonce_purpose tid body.nonce
                now
              ≡ (nonce_ok, book))
            × (access_decision c (record ctx.token_state { nonces = book }) ctx.devices body tid did
                ≡ ok allow)
            × (ctx' ≡ record ctx { token_state = record ctx.token_state { nonces = book } })
      go nonce_ok book e =
          let st = record ctx.token_state { nonces = book } in
          elim (Result-cases (access_decision c st ctx.devices body tid did)) [
            | inl (d, decided) ↦ (book, e, ground arith, ground arith)
            | inr (x, raised) ↦ absurd (ground arith)
          ]
      go status book e = absurd (ground arith)

  -- The nonce is marked as used, and the rest of the context is as it was: the other nonces, the
  -- issued and the revoked tokens, the devices, the keys, and all else.
  pub record IsUsed (e : NonceEntry) : Type 0 where
    pub burned : lookup body.nonce ctx'.token_state.nonces.entries ≡ some (record e { used = true })
    pub after : ctx' ≡ record ctx {
      token_state = record ctx.token_state {
        nonces = record ctx.token_state.nonces {
          entries = insert body.nonce (record e { used = true }) ctx.token_state.nonces.entries;
        };
      };
    }

  after_use :
      (book : NonceBook) (e : NonceEntry)
      → ctx' ≡ record ctx { token_state = record ctx.token_state { nonces = book } }
      → book.entries ≡ insert body.nonce (record e { used = true }) ctx.token_state.nonces.entries
      → book.ttl ≡ ctx.token_state.nonces.ttl
      → IsUsed e
  after_use book e after marked same_ttl = record {
    burned =
        rw (after, marked)
          (lookup-insert_self body.nonce (record e { used = true }) ctx.token_state.nonces.entries);
    after =
        after
        ∙ ap (λ (b : NonceBook). record ctx { token_state = record ctx.token_state { nonces = b } })
            (λ i. record { ttl = same_ttl i; entries = marked i });
  }

  -- What is allowed was signed by the fog and has not expired; its nonce was issued for this token,
  -- unused and in time; neither the token nor the device is revoked; the request is signed by the
  -- key in the token; and it reads or writes the device's own type, as the policy permits the role.
  -- The entry of the nonce is then marked as used, and nothing else of the context changes.
  pub tokens_access-allow :
      (float_of : Str → Option ℕ) (now now' : ℕ)
      → tokens_access c float_of body now now' ctx ≡ (done allow, ctx')
      → (tid did own_type role : Str) × (e : NonceEntry) × IsGranted c float_of ctx body now now'
          tid did own_type role e
        × IsUsed e
  unfolding tokens_access
  tokens_access-allow float_of now now' h =
      elim (Result-cases (text_item (codes "token_id") body.token)) [
        | inr (x, raised) ↦ absurd (ground arith)
        | inl (tid, has_tid) ↦ elim (Result-cases (text_item (codes "did") body.token)) [
          | inr (x, raised) ↦ absurd (ground arith)
          | inl (did, has_did) ↦
              let inner : access_with_nonce c body tid did now' ctx ≡ (done allow, ctx') =
                ground arith in
              let (book, taken, decided, after) = access_with_nonce-allow tid did now' inner in
              let (e, fresh, marked, same_ttl) =
                consume-ok ctx.token_state.nonces token_nonce_purpose tid body.nonce now' book
                  taken in
              let (tok, dev, signed, checks) =
                access_decision-allow (record ctx.token_state { nonces = book }) ctx.devices tid did
                  decided in
              let (own, role, has_own, has_role, same, op, permitted) =
                scope_and_policy-allow body checks in
              (
                tid,
                did,
                own,
                role,
                e,
                record {
                  signed_by_fog = ground arith;
                  token_id = has_tid;
                  token_did = has_did;
                  not_expired = ground arith;
                  fresh = fresh;
                  token_not_revoked = unfold is_revoked in tok;
                  device_not_revoked = dev;
                  signed_by_device = signed;
                  type_item = has_own;
                  role_item = has_role;
                  own_resource = same;
                  provisional = op;
                  permitted = permitted;
                },
                after_use book e after marked same_ttl,
              )
        ]
      ]
