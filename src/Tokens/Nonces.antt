-- ===== src/Tokens/Nonces.antt =====
-- NonceBook and TokenState (fog/tokens/store.py).
pub mod Once
use blockchain_io_t_a.Prelude.{
  Bool, Eq, List, Option, [], false, if◌then◌else◌, length, ltb, mem, nat_eq, none, not, some,
  text_eq, true, ℕ, ◌+◌, ◌==◌, ◌||◌, ◌∷◌,
}
use blockchain_io_t_a.Prelude.Dict.{Dict, contains, erase, insert, lookup}
use blockchain_io_t_a.Prelude.Text.{Str}

pub data NonceStatus : Type 0 where
  nonce_ok nonce_unknown nonce_wrong_subject nonce_expired nonce_reused : NonceStatus

-- `_NonceEntry`
pub record NonceEntry : Type 0 where
  pub purpose : Str
  pub subject : Str
  pub expires_at : ℕ
  pub used : Bool

pub record NonceBook : Type 0 where
  pub ttl : ℕ
  pub entries : Dict Str NonceEntry

unfoldable pub is_dead : ℕ → NonceEntry → Bool
is_dead now e = ltb e.expires_at now

-- `_purge`
unfoldable pub purge : ℕ → Dict Str NonceEntry → Dict Str NonceEntry
unfolding is_dead
purge now [] = []
purge now ((n, e) ∷ entries) =
    let rest = purge now entries in if is_dead now e then rest else (n, e) ∷ rest

-- `fresh` is the random nonce.
unfoldable pub issue_nonce : NonceBook → Str → Str → Str → ℕ → NonceBook
unfolding purge
issue_nonce book purpose subject fresh now = record book {
  entries =
      insert fresh
        (record { purpose = purpose; subject = subject; expires_at = now + book.ttl; used = false })
        (purge now book.entries);
}

unfoldable pub consume : NonceBook → Str → Str → Str → ℕ → NonceStatus × NonceBook
unfolding is_dead
consume book purpose subject nonce now = elim (lookup nonce book.entries) [
  | none ↦ (nonce_unknown, book)
  | some e ↦
      if not (e.purpose == purpose) || not (e.subject == subject)
      then (nonce_wrong_subject, book)
      else if e.used
      then (nonce_reused, book)
      else if is_dead now e
      then (nonce_expired, record book { entries = erase nonce book.entries })
      else (
        nonce_ok,
        record book { entries = insert nonce (record e { used = true }) book.entries },
      )
]

pub record TokenState : Type 0 where
  pub issued : Dict Str Str
  pub revoked_ids : List Str
  pub nonces : NonceBook

unfoldable pub record_issued : TokenState → Str → Str → TokenState
record_issued ts token_id did = record ts { issued = insert token_id did ts.issued }

unfoldable pub was_issued : TokenState → Str → Bool
was_issued ts token_id = contains token_id ts.issued

unfoldable pub owner_of : TokenState → Str → Option Str
owner_of ts token_id = lookup token_id ts.issued

-- The tokens whose owner is `did`.
unfoldable pub tokens_in : Str → Dict Str Str → List Str
tokens_in did [] = []
tokens_in did ((t, d) ∷ issued) =
    let rest = tokens_in did issued in if d == did then t ∷ rest else rest

unfoldable pub tokens_of : TokenState → Str → List Str
unfolding tokens_in
tokens_of ts did = tokens_in did ts.issued

-- `_revoked_token_ids.add`
unfoldable pub revoke_id : TokenState → Str → TokenState
revoke_id ts token_id =
    if mem token_id ts.revoked_ids
    then ts
    else record ts { revoked_ids = token_id ∷ ts.revoked_ids }

unfoldable pub is_revoked : TokenState → Str → Bool
is_revoked ts token_id = mem token_id ts.revoked_ids

-- `len` of a nonce book
unfoldable pub nonce_count : NonceBook → ℕ
nonce_count book = length book.entries
