-- ===== src/Storage/Expired.antt =====
-- An expired session still holds its DID.
use blockchain_io_t_a.Storage.{uses_did}
use blockchain_io_t_a.Prelude.{
  Bool, Bool-cases, [], any, arith, inl, inr, nat_eq, none, some, text_eq, true, ℕ, ◌+◌, ◌<◌, ◌==◌,
  ◌∷◌, ◌≡◌,
}
use blockchain_io_t_a.Prelude.Dict.{Dict, lookup, values}
use blockchain_io_t_a.Prelude.Text.{Str}
use blockchain_io_t_a.Storage.{Session, SessionStore, did_in_use, get_session}

pub any-lookup :
    (test : Session → Bool) (k : Str) (s : Session) (d : Dict Str Session)
    → lookup k d ≡ some s
    → test s ≡ true
    → any test (values d) ≡ true
any-lookup test k s [] h t = cc
any-lookup test k s ((j, w) ∷ d) h t = elim (Bool-cases (k == j)) [
  | inl same ↦ let is_w : w ≡ s = ground arith in rw is_w (ground arith)
  | inr other ↦ ground (arith, any-lookup test k s d)
]

-- Take a session that did_in_use counts for a DID. Once it is past its time get_session answers
-- none for it, and did_in_use still answers true for the DID.
pub did_in_use-get_session :
    (store : SessionStore) (session_id did exclude_session : Str) (s : Session) (now : ℕ)
    → lookup session_id store.sessions ≡ some s
    → uses_did did exclude_session s ≡ true
    → s.created_at + store.ttl < now
    → ((get_session store session_id now).0 ≡ none) × (did_in_use store did exclude_session ≡ true)
unfolding get_session did_in_use
did_in_use-get_session store session_id did exclude_session s now there uses late =
    (ground arith, any-lookup (uses_did did exclude_session) session_id s store.sessions there uses)
