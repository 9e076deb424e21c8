-- ===== src/Tests/Findings.antt =====
-- Inputs that the code treats in another way than it says, and the header of a device.
use blockchain_io_t_a.Prelude.{[], arith, none, refl, some, true, ◌↔◌, ◌∷◌, ◌≡◌}
use blockchain_io_t_a.Prelude.Text.{codes, from_hex, to_hex}
use blockchain_io_t_a.Psk.{PskStore, check, is_blank, parse_authorization}
use blockchain_io_t_a.Psk.Header.{header_of, parse_authorization-header_of, solid}
use blockchain_io_t_a.Storage.{
  uses_did, Session, SessionStore, did_in_use, get_session, key_submitted,
}
use blockchain_io_t_a.Storage.Expired.{did_in_use-get_session}
use blockchain_io_t_a.Tests.Toy.{toy}

abbrev stale : Session
stale = record {
  session_id = codes "s1";
  provisioning_id = codes "temp01";
  created_at = 0;
  state = key_submitted;
  did = some (codes "did:iiot:a1");
  public_key = none;
  challenge = none;
  challenge_expires = 0;
  challenge_used = true;
  timings = [];
}

abbrev stale_store : SessionStore
stale_store = record { ttl = 300; sessions = (codes "s1", stale) ∷ [] }

still_counts : uses_did (codes "did:iiot:a1") (codes "s2") stale ≡ true
unfolding uses_did
still_counts = refl

did_in_use-get_session_example :
    ((get_session stale_store (codes "s1") 400).0 ≡ none)
    × (did_in_use stale_store (codes "did:iiot:a1") (codes "s2") ≡ true)
did_in_use-get_session_example =
    did_in_use-get_session stale_store (codes "s1") (codes "did:iiot:a1") (codes "s2") stale 400
      refl still_counts (omega arith)

key_text : from_hex (codes "00ff") ≡ some (0 ∷ 255 ∷ [])
unfolding from_hex
key_text = refl

solid_key : solid (codes "00ff") ≡ true
unfolding is_blank
solid_key = refl

abbrev key_store : PskStore
key_store = (codes "temp01", to_hex (toy.sha256 (0 ∷ 255 ∷ []))) ∷ []

parse_authorization-header_of_example :
    (parse_authorization (some (header_of (codes "temp01") (codes "00ff")))
      ≡ some (codes "temp01", codes "00ff"))
    × ((check toy key_store (codes "temp01") (codes "00ff") ≡ true)
        ↔ (to_hex (toy.sha256 (0 ∷ 255 ∷ [])) ≡ to_hex (toy.sha256 (0 ∷ 255 ∷ []))))
parse_authorization-header_of_example =
    parse_authorization-header_of toy key_store b't' b'0' (codes "emp01") (codes "0ff")
      (to_hex (toy.sha256 (0 ∷ 255 ∷ []))) (0 ∷ 255 ∷ []) refl solid_key key_text refl
