-- ===== src/Tokens/Token/Messages.antt =====
-- What the message of an access request binds.
use mathlib.Core.List.{append_assoc}
use blockchain_io_t_a.Prelude.{Bool, [], all, arith, nat_beq, not, refl, true, ◌++◌, ◌∷◌, ◌≡◌}
use blockchain_io_t_a.Prelude.Text.{Bytes, Str, encode, utf8_char}
use blockchain_io_t_a.Prelude.Text.Utf8.{IsUnicode, encode-injective}
use blockchain_io_t_a.Tokens.Token.{access_message}

encode-append : (s t : Str) → encode (s ++ t) ≡ encode s ++ encode t
unfolding encode
encode-append [] t = refl
encode-append (x ∷ s) t = ground (arith, encode-append s t)

encode-bar : (s t : Str) → encode (s ++ b'|' ∷ t) ≡ encode s ++ b'|' ∷ encode t
unfolding encode
encode-bar s t = encode-append s (b'|' ∷ t)

encode_split :
    (s t u : Str)
    → encode (s ++ b'|' ∷ t) ++ b'|' ∷ encode u ≡ encode s ++ b'|' ∷ encode (t ++ b'|' ∷ u)
encode_split s t u =
    rw (encode-bar s t, encode-bar t u)
      (append_assoc (encode s) (b'|' ∷ encode t) (b'|' ∷ encode u))

-- A bar in a resource or an operation is not told from the separator: two requests that differ have
-- one message, so a signature of the one is a signature of the other.
pub access_message-ambiguous :
    (token_id did nonce resource middle operation : Str)
    → access_message token_id did nonce (resource ++ b'|' ∷ middle) operation
      ≡ access_message token_id did nonce resource (middle ++ b'|' ∷ operation)
unfolding access_message
access_message-ambiguous token_id did nonce resource middle operation =
    ground (arith, encode_split resource middle operation)

-- a text without a bar
abbrev pub no_bar : Str → Bool
no_bar s = all (λ x. not (nat_beq x b'|')) s

encode-no_bar : (s : Str) → IsUnicode s → no_bar s ≡ true → no_bar (encode s) ≡ true
unfolding encode utf8_char
encode-no_bar [] u h = refl
encode-no_bar (x ∷ s) u h = ground (arith, encode-no_bar s u.1, u.0)

bar-split :
    (xs ys s t : Bytes)
    → no_bar xs ≡ true
    → no_bar ys ≡ true
    → xs ++ b'|' ∷ s ≡ ys ++ b'|' ∷ t
    → (xs ≡ ys) × (s ≡ t)
bar-split [] [] s t h k e = ground arith
bar-split [] (y ∷ ys) s t h k e = absurd (ground arith)
bar-split (x ∷ xs) [] s t h k e = absurd (ground arith)
bar-split (x ∷ xs) (y ∷ ys) s t h k e =
    let (same, rest) = bar-split xs ys s t (ground arith) (ground arith) (ground arith) in
    ground arith

-- The encoded field before a bar is fixed by the message.
field-split :
    (s t : Str) (rest rest' : Bytes)
    → IsUnicode s
    → IsUnicode t
    → no_bar s ≡ true
    → no_bar t ≡ true
    → encode s ++ b'|' ∷ rest ≡ encode t ++ b'|' ∷ rest'
    → (s ≡ t) × (rest ≡ rest')
field-split s t rest rest' u v h k e =
    let (same, after) =
      bar-split (encode s) (encode t) rest rest' (encode-no_bar s u h) (encode-no_bar t v k) e in
    (encode-injective s t u v same, after)

-- The fields of a request as they are signed.
pub record IsPlain (token_id did nonce resource operation : Str) : Type 0 where
  pub unicode :
      IsUnicode token_id
      × IsUnicode did
      × IsUnicode nonce
      × IsUnicode resource
      × IsUnicode operation
  pub no_bars :
      (no_bar token_id ≡ true)
      × (no_bar did ≡ true)
      × (no_bar nonce ≡ true)
      × (no_bar resource ≡ true)

-- Where no field but the last has a bar in it, the message of an access request fixes the token, the
-- DID, the nonce, the resource and the operation.
pub access_message-injective :
    (token_id did nonce resource operation token_id' did' nonce' resource' operation' : Str)
    → IsPlain token_id did nonce resource operation
    → IsPlain token_id' did' nonce' resource' operation'
    → access_message token_id did nonce resource operation
      ≡ access_message token_id' did' nonce' resource' operation'
    → (token_id ≡ token_id')
      × (did ≡ did')
      × (nonce ≡ nonce')
      × (resource ≡ resource')
      × (operation ≡ operation')
unfolding access_message
access_message-injective token_id did nonce resource operation token_id' did' nonce' resource'
      operation' p q h =
    let (pu1, pu2, pu3, pu4, pu5) = p.unicode in
    let (qu1, qu2, qu3, qu4, qu5) = q.unicode in
    let (pb1, pb2, pb3, pb4) = p.no_bars in
    let (qb1, qb2, qb3, qb4) = q.no_bars in
    let (same1, rest1) = field-split token_id token_id' _ _ pu1 qu1 pb1 qb1 (ground arith) in
    let (same2, rest2) = field-split did did' _ _ pu2 qu2 pb2 qb2 rest1 in
    let (same3, rest3) = field-split nonce nonce' _ _ pu3 qu3 pb3 qb3 rest2 in
    let (same4, rest4) = field-split resource resource' _ _ pu4 qu4 pb4 qb4 rest3 in
    (same1, same2, same3, same4, encode-injective operation operation' pu5 qu5 rest4)
